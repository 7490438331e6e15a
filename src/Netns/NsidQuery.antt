-- ===== src/Netns/NsidQuery.antt =====
-- The `id_by_*` functions of src/netns.rs: asking the kernel for the id of a namespace.
use net_device_mapping.Host.{Host, NsId, RawFd}
use net_device_mapping.Netlink.{
  is_nonnegative, as_u32, NsidAttribute, id, current_nsid, fd, get_nsid, new_nsid, NetlinkPayload,
  inner_message, NetlinkRequest, unspec, nlm_f_request,
}
use net_device_mapping.Netns.{IdError, couldnt_open_netns, rtnetlink}
use net_device_mapping.Path.{PathBuf}
use net_device_mapping.Prelude.{
  ◌%◌, ◌^◌, List, [], ◌∷◌, Option, none, some, Result, ok, map_err, ◌>>=◌, if◌then◌else◌,
}

-- The first id of an answer that is not negative: the kernel answers -1 for "not assigned".
unfoldable pub assigned_id : List NsidAttribute → Option NsId
assigned_id [] = none
assigned_id (id n ∷ attributes) =
    if is_nonnegative n then some (as_u32 n) else assigned_id attributes
assigned_id (current_nsid n ∷ attributes) =
    if is_nonnegative n then some (as_u32 n) else assigned_id attributes
assigned_id (_ ∷ attributes) = assigned_id attributes

-- The loop over the answers; one without an id is skipped.
unfoldable pub read_responses : List NetlinkPayload → Option NsId
unfolding assigned_id
read_responses [] = none
read_responses (inner_message (new_nsid attributes) ∷ responses) = elim (assigned_id attributes) [
  | some n ↦ some n
  | none ↦ read_responses responses
]
read_responses (_ ∷ responses) = read_responses responses

-- `RTM_GETNSID` for a file descriptor.
abbrev pub nsid_request : RawFd → NetlinkRequest
nsid_request file = record {
  flags = nlm_f_request;
  family = unspec;
  payload = inner_message (get_nsid (fd (file % 2 ^ 32) ∷ []));
}

unfoldable pub id_by_file_descriptor : Host → RawFd → Result IdError (Option NsId)
unfolding read_responses
id_by_file_descriptor h file = do
  responses ← map_err rtnetlink (h.request (nsid_request file))
  ok (read_responses responses)

unfoldable pub id_by_file : Host → RawFd → Result IdError (Option NsId)
unfolding id_by_file_descriptor
id_by_file h file = id_by_file_descriptor h file

unfoldable pub id_by_path : Host → PathBuf → Result IdError (Option NsId)
unfolding id_by_file
id_by_path h filepath = do
  file ← map_err couldnt_open_netns (h.open_file filepath)
  id_by_file h file

unfoldable pub id_by_path_own_connection : Host → PathBuf → Result IdError (Option NsId)
unfolding id_by_path
id_by_path_own_connection h filepath = do
  _ ← map_err couldnt_open_netns h.new_connection
  id_by_path h filepath
