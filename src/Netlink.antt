-- ===== src/Netlink.antt =====
-- The rtnetlink messages about network namespace ids, as far as netns.rs and nsid_monitor.rs read
-- them. The rtnetlink crate itself is not modelled: what it receives is input.
use net_device_mapping.Prelude.{ℕ, ◌-◌, ◌%◌, ◌^◌, Bool, true, false, List}

-- An i32: `negsuc n` is -(n + 1).
pub data ℤ : Type 0 where
  pos : ℕ → ℤ
  negsuc : ℕ → ℤ

abbrev pub is_nonnegative : ℤ → Bool
is_nonnegative (pos n) = true
is_nonnegative (negsuc n) = false

-- `id as u32`: the bit pattern is kept.
unfoldable pub as_u32 : ℤ → ℕ
as_u32 (pos n) = n % 2 ^ 32
as_u32 (negsuc n) = 2 ^ 32 - 1 - n % 2 ^ 32

pub data NsidAttribute : Type 0 where
  id : ℤ → NsidAttribute
  current_nsid : ℤ → NsidAttribute
  fd : ℕ → NsidAttribute
  other_attribute : NsidAttribute

pub data RouteNetlinkMessage : Type 0 where
  get_nsid : List NsidAttribute → RouteNetlinkMessage
  new_nsid : List NsidAttribute → RouteNetlinkMessage
  del_nsid : List NsidAttribute → RouteNetlinkMessage
  other_message : RouteNetlinkMessage

pub data NetlinkPayload : Type 0 where
  inner_message : RouteNetlinkMessage → NetlinkPayload
  other_payload : NetlinkPayload

-- `message.header.family`.
pub data AddressFamily : Type 0 where
  unspec other_family : AddressFamily

pub record NetlinkRequest : Type 0 where
  pub flags : ℕ
  pub family : AddressFamily
  pub payload : NetlinkPayload

abbrev pub nlm_f_request : ℕ
nlm_f_request = 1
