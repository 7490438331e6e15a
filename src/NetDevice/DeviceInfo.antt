-- ===== src/NetDevice/DeviceInfo.antt =====
-- `DeviceInfo` of src/net_device.rs and the types that it is made of. Nothing fills them yet: `all` is a
-- `todo!()`.
use net_device_mapping.Host.{INode, IoError}
use net_device_mapping.Path.{Str, PathBuf}
use net_device_mapping.Prelude.{ℕ, Bool, List, Option, Result, Outcome, panics}

pub record PeerRef : Type 0 where
  pub name : Str
  pub netns : INode

pub data Kind : Type 0 where
  ethernet wifi wwan ppp slip loopback : Kind
  veth : PeerRef → Kind
  bridge : List PeerRef → Kind
  bond : List PeerRef → Kind
  vlan : ℕ → PeerRef → Kind
  mac_vlan ip_vlan : PeerRef → Kind
  vxlan : ℕ → Kind
  tun tap gre wireguard : Kind
  other : Str → Kind

-- Arrays of bytes and addresses, as the list of their bytes.
abbrev pub Mac : Type 0
Mac = List ℕ

abbrev pub Ipv4Mask : Type 0
Ipv4Mask = List ℕ

abbrev pub Ipv6Mask : Type 0
Ipv6Mask = List ℕ

pub record DeviceInfo : Type 0 where
  pub kind : Kind
  pub name : Str
  pub mac_addr : Option Mac
  pub ipv4_addrs : List (List ℕ × Ipv4Mask)
  pub ipv6_addrs : List (List ℕ × Ipv6Mask)
  pub netns : INode
  pub is_up : Bool
  pub is_virtual : Bool

pub data Error : Type 0 where
  io : IoError → Error

unfoldable pub all : List PathBuf → Outcome (Result Error (List DeviceInfo))
all network_namespaces_files = panics
