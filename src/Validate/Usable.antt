-- ===== src/Validate/Usable.antt =====
-- `ValidateSubnet` of internal/sqlite3store/validate.go and the replies made from a subnet.
use go_dhcpd.Base.{◌<◌, ◌≡◌, List, [], ◌∷◌, some, ◌++◌, length, take, Text, Bytes}
use go_dhcpd.Net.{Ip, to4}
use go_dhcpd.Net.Print.{parse_ip}
use go_dhcpd.Config.{SubnetConfig}
use go_dhcpd.Packet.{Packet}
use go_dhcpd.Packet.Build.{address_list, set_server_hostname, set_boot_filename}
use go_dhcpd.Replies.{parse_ips}

-- The text is an IPv4 address.
abbrev pub IsV4 : Text → Type 0
IsV4 t = (ip : Ip) × (parse_ip t ≡ some ip) × (length (to4 ip) ≡ 4)

-- The bytes are those of the addresses, four for each, in order.
pub data Joins : List Text → Bytes → Type 0 where
  no_address : Joins [] []
  next_address :
      (t : Text) (ip : Ip) (ts : List Text) (bs : Bytes)
      → parse_ip t ≡ some ip
      → length (to4 ip) ≡ 4
      → Joins ts bs
      → Joins (t ∷ ts) (to4 ip ++ bs)

-- What the setters make of the list.
abbrev pub AllSet : List Text → Type 0
AllSet ts = Joins ts (address_list (parse_ips ts))

-- A field of the header holds the whole text, with room for the zero byte behind it.
abbrev pub Holds : Text → Bytes → Type 0
Holds name field = (take (length name) field ≡ name) × (length name < length field)

pub record IsUsable (s : SubnetConfig) : Type 0 where
  pub network : IsV4 s.network
  pub netmask : IsV4 s.netmask
  pub server_hostname :
      (p : Packet) → Holds s.server_hostname (set_server_hostname p s.server_hostname).s_name
  pub boot_filename :
      (p : Packet) → Holds s.boot_filename (set_boot_filename p s.boot_filename).file
  pub domain_name_servers : AllSet s.domain_name_servers
  pub ntp_servers : AllSet s.ntp_servers
  pub time_servers : AllSet s.time_servers
  pub smtp_servers : AllSet s.smtp_servers
  pub lpr_servers : AllSet s.lpr_servers
  pub netbios_name_servers : AllSet s.netbios_name_servers
  pub netbios_dd_servers : AllSet s.netbios_dd_servers
  pub routers : AllSet s.routers
