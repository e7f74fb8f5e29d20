-- ===== src/Validate.antt =====
-- internal/sqlite3store/validate.go: what a subnet must pass before it is stored.
pub mod Usable
pub mod Mac
pub mod Canonical
use go_dhcpd.Base.{
  Bool, true, false, not, ◌||◌, List, [], ◌∷◌, Option, none, some, leb, ◌==◌, if◌then◌else◌, length,
  Text, is_empty, Result, ok, err, invalid,
}
use go_dhcpd.Net.{Ip, to4}
use go_dhcpd.Net.Print.{parse_ip}
use go_dhcpd.Config.{SubnetConfig, DynamicRange}

abbrev pub has_to4 : Option Ip → Bool
has_to4 none = false
has_to4 (some ip) = length (to4 ip) == 4

-- `isIPv4`
unfoldable pub is_ipv4 : Text → Bool
is_ipv4 t = has_to4 (parse_ip t)

-- `if ... { return error }`
abbrev pub require : Bool → Result (Unit {0})
require true = ok tt
require false = err invalid

infixr 5 ◌also◌
abbrev pub ◌also◌ : Result (Unit {0}) → Result (Unit {0}) → Result (Unit {0})
(ok u) also r = r
(err e) also r = err e

-- `validateIPv4List`
unfoldable pub validate_ipv4_list : List Text → Result (Unit {0})
validate_ipv4_list [] = ok tt
validate_ipv4_list (v ∷ vs) = require (is_ipv4 v) also validate_ipv4_list vs

-- The loop over the dynamic ranges.
unfoldable pub validate_ranges : List DynamicRange → Result (Unit {0})
validate_ranges [] = ok tt
validate_ranges (r ∷ rs) =
    require (is_ipv4 r.start_address) also require (is_ipv4 r.end_address) also validate_ranges rs

-- `ValidateSubnet`
unfoldable pub validate_subnet : SubnetConfig → Result (Unit {0})
validate_subnet s =
    require (not (is_empty s.network))
    also require (is_ipv4 s.network)
    also require (not (is_empty s.netmask))
    also require (is_ipv4 s.netmask)
    also validate_ranges s.dynamic_ranges
    also require (is_empty s.next_server || is_ipv4 s.next_server)
    also require (leb (length s.server_hostname) 63)
    also require (leb (length s.boot_filename) 127)
    also validate_ipv4_list s.domain_name_servers
    also validate_ipv4_list s.ntp_servers
    also validate_ipv4_list s.time_servers
    also validate_ipv4_list s.smtp_servers
    also validate_ipv4_list s.lpr_servers
    also validate_ipv4_list s.netbios_name_servers
    also validate_ipv4_list s.netbios_dd_servers
    also validate_ipv4_list s.routers
