-- ===== src/Store/Hosts.antt =====
-- internal/sqlite3store/store.go: the static hosts, keyed by the normalized MAC address.
use go_dhcpd.Base.{
  ℕ, ◌+◌, Bool, not, List, [], ◌∷◌, ◌++◌, map, if◌then◌else◌, length, keep, any, sort_rows, Text,
  text_eq, text_le, constraint, ok, err, ◌>>=◌,
}
use go_dhcpd.Config.{StaticHost, normalize_mac}
use go_dhcpd.Store.Rows.{HostRow, Query, Statement, statement}
use go_dhcpd.Store.Subnets.{nullable_string, string_or_empty, require_rows}

abbrev pub has_mac : Text → HostRow → Bool
has_mac mac row = text_eq row.mac_address mac

abbrev pub scan_host : HostRow → StaticHost
scan_host row = record {
  mac_address = row.mac_address;
  ip_address = row.ip_address;
  hostname = string_or_empty row.hostname;
}

abbrev pub mac_le : HostRow → HostRow → Bool
mac_le r s = text_le r.mac_address s.mac_address

-- `GetStaticHosts`
unfoldable pub get_static_hosts : Query (List StaticHost)
unfolding statement
get_static_hosts = statement (λ c. (ok (map scan_host (sort_rows mac_le c.hosts)), c))

unfoldable pub insert_host : Text → StaticHost → Statement (Unit {0})
insert_host mac h c = if any (has_mac mac) c.hosts then (err constraint, c) else (
  ok tt,
  record c {
    hosts =
        c.hosts
        ++ ((record {
          id = c.next_host;
          mac_address = mac;
          ip_address = h.ip_address;
          hostname = nullable_string h.hostname;
        })
            ∷ []);
    next_host = c.next_host + 1;
  },
)

-- `InsertStaticHost`
unfoldable pub insert_static_host : StaticHost → Query (Unit {0})
unfolding insert_host statement
insert_static_host h = statement (insert_host (normalize_mac h.mac_address) h)

abbrev pub set_host : StaticHost → HostRow → HostRow
set_host h row = record row { ip_address = h.ip_address; hostname = nullable_string h.hostname }

unfoldable pub update_host : Text → StaticHost → Statement ℕ
update_host mac h c = (
  ok (length (keep (has_mac mac) c.hosts)),
  record c { hosts = map (λ row. if has_mac mac row then set_host h row else row) c.hosts },
)

-- `UpdateStaticHost`
unfoldable pub update_static_host : StaticHost → Query (Unit {0})
unfolding update_host require_rows statement
update_static_host h = statement (update_host (normalize_mac h.mac_address) h) >>= require_rows

unfoldable pub delete_hosts : Text → Statement ℕ
delete_hosts mac c = (
  ok (length (keep (has_mac mac) c.hosts)),
  record c { hosts = keep (λ row. not (has_mac mac row)) c.hosts },
)

-- `DeleteStaticHost`
unfoldable pub delete_static_host : Text → Query (Unit {0})
unfolding delete_hosts require_rows statement
delete_static_host mac = statement (delete_hosts (normalize_mac mac)) >>= require_rows
