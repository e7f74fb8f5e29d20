-- ===== src/Store/Held.antt =====
-- internal/sqlite3store/store.go: the host that the rows of `static_hosts` hold for an address, and
-- what a statement does to it.
use go_dhcpd.Base.{
  Bool, true, false, not, List, [], ◌∷◌, ◌++◌, map, Option, none, some, ◌==◌, if◌then◌else◌, keep,
  any, length, Bool-cases, inl, inr, Text, text_eq, text_eq_iff, ◌≡◌, refl, arith,
}
use go_dhcpd.Config.{StaticHost}
use go_dhcpd.Store.Rows.{HostRow}
use go_dhcpd.Store.Hosts.{has_mac, scan_host, set_host}
use go_dhcpd.Store.Wrote.{string_or_empty-nullable_string}

-- The host that the rows hold for a MAC address as it is stored.
unfoldable pub held : List HostRow → Text → Option StaticHost
held [] mac = none
held (row ∷ rows) mac = if has_mac mac row then some (scan_host row) else held rows mac

abbrev pub is_some : Option StaticHost → Bool
is_some none = false
is_some (some h) = true

abbrev pub overlay :
    (Text → Option StaticHost) → Text → Option StaticHost → Text → Option StaticHost
overlay book k e mac = if text_eq k mac then e else book mac

pub held-any : (rows : List HostRow) (mac : Text) → is_some (held rows mac) ≡ any (has_mac mac) rows
unfolding held
held-any [] mac = refl
held-any (r ∷ rows) mac = ground (arith, held-any rows mac)

pub held-append :
    (rows : List HostRow) (r : HostRow) (mac : Text)
    → any (has_mac r.mac_address) rows ≡ false
    → held (rows ++ (r ∷ [])) mac ≡ overlay (held rows) r.mac_address (some (scan_host r)) mac
unfolding held
held-append [] r mac h = refl
held-append (q ∷ rows) r mac h = ground (
  arith,
  held-append rows r mac,
  text_eq_iff q.mac_address mac,
  text_eq_iff r.mac_address mac,
  text_eq_iff q.mac_address r.mac_address,
)

scan-set_host :
    (h : StaticHost) (q : HostRow) (k : Text)
    → q.mac_address ≡ k
    → scan_host (set_host h q) ≡ record h { mac_address = k }
scan-set_host h q k e i = record {
  mac_address = e i;
  ip_address = h.ip_address;
  hostname = string_or_empty-nullable_string h.hostname i;
}

pub held-update :
    (h : StaticHost) (rows : List HostRow) (k mac : Text)
    → held (map (λ row. if has_mac k row then set_host h row else row) rows) mac ≡ (
        if text_eq k mac
        then (if any (has_mac k) rows then some (record h { mac_address = k }) else none)
        else held rows mac)
unfolding held
held-update h [] k mac = ground arith
held-update h (q ∷ rows) k mac = elim (Bool-cases (has_mac k q)) [
  | inl e ↦
      let same : q.mac_address ≡ k = (text_eq_iff q.mac_address k).0 e in
      rw e (
        ground (
          arith,
          scan-set_host h q k same,
          held-update h rows k mac,
          text_eq_iff q.mac_address mac,
          text_eq_iff k mac,
        ))
  | inr e ↦ rw e (
      ground (
        arith,
        held-update h rows k mac,
        text_eq_iff q.mac_address mac,
        text_eq_iff q.mac_address k,
        text_eq_iff k mac,
      ))
]

pub held-delete :
    (rows : List HostRow) (k mac : Text)
    → held (keep (λ row. not (has_mac k row)) rows) mac ≡ overlay (held rows) k none mac
unfolding held
held-delete [] k mac = ground arith
held-delete (q ∷ rows) k mac = elim (Bool-cases (has_mac k q)) [
  | inl e ↦ rw e (
      ground (
        arith,
        held-delete rows k mac,
        text_eq_iff q.mac_address k,
        text_eq_iff q.mac_address mac,
        text_eq_iff k mac,
      ))
  | inr e ↦ rw e (
      ground (
        arith,
        held-delete rows k mac,
        text_eq_iff q.mac_address k,
        text_eq_iff q.mac_address mac,
        text_eq_iff k mac,
      ))
]

pub count_zero :
    (rows : List HostRow) (k : Text)
    → (length (keep (has_mac k) rows) == 0) ≡ not (any (has_mac k) rows)
count_zero [] k = refl
count_zero (q ∷ rows) k = elim (Bool-cases (has_mac k q)) [
  | inl e ↦ rw e (ground arith)
  | inr e ↦ rw e (count_zero rows k)
]
