-- ===== src/Store/Book.antt =====
-- internal/sqlite3store/store.go: the static hosts as a map from MAC addresses.
use mathlib.Core.Path.{fun_ext}
use go_dhcpd.Base.{
  ℕ, Bool, true, false, not, List, Option, none, some, ◌==◌, if◌then◌else◌, keep, any, length,
  Bool-cases, inl, inr, Text, text_eq, text_eq_iff, Result, ok, err, and_then, ◌≡◌, refl, sym, ap,
  ◌∙◌, arith,
}
use go_dhcpd.Config.{StaticHost, normalize_mac}
use go_dhcpd.Store.Rows.{HostRow, Content, SqlDb, Query}
use go_dhcpd.Store.Subnets.{nullable_string, require_rows}
use go_dhcpd.Store.Hosts.{
  has_mac, scan_host, insert_host, update_host, delete_hosts, insert_static_host,
  update_static_host, delete_static_host,
}
use go_dhcpd.Store.Held.{
  held, is_some, overlay, held-any, held-append, held-update, held-delete, count_zero,
}
use go_dhcpd.Store.Effects.{statement-cases}
use go_dhcpd.Store.Wrote.{string_or_empty-nullable_string}

pub data HostChange : Type 0 where
  add : StaticHost → HostChange
  replace : StaticHost → HostChange
  remove : Text → HostChange

abbrev key : HostChange → Text
key (add h) = normalize_mac h.mac_address
key (replace h) = normalize_mac h.mac_address
key (remove mac) = normalize_mac mac

-- What the map is to hold for the key.
abbrev entry : HostChange → Option StaticHost
entry (add h) = some (record h { mac_address = normalize_mac h.mac_address })
entry (replace h) = some (record h { mac_address = normalize_mac h.mac_address })
entry (remove mac) = none

-- Whether the key is to be there before.
abbrev wants : HostChange → Bool
wants (add h) = false
wants (replace h) = true
wants (remove mac) = true

unfoldable pub perform_host : HostChange → Query (Unit {0})
unfolding insert_static_host update_static_host delete_static_host
perform_host (add h) = insert_static_host h
perform_host (replace h) = update_static_host h
perform_host (remove mac) = delete_static_host mac

abbrev pub Entered : HostChange → List HostRow → Result (Unit {0}) × SqlDb → Type 0
Entered ch before (ok u, db) =
    (is_some (held before (key ch)) ≡ wants ch)
    × (held db.content.hosts ≡ overlay (held before) (key ch) (entry ch))
Entered ch before (err e, db) = held db.content.hosts ≡ held before

add-Entered :
    (h : StaticHost) (db : SqlDb) → Entered (add h) db.content.hosts (insert_static_host h db)
unfolding insert_static_host
add-Entered h db =
    statement-cases ⊥ (Entered (add h) rows) (insert_host k h) db (λ u. absurd u)
      (λ fs _.
        unfold insert_host in
        elim (Bool-cases (any (has_mac k) rows)) [
          | inl known ↦ rw known refl
          | inr new ↦ rw new (
            held-any rows k ∙ new,
            fun_ext λ mac.
                held-append rows row mac new
                ∙ ap (λ (e : StaticHost). overlay (held rows) k (some e) mac) stored,
          )
        ])
      (λ db' same _. ap (λ (c : Content). held c.hosts) same)
  where
    k : Text
    k = normalize_mac h.mac_address

    rows : List HostRow
    rows = db.content.hosts

    row : HostRow
    row = record {
      id = db.content.next_host;
      mac_address = k;
      ip_address = h.ip_address;
      hostname = nullable_string h.hostname;
    }

    stored : scan_host row ≡ record h { mac_address = k }
    stored i = record {
      mac_address = k;
      ip_address = h.ip_address;
      hostname = string_or_empty-nullable_string h.hostname i;
    }

-- What follows the statement of an update or a deletion.
require_rows-Entered :
    (ch : HostChange) (before : List HostRow) (c : Content) (n : ℕ) (fs : List Bool)
    → (n == 0) ≡ not (any (has_mac (key ch)) before)
    → wants ch ≡ true
    → ((mac : Text)
        → held c.hosts mac ≡ (
            if text_eq (key ch) mac
            then (if any (has_mac (key ch)) before then entry ch else none)
            else held before mac))
    → Entered ch before (require_rows n (record { content = c; faults = fs }))
unfolding require_rows
require_rows-Entered ch before c n fs count want after =
    elim (Bool-cases (any (has_mac (key ch)) before)) [
      | inl known ↦ rw (count ∙ ap not known) (
        held-any before (key ch) ∙ known ∙ sym want,
        fun_ext λ mac. after mac ∙ ap (picked mac) known,
      )
      | inr unknown ↦
          rw (count ∙ ap not unknown)
            (fun_ext λ mac. after mac ∙ ap (picked mac) unknown ∙ absent unknown mac)
    ]
  where
    picked : Text → Bool → Option StaticHost
    picked mac b = if text_eq (key ch) mac then (if b then entry ch else none) else held before mac

    absent :
        any (has_mac (key ch)) before ≡ false → (mac : Text) → picked mac false ≡ held before mac
    absent unknown mac = elim (Bool-cases (text_eq (key ch) mac)) [
      | inl e ↦
          let same : key ch ≡ mac = (text_eq_iff (key ch) mac).0 e in
          let empty : is_some (held before mac) ≡ false =
            held-any before mac ∙ ap (λ k. any (has_mac k) before) (sym same) ∙ unknown in
          rw e (ground arith)
      | inr e ↦ rw e refl
    ]

replace-Entered :
    (h : StaticHost) (db : SqlDb) → Entered (replace h) db.content.hosts (update_static_host h db)
unfolding update_static_host
replace-Entered h db =
    statement-cases ⊥ (λ r. Entered (replace h) rows (and_then require_rows r)) (update_host k h) db
      (λ u. absurd u)
      (λ fs _.
        unfold update_host in
        require_rows-Entered (replace h) rows _ (length (keep (has_mac k) rows)) fs
          (count_zero rows k) refl (held-update h rows k))
      (λ db' same _. ap (λ (c : Content). held c.hosts) same)
  where
    k : Text
    k = normalize_mac h.mac_address

    rows : List HostRow
    rows = db.content.hosts

remove-Entered :
    (mac : Text) (db : SqlDb) → Entered (remove mac) db.content.hosts (delete_static_host mac db)
unfolding delete_static_host
remove-Entered mac db =
    statement-cases ⊥ (λ r. Entered (remove mac) rows (and_then require_rows r)) (delete_hosts k) db
      (λ u. absurd u)
      (λ fs _.
        unfold delete_hosts in
        require_rows-Entered (remove mac) rows _ (length (keep (has_mac k) rows)) fs
          (count_zero rows k) refl (λ m. held-delete rows k m ∙ either m))
      (λ db' same _. ap (λ (c : Content). held c.hosts) same)
  where
    k : Text
    k = normalize_mac mac

    rows : List HostRow
    rows = db.content.hosts

    either :
        (m : Text)
        → overlay (held rows) k none m
          ≡ (if text_eq k m then (if any (has_mac k) rows then none else none) else held rows m)
    either m = ground arith

-- With its statement failing or not, a change of the static hosts, whose key is the normalized MAC
-- address, either succeeds, and then the key was unknown to an insertion and known to an update or a
-- deletion, and the map from MAC addresses to hosts holds for the key the new host with its
-- normalized address, or after a deletion nothing, and for every other address what it held; or it
-- fails, and the map is as it was.
pub perform_host-Entered :
    (ch : HostChange) (db : SqlDb) → Entered ch db.content.hosts (perform_host ch db)
unfolding perform_host
perform_host-Entered (add h) db = add-Entered h db
perform_host-Entered (replace h) db = replace-Entered h db
perform_host-Entered (remove mac) db = remove-Entered mac db
