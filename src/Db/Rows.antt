-- ===== src/Db/Rows.antt =====
-- The lease table of internal/db/db.go as a map from addresses to rows.
use go_dhcpd.Base.{
  ◌≡◌, refl, inl, inr, false, List, [], ◌∷◌, ◌++◌, map, Option, none, some, arith, if◌then◌else◌,
  keep, any, Bool-cases, Text, text_eq, text_eq_iff,
}
use go_dhcpd.Db.{Lease, has_ip, overwrite, update_rows, latest}

-- The first row with an address.
unfoldable pub row : Text → List Lease → Option Lease
row ip [] = none
row ip (l ∷ ls) = if has_ip ip l then some l else row ip ls

-- No two rows have the same address.
abbrev pub UniqueIps : List Lease → Type 0
UniqueIps [] = Unit
UniqueIps (l ∷ ls) = (row l.ip_address ls ≡ none) × UniqueIps ls

pub row-ip : (ip : Text) (ls : List Lease) (l : Lease) → row ip ls ≡ some l → l.ip_address ≡ ip
unfolding row
row-ip ip [] l h = cc
row-ip ip (m ∷ ls) l h = ground (arith, text_eq_iff m.ip_address ip, row-ip ip ls l)

pub any-row : (ip : Text) (ls : List Lease) → any (has_ip ip) ls ≡ false → row ip ls ≡ none
unfolding row
any-row ip [] h = refl
any-row ip (l ∷ ls) h = ground (arith, any-row ip ls)

pub row-any : (ip : Text) (ls : List Lease) → row ip ls ≡ none → any (has_ip ip) ls ≡ false
unfolding row
row-any ip [] h = refl
row-any ip (l ∷ ls) h = ground (arith, row-any ip ls)

pub row-append :
    (ip : Text) (ls : List Lease) (l : Lease)
    → row ip ls ≡ none
    → row ip (ls ++ (l ∷ [])) ≡ (if has_ip ip l then some l else none)
unfolding row
row-append ip [] l h = refl
row-append ip (m ∷ ls) l h = ground (arith, row-append ip ls l)

pub row-append_old :
    (ip : Text) (ls : List Lease) (l m : Lease)
    → row ip ls ≡ some m
    → row ip (ls ++ (l ∷ [])) ≡ some m
unfolding row
row-append_old ip [] l m h = cc
row-append_old ip (n ∷ ls) l m h = ground (arith, row-append_old ip ls l m)

abbrev pub update_row : Lease → Option Lease → Option Lease
update_row lease none = none
update_row lease (some m) = some (overwrite lease m)

-- An update rewrites the row with the address of the lease, and no other.
pub row-update_rows :
    (lease : Lease) (ip : Text) (ls : List Lease)
    → row ip (update_rows lease ls)
      ≡ (if text_eq lease.ip_address ip then update_row lease (row ip ls) else row ip ls)
unfolding row update_rows
row-update_rows lease ip [] = ground arith
row-update_rows lease ip (m ∷ ls) = ground (
  arith,
  row-update_rows lease ip ls,
  text_eq_iff m.ip_address lease.ip_address,
  text_eq_iff m.ip_address ip,
  text_eq_iff lease.ip_address ip,
)

row_cons_none :
    (ip : Text) (m : Lease) (ls : List Lease)
    → row ip (m ∷ ls) ≡ none
    → (has_ip m.ip_address (record m { ip_address = ip }) ≡ false) × (row ip ls ≡ none)
unfolding row
row_cons_none ip m ls h = ground (arith, text_eq_iff m.ip_address ip, text_eq_iff ip m.ip_address)

-- With unique addresses the `ORDER BY ... LIMIT 1` of `GetLeaseByIP` chooses nothing.
pub latest-keep_ip :
    (ip : Text) (ls : List Lease) → UniqueIps ls → latest (keep (has_ip ip) ls) ≡ row ip ls
unfolding row latest
latest-keep_ip ip [] u = refl
latest-keep_ip ip (l ∷ ls) u = elim (Bool-cases (has_ip ip l)) [
  | inl same ↦
      let e : l.ip_address ≡ ip = (text_eq_iff l.ip_address ip).0 same in
      let gone : row ip ls ≡ none = rw e at u.0 in rw (same, latest, latest-keep_ip ip ls u.1, gone)
  | inr other ↦ rw other (latest-keep_ip ip ls u.1)
]

row-map-none :
    (f : Lease → Lease) (ip : Text) (ls : List Lease)
    → ((l : Lease) → (f l).ip_address ≡ l.ip_address)
    → row ip ls ≡ none
    → row ip (map f ls) ≡ none
unfolding row
row-map-none f ip [] k h = refl
row-map-none f ip (l ∷ ls) k h = rw (k l) (ground (arith, row-map-none f ip ls k))

-- A map that keeps each address keeps the addresses unique.
pub UniqueIps-map :
    (f : Lease → Lease) (ls : List Lease)
    → ((l : Lease) → (f l).ip_address ≡ l.ip_address)
    → UniqueIps ls
    → UniqueIps (map f ls)
UniqueIps-map f [] k u = tt
UniqueIps-map f (l ∷ ls) k u =
    (rw (k l) (row-map-none f l.ip_address ls k u.0), UniqueIps-map f ls k u.1)

pub UniqueIps-append :
    (ls : List Lease) (l : Lease)
    → UniqueIps ls
    → row l.ip_address ls ≡ none
    → UniqueIps (ls ++ (l ∷ []))
UniqueIps-append [] l u h = (unfold row in refl, tt)
UniqueIps-append (m ∷ ls) l u h =
    let apart = row_cons_none l.ip_address m ls h in
    (rw apart.0 at (row-append m.ip_address ls l u.0), UniqueIps-append ls l u.1 apart.1)

pub update_rows-UniqueIps :
    (lease : Lease) (ls : List Lease) → UniqueIps ls → UniqueIps (update_rows lease ls)
unfolding update_rows
update_rows-UniqueIps lease ls u =
    UniqueIps-map _ ls
      (λ l. elim (Bool-cases (has_ip lease.ip_address l)) [ inl e ↦ rw e refl | inr e ↦ rw e refl ])
      u
