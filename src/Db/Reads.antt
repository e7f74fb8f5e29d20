-- ===== src/Db/Reads.antt =====
-- The statements of internal/db/db.go that only read, and the deny list, with any faults to come.
use go_dhcpd.Base.{
  ◌≡◌, refl, Bool, true, false, List, [], ◌∷◌, arith, ltb, length, keep, any, inl, inr, Bool-cases,
  Text, Result, ok, err, and_then, ◌>>=◌, ◌&&◌,
}
use go_dhcpd.Db.{
  Lease, DenyAddress, Database, gate, statement, has_ip, holds, denies_ip, latest, get_lease_by_ip,
  get_lease_by_mac, is_deny_address, add_deny_address, upsert_deny, Query, count, get_stats,
  is_active, is_expired,
}
use go_dhcpd.Db.Rows.{row, UniqueIps, latest-keep_ip}

-- The lease table and the sequence are as before.
pub record SameRows (d e : Database) : Type 0 where
  pub leases : e.leases ≡ d.leases
  pub next_lease : e.next_lease ≡ d.next_lease

-- What a read comes to.
pub record Reads {A : Type 0} (db : Database) (value : A) (r : Result A × Database) : Type 0 where
  pub same : SameRows db r.1
  pub denies : r.1.denies ≡ db.denies
  pub answer : (a : A) → r.0 ≡ ok a → a ≡ value

module _ {A : Type 0} (f : List Lease → List DenyAddress → A) where
  statement-Reads :
      (db : Database)
      → Reads db (f db.leases db.denies) (statement (λ d. (ok (f d.leases d.denies), d)) db)
  unfolding statement
  statement-Reads db = go db.faults
    where
      go :
          (fs : List Bool)
          → Reads db (f db.leases db.denies) (gate fs (λ d. (ok (f d.leases d.denies), d)) db)
      go [] = record {
        same = record { leases = refl; next_lease = refl };
        denies = refl;
        answer = λ a e. ground arith;
      }
      go (true ∷ rest) = record {
        same = record { leases = refl; next_lease = refl };
        denies = refl;
        answer = λ a e. cc;
      }
      go (false ∷ rest) = record {
        same = record { leases = refl; next_lease = refl };
        denies = refl;
        answer = λ a e. ground arith;
      }

pub is_deny_address-Reads :
    (ip : Text) (db : Database)
    → Reads db (ltb 0 (length (keep (denies_ip ip) db.denies))) (is_deny_address ip db)
unfolding is_deny_address
is_deny_address-Reads ip db =
    statement-Reads (λ _ denies. ltb 0 (length (keep (denies_ip ip) denies))) db

pub get_lease_by_ip-Reads :
    (ip : Text) (db : Database)
    → UniqueIps db.leases
    → Reads db (row ip db.leases) (get_lease_by_ip ip db)
unfolding get_lease_by_ip
get_lease_by_ip-Reads ip db u =
    rw (← latest-keep_ip ip db.leases u)
      (statement-Reads (λ leases _. latest (keep (has_ip ip) leases)) db)

pub get_lease_by_mac-Reads :
    (mac : Text) (db : Database)
    → Reads db (latest (keep (holds mac) db.leases)) (get_lease_by_mac mac db)
unfolding get_lease_by_mac
get_lease_by_mac-Reads mac db = statement-Reads (λ leases _. latest (keep (holds mac) leases)) db

upsert_deny-SameRows : (deny : DenyAddress) (db : Database) → SameRows db (upsert_deny deny db).1
unfolding upsert_deny
upsert_deny-SameRows deny db = elim (Bool-cases (any (denies_ip deny.ip_address) db.denies)) [
  | inl old ↦ rw old (record { leases = refl; next_lease = refl })
  | inr new ↦ rw new (record { leases = refl; next_lease = refl })
]

pub add_deny_address-SameRows :
    (deny : DenyAddress) (db : Database) → SameRows db (add_deny_address deny db).1
unfolding add_deny_address statement
add_deny_address-SameRows deny db = go db.faults
  where
    go : (fs : List Bool) → SameRows db (gate fs (upsert_deny deny) db).1
    go [] = upsert_deny-SameRows deny db
    go (true ∷ rest) = record { leases = refl; next_lease = refl }
    go (false ∷ rest) =
        let s = upsert_deny-SameRows deny (record db { faults = rest }) in
        record { leases = s.leases; next_lease = s.next_lease }

-- Neither table has changed.
pub record SameTables (d e : Database) : Type 0 where
  pub rows : SameRows d e
  pub denies : e.denies ≡ d.denies

pub SameTables-refl : (d : Database) → SameTables d d
SameTables-refl d = record { rows = record { leases = refl; next_lease = refl }; denies = refl }

-- An action that changes neither.
pub record IsRead {A : Type 0} (q : Query A) : Type 0 where
  pub keeps : (d e : Database) → SameTables d e → SameTables d (q e).1

bind-IsRead :
    {A B : Type 0} {m : Query A} {k : A → Query B}
    → IsRead m
    → ((a : A) → IsRead (k a))
    → IsRead (m >>= k)
bind-IsRead {A} {B} {m} {k} r next = record { keeps = λ d e s. go d (m e) (r.keeps d e s) }
  where
    go : (d : Database) (x : Result A × Database) → SameTables d x.1 → SameTables d (and_then k x).1
    go d (ok a, e) s = (next a).keeps d e s
    go d (err x, e) s = s

pure-IsRead : {A : Type 0} (a : A) → IsRead (λ (d : Database). (ok a, d))
pure-IsRead a = record { keeps = λ d e s. s }

read-SameTables :
    {A : Type 0} (f : Database → A) (d e : Database)
    → SameTables d e
    → SameTables d (statement (λ (c : Database). (ok (f c), c)) e).1
unfolding statement
read-SameTables f d e s = go e.faults
  where
    go : (fs : List Bool) → SameTables d (gate fs (λ (c : Database). (ok (f c), c)) e).1
    go [] = s
    go (true ∷ rest) = record {
      rows = record { leases = s.rows.leases; next_lease = s.rows.next_lease };
      denies = s.denies;
    }
    go (false ∷ rest) = record {
      rows = record { leases = s.rows.leases; next_lease = s.rows.next_lease };
      denies = s.denies;
    }

count-IsRead : {A : Type 0} (p : A → Bool) (rows : Database → List A) → IsRead (count p rows)
unfolding count
count-IsRead p rows = record { keeps = read-SameTables (λ c. length (keep p (rows c))) }

pub get_stats-IsRead : IsRead get_stats
unfolding get_stats
get_stats-IsRead =
    bind-IsRead (count-IsRead (λ (l : Lease). is_active l.state) (λ db. db.leases)) λ a.
      bind-IsRead (count-IsRead (λ (l : Lease). is_active l.state && l.is_static) (λ db. db.leases))
        λ b. bind-IsRead (count-IsRead (λ (l : Lease). is_expired l.state) (λ db. db.leases)) λ c.
          bind-IsRead (count-IsRead (λ (d : DenyAddress). true) (λ db. db.denies)) λ x.
            pure-IsRead (record {
              active_leases = a;
              static_leases = b;
              expired_leases = c;
              denied_addresses = x;
            })
