-- ===== src/Db.antt =====
-- internal/db/db.go: the two tables, and each method as the effect of its SQL statement. A statement
-- that SQLite refuses to run is a fault; `faults` says of the statements to come, in order, which
-- fail, and of those after its end that they run.
pub mod Rows
pub mod Invariant
pub mod Queries
pub mod Reads
use go_dhcpd.Base.{
  ℕ, zero, suc, ◌+◌, Bool, true, false, not, ◌&&◌, List, [], ◌∷◌, ◌++◌, map, Option, none, some,
  ltb, if◌then◌else◌, length, keep, any, sort_rows, Text, text_eq, text_le, Error, storage,
  constraint, Result, ok, err, Exec, pure, ◌>>=◌,
}

pub data LeaseState : Type 0 where
  active expired reserved : LeaseState

pub record Lease : Type 0 where
  pub id : ℕ
  pub mac_address : Text
  pub ip_address : Text
  pub hostname : Text
  pub lease_start : ℕ
  pub lease_end : ℕ
  pub state : LeaseState
  pub is_static : Bool

pub record DenyAddress : Type 0 where
  pub id : ℕ
  pub ip_address : Text
  pub mac_address : Text
  pub reason : Text
  pub detected_at : ℕ

pub record Database : Type 0 where
  pub leases : List Lease
  pub next_lease : ℕ
  pub denies : List DenyAddress
  pub next_deny : ℕ
  pub faults : List Bool

abbrev pub Query : Type 0 → Type 0
Query = Exec Database

unfoldable pub gate : {A : Type 0} → List Bool → Query A → Query A
gate [] q db = q db
gate (fails ∷ rest) q db =
    if fails then (err storage, record db { faults = rest }) else q (record db { faults = rest })

-- Runs one statement.
unfoldable pub statement : {A : Type 0} → Query A → Query A
unfolding gate
statement q db = gate db.faults q db

abbrev pub is_active : LeaseState → Bool
is_active active = true
is_active _ = false

abbrev pub is_expired : LeaseState → Bool
is_expired expired = true
is_expired _ = false

abbrev pub has_ip : Text → Lease → Bool
has_ip ip l = text_eq l.ip_address ip

abbrev pub holds : Text → Lease → Bool
holds mac l = text_eq l.mac_address mac && is_active l.state

-- `INSERT INTO leases`: the address is UNIQUE, the id the next of the sequence.
unfoldable pub insert_lease : Lease → Query ℕ
insert_lease lease db = if any (has_ip lease.ip_address) db.leases then (err constraint, db) else (
  ok db.next_lease,
  record db {
    leases = db.leases ++ ((record lease { id = db.next_lease }) ∷ []);
    next_lease = db.next_lease + 1;
  },
)

unfoldable pub add_lease : Lease → Query ℕ
add_lease lease = statement (insert_lease lease)

-- The columns that `UPDATE leases SET ...` writes; `is_static` is not among them.
abbrev pub overwrite : Lease → Lease → Lease
overwrite lease row = record row {
  mac_address = lease.mac_address;
  hostname = lease.hostname;
  lease_start = lease.lease_start;
  lease_end = lease.lease_end;
  state = lease.state;
}

unfoldable pub update_rows : Lease → List Lease → List Lease
update_rows lease = map (λ row. if has_ip lease.ip_address row then overwrite lease row else row)

unfoldable pub update_lease : Lease → Query (Unit {0})
update_lease lease = statement (λ db. (ok tt, record db { leases = update_rows lease db.leases }))

-- `ORDER BY lease_end DESC LIMIT 1`, on times as numbers: SQLite compares the text of the column, whose
-- order is that of the times as long as the daemon keeps to one offset from UTC.
unfoldable pub latest : List Lease → Option Lease
latest [] = none
latest (l ∷ ls) = elim (latest ls) [
  | none ↦ some l
  | some m ↦ if ltb l.lease_end m.lease_end then some m else some l
]

-- No row is `ok none`.
unfoldable pub get_lease_by_mac : Text → Query (Option Lease)
get_lease_by_mac mac = statement (λ db. (ok (latest (keep (holds mac) db.leases)), db))

unfoldable pub get_lease_by_ip : Text → Query (Option Lease)
get_lease_by_ip ip = statement (λ db. (ok (latest (keep (has_ip ip) db.leases)), db))

unfoldable pub get_all_leases : Query (List Lease)
unfolding sort_rows
get_all_leases = statement (λ db. (
  ok (
      sort_rows (λ r s. text_le r.ip_address s.ip_address)
        (keep (λ l. is_active l.state) db.leases)),
  db,
))

abbrev pub denies_ip : Text → DenyAddress → Bool
denies_ip ip d = text_eq d.ip_address ip

abbrev pub overwrite_deny : DenyAddress → DenyAddress → DenyAddress
overwrite_deny deny row = record row {
  mac_address = deny.mac_address;
  reason = deny.reason;
  detected_at = deny.detected_at;
}

-- `INSERT ... ON CONFLICT(ip_address) DO UPDATE`: either way an id of the sequence is used up.
unfoldable pub upsert_deny : DenyAddress → Query (Unit {0})
upsert_deny deny db =
    if any (denies_ip deny.ip_address) db.denies
    then (
      ok tt,
      record db {
        denies =
            map (λ row. if denies_ip deny.ip_address row then overwrite_deny deny row else row)
              db.denies;
        next_deny = db.next_deny + 1;
      },
    )
    else (
      ok tt,
      record db {
        denies = db.denies ++ ((record deny { id = db.next_deny }) ∷ []);
        next_deny = db.next_deny + 1;
      },
    )

unfoldable pub add_deny_address : DenyAddress → Query (Unit {0})
add_deny_address deny = statement (upsert_deny deny)

-- `SELECT COUNT(*) ... > 0`
unfoldable pub is_deny_address : Text → Query Bool
is_deny_address ip = statement (λ db. (ok (ltb 0 (length (keep (denies_ip ip) db.denies))), db))

unfoldable pub get_deny_addresses : Query (List DenyAddress)
unfolding sort_rows
get_deny_addresses =
    statement (λ db. (ok (sort_rows (λ r s. not (ltb r.detected_at s.detected_at)) db.denies), db))

abbrev pub is_due : ℕ → Lease → Bool
is_due now l = is_active l.state && ltb l.lease_end now && not l.is_static

unfoldable pub expire_rows : ℕ → List Lease → List Lease
expire_rows now = map (λ l. if is_due now l then record l { state = expired } else l)

unfoldable pub expire_leases : ℕ → Query (Unit {0})
expire_leases now = statement (λ db. (ok tt, record db { leases = expire_rows now db.leases }))

pub record DbStats : Type 0 where
  pub active_leases : ℕ
  pub static_leases : ℕ
  pub expired_leases : ℕ
  pub denied_addresses : ℕ

count : {A : Type 0} → (A → Bool) → (Database → List A) → Query ℕ
count p rows = statement (λ db. (ok (length (keep p (rows db))), db))

-- `GetStats`: four statements, one after the other.
unfoldable pub get_stats : Query DbStats
unfolding count
get_stats = do
  active_count ← count (λ l. is_active l.state) (λ db. db.leases)
  static_count ← count (λ l. is_active l.state && l.is_static) (λ db. db.leases)
  expired_count ← count (λ l. is_expired l.state) (λ db. db.leases)
  denied_count ← count (λ d. true) (λ db. db.denies)
  pure (record {
    active_leases = active_count;
    static_leases = static_count;
    expired_leases = expired_count;
    denied_addresses = denied_count;
  })
