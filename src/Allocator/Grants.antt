-- ===== src/Allocator/Grants.antt =====
-- `isIPAvailable` and `pingCheck` of internal/allocator/allocator.go: what a pass of them means,
-- and the state before and after.
use go_dhcpd.Base.{
  ◌≡◌, refl, sym, ap, ◌∙◌, inl, inr, Bool, true, false, Option, ltb, length, keep, Bool-cases, Text,
  pos_part, Result, ok, err,
}
use go_dhcpd.Net.{Ip}
use go_dhcpd.Net.Print.{ip_string}
use go_dhcpd.Config.{normalize_mac}
use go_dhcpd.Db.{Lease, Query, denies_ip, is_deny_address, get_lease_by_ip, add_deny_address}
use go_dhcpd.Db.Rows.{row, UniqueIps}
use go_dhcpd.Db.Reads.{
  SameRows, is_deny_address-Reads, get_lease_by_ip-Reads, add_deny_address-SameRows,
}
use go_dhcpd.Allocator.{
  Env, Allocator, query, row_available, lease_allows, deny_allows, is_ip_available, all_answered,
  ping_check, squatter, then_ping, try_address,
}

-- What no allocation changes: the leases and the configuration.
pub record SameState (a b : Allocator) : Type 0 where
  pub rows : SameRows a.db b.db
  pub config : b.config ≡ a.config
  pub subnets : b.subnets ≡ a.subnets
  pub static : b.static ≡ a.static

pub SameState-refl : (a : Allocator) → SameState a a
SameState-refl a = record {
  rows = record { leases = refl; next_lease = refl };
  config = refl;
  subnets = refl;
  static = refl;
}

pub SameState-trans : {a b c : Allocator} → SameState a b → SameState b c → SameState a c
SameState-trans s t = record {
  rows = record {
    leases = t.rows.leases ∙ s.rows.leases;
    next_lease = t.rows.next_lease ∙ s.rows.next_lease;
  };
  config = t.config ∙ s.config;
  subnets = t.subnets ∙ s.subnets;
  static = t.static ∙ s.static;
}

-- Why an address passed both tests.
pub record Passed (env : Env) (ip : Ip) (mac : Text) (a : Allocator) : Type 0 where
  pub allowed : ltb 0 (length (keep (denies_ip (ip_string ip)) a.db.denies)) ≡ false
  pub free : row_available env (normalize_mac mac) (row (ip_string ip) a.db.leases) ≡ true
  pub silent : all_answered env (ip_string ip) (pos_part a.config.ping_retries) 0 ≡ false

pub query-SameState :
    {A : Type 0} (q : Query A) (a : Allocator)
    → SameRows a.db (q a.db).1
    → SameState a (query q a).1
query-SameState q a s = record { rows = s; config = refl; subnets = refl; static = refl }

module _ (env : Env) (ip : Ip) (mac : Text) (a : Allocator) (u : UniqueIps a.db.leases) where
  abbrev Free : Type 0
  Free = row_available env (normalize_mac mac) (row (ip_string ip) a.db.leases) ≡ true

  abbrev Allowed : Type 0
  Allowed = ltb 0 (length (keep (denies_ip (ip_string ip)) a.db.denies)) ≡ false

  -- The allocator after a test has the state of `a`, and a pass means what it should.
  record Tested (P : Type 0) (r : Bool × Allocator) : Type 0 where
    same : SameState a r.1
    passed : r.0 ≡ true → P

  lease_allows-Tested :
      (r : Result (Option Lease) × Allocator)
      → SameState a r.1
      → ((o : Option Lease) → r.0 ≡ ok o → o ≡ row (ip_string ip) a.db.leases)
      → Tested Free (lease_allows env (normalize_mac mac) r)
  unfolding lease_allows
  lease_allows-Tested (err e, b) s k = record { same = s; passed = λ h. cc }
  lease_allows-Tested (ok o, b) s k = record { same = s; passed = λ h. rw (← k o refl) h }

  after_deny :
      (b : Allocator)
      → SameState a b
      → Tested Free
          (lease_allows env (normalize_mac mac) (query (get_lease_by_ip (ip_string ip)) b))
  after_deny b s =
      let reads = get_lease_by_ip-Reads (ip_string ip) b.db (rw s.rows.leases u) in
      lease_allows-Tested _
        (SameState-trans s (query-SameState (get_lease_by_ip (ip_string ip)) b reads.same))
        (λ o e. reads.answer o e ∙ ap (row (ip_string ip)) s.rows.leases)

  deny_allows-Tested :
      (r : Result Bool × Allocator)
      → SameState a r.1
      → ((d : Bool) → r.0 ≡ ok d → d ≡ ltb 0 (length (keep (denies_ip (ip_string ip)) a.db.denies)))
      → Tested (Free × Allowed) (deny_allows env (ip_string ip) (normalize_mac mac) r)
  unfolding deny_allows
  deny_allows-Tested (err e, b) s k = record { same = s; passed = λ h. cc }
  deny_allows-Tested (ok true, b) s k = record { same = s; passed = λ h. cc }
  deny_allows-Tested (ok false, b) s k =
      let t = after_deny b s in
      record { same = t.same; passed = λ h. (t.passed h, sym (k false refl)) }

  available-Tested : Tested (Free × Allowed) (is_ip_available env ip mac a)
  unfolding is_ip_available
  available-Tested =
      let reads = is_deny_address-Reads (ip_string ip) a.db in
      deny_allows-Tested (query (is_deny_address (ip_string ip)) a)
        (query-SameState (is_deny_address (ip_string ip)) a reads.same) reads.answer

  ping_check-Tested :
      (b : Allocator)
      → SameState a b
      → Tested
          (all_answered env (ip_string ip) (pos_part a.config.ping_retries) 0 ≡ false)
          (ping_check env ip b)
  unfolding ping_check
  ping_check-Tested b s =
      elim (Bool-cases (all_answered env (ip_string ip) (pos_part b.config.ping_retries) 0)) [
        | inl used ↦ rw used (record {
          same = SameState-trans s (
              query-SameState (add_deny_address (squatter env ip)) b
                (add_deny_address-SameRows (squatter env ip) b.db));
          passed = λ h. cc;
        })
        | inr silent ↦ rw silent (record { same = s; passed = λ h. rw (← s.config) silent })
      ]

  then_ping-Tested :
      (r : Bool × Allocator)
      → Tested (Free × Allowed) r
      → Tested (Passed env ip mac a) (then_ping env ip r)
  unfolding then_ping
  then_ping-Tested (false, b) t = record { same = t.same; passed = λ h. cc }
  then_ping-Tested (true, b) t =
      let p = ping_check-Tested b t.same in
      let f = t.passed refl in
      record {
        same = p.same;
        passed = λ h. record { allowed = f.1; free = f.0; silent = p.passed h };
      }

  try_address-Tested : Tested (Passed env ip mac a) (try_address env ip mac a)
  unfolding try_address
  try_address-Tested = then_ping-Tested (is_ip_available env ip mac a) available-Tested

-- A try of an address changes neither the leases nor the configuration.
pub try_address-SameState :
    (env : Env) (ip : Ip) (mac : Text) (a : Allocator)
    → UniqueIps a.db.leases
    → SameState a (try_address env ip mac a).1
try_address-SameState env ip mac a u = (try_address-Tested env ip mac a u).same

pub try_address-Passed :
    (env : Env) (ip : Ip) (mac : Text) (a : Allocator)
    → UniqueIps a.db.leases
    → (try_address env ip mac a).0 ≡ true
    → Passed env ip mac a
try_address-Passed env ip mac a u h = (try_address-Tested env ip mac a u).passed h
