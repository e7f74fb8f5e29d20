-- ===== src/Allocator/Scan.antt =====
-- The loop of `findAvailableIPInRange` of internal/allocator/allocator.go.
use go_dhcpd.Base.{
  ℕ, zero, suc, ◌+◌, ◌-◌, ◌%◌, ◌≤◌, ◌<◌, ◌≡◌, refl, ◌∙◌, inl, inr, Bool, true, false, Option, none,
  some, arith, ltb, lt→ltb, le→ltb, Bool-cases, Text, pos_part, Result, ok, err, no_address,
}
use go_dhcpd.Net.{Ip}
use go_dhcpd.Net.Print.{ip_string}
use go_dhcpd.Allocator.{
  Env, Allocator, all_answered, is_ip_available, ping_check, then_ping, try_address, u32, of_uint32,
  scan_range,
}

module _ (env : Env) (mac : Text) where
  -- The tries at the addresses from one number up to another, all of them refused, and the states
  -- before and after.
  pub data Refused : ℕ → Allocator → ℕ → Allocator → Type 0 where
    here : {n : ℕ} {a : Allocator} → Refused n a n a
    next :
        {n m : ℕ} {a b : Allocator}
        → (try_address env (of_uint32 n) mac a).0 ≡ false
        → Refused (suc n) (try_address env (of_uint32 n) mac a).1 m b
        → Refused n a m b

  -- How a scan from `cur` to `last` ends.
  pub data Scanned (cur last : ℕ) (a : Allocator) : Option (Result Ip × Allocator) → Type 0 where
    hit :
        (n : ℕ) (b : Allocator)
        → cur ≤ n
        → n ≤ last
        → Refused cur a n b
        → (try_address env (of_uint32 n) mac b).0 ≡ true
        → Scanned cur last a (some (ok (of_uint32 n), (try_address env (of_uint32 n) mac b).1))
    miss :
        (b : Allocator) → Refused cur a (suc last) b → Scanned cur last a (some (err no_address, b))

  scan_past :
      (fuel cur last : ℕ) (a : Allocator)
      → last < cur
      → scan_range env (suc fuel) cur last mac a ≡ some (err no_address, a)
  unfolding scan_range
  scan_past fuel cur last a h = rw (lt→ltb last cur h, scan_range)

  scan_hit :
      (fuel cur last : ℕ) (a : Allocator)
      → cur ≤ last
      → (try_address env (of_uint32 cur) mac a).0 ≡ true
      → scan_range env (suc fuel) cur last mac a
        ≡ some (ok (of_uint32 cur), (try_address env (of_uint32 cur) mac a).1)
  unfolding scan_range
  scan_hit fuel cur last a h e = rw (le→ltb last cur h, e, scan_range)

  scan_next :
      (fuel cur last : ℕ) (a : Allocator)
      → cur ≤ last
      → (try_address env (of_uint32 cur) mac a).0 ≡ false
      → scan_range env (suc fuel) cur last mac a
        ≡ scan_range env fuel ((cur + 1) % u32) last mac (try_address env (of_uint32 cur) mac a).1
  unfolding scan_range
  scan_next fuel cur last a h e = rw (le→ltb last cur h, e, scan_range)

  Scanned-next :
      (cur last : ℕ) (a : Allocator)
      → (try_address env (of_uint32 cur) mac a).0 ≡ false
      → (r : Option (Result Ip × Allocator))
      → Scanned (suc cur) last (try_address env (of_uint32 cur) mac a).1 r
      → Scanned cur last a r
  Scanned-next cur last a e r (hit n b lo hi s t) = hit n b (omega arith) hi (next e s) t
  Scanned-next cur last a e r (miss b s) = miss b (next e s)

  -- A scan whose last address is below 255.255.255.255 ends within as many turns as the range has
  -- addresses, and one more; it returns the first address of the range, in increasing order, that
  -- is available and leaves some ping unanswered, or reports that all of them were refused.
  pub scan_range-Scanned :
      (fuel cur last : ℕ) (a : Allocator)
      → last + 1 < u32
      → cur ≤ last + 1
      → last + 1 < cur + fuel
      → Scanned cur last a (scan_range env fuel cur last mac a)
  scan_range-Scanned zero cur last a top lo f = absurd (omega arith)
  scan_range-Scanned (suc fuel) cur last a top lo f = elim (Bool-cases (ltb last cur)) [
    | inl past ↦
        let e : cur ≡ suc last = ground arith in
        rw (scan_past fuel cur last a (ground arith)) (miss a (rw e here))
    | inr within ↦ elim (Bool-cases (try_address env (of_uint32 cur) mac a).0) [
      | inl free ↦
          rw (scan_hit fuel cur last a (ground arith) free)
            (hit cur a (omega arith) (ground arith) here free)
      | inr taken ↦
          let e : (cur + 1) % u32 ≡ suc cur = ground arith in
          rw (scan_next fuel cur last a (ground arith) taken, e)
            (Scanned-next cur last a taken _ (
              scan_range-Scanned fuel (suc cur) last (try_address env (of_uint32 cur) mac a).1 top
                (ground arith) (omega arith)))
    ]
  ]

-- With an environment that answers every ping no address passes.
answered-all :
    (env : Env) (ip : Text) (tries i : ℕ)
    → ((s : Text) (k : ℕ) → env.answers s k ≡ true)
    → all_answered env ip tries i ≡ true
unfolding all_answered
answered-all env ip zero i h = refl
answered-all env ip (suc tries) i h = rw (h ip i) (answered-all env ip tries (i + 1) h)

refused-all :
    (env : Env) (ip : Ip) (mac : Text) (a : Allocator)
    → ((s : Text) (k : ℕ) → env.answers s k ≡ true)
    → (try_address env ip mac a).0 ≡ false
unfolding try_address ping_check
refused-all env ip mac a h = go (is_ip_available env ip mac a)
  where
    go : (r : Bool × Allocator) → (then_ping env ip r).0 ≡ false
    go (true, b) = rw (answered-all env (ip_string ip) (pos_part b.config.ping_retries) 0 h)
    go (false, b) = refl

-- A scan whose last address is 255.255.255.255 wraps round from there to 0.0.0.0, since the counter
-- is a 32-bit word that never passes it: where every address answers the ping, it never ends.
pub scan_range_endless :
    (env : Env) (fuel cur : ℕ) (mac : Text) (a : Allocator)
    → ((s : Text) (k : ℕ) → env.answers s k ≡ true)
    → cur < u32
    → scan_range env fuel cur (u32 - 1) mac a ≡ none
scan_range_endless env zero cur mac a h lt = unfold scan_range in refl
scan_range_endless env (suc fuel) cur mac a h lt =
    scan_next env mac fuel cur (u32 - 1) a (omega arith) (refused-all env (of_uint32 cur) mac a h)
    ∙ scan_range_endless env fuel ((cur + 1) % u32) mac _ h (omega arith)
