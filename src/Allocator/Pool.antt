-- ===== src/Allocator/Pool.antt =====
-- `AllocateIP` of internal/allocator/allocator.go: its answers and their reasons.
use go_dhcpd.Base.{
  ℕ, ◌+◌, ◌≤◌, ◌<◌, ◌≡◌, refl, sym, subst, ◌⊎◌, inl, inr, Bool, true, false, ◌&&◌, List, [], ◌∷◌,
  Option, none, some, arith, ltb, ◌==◌, length, keep, All, Bool-cases, Text, Result, ok, err,
}
use go_dhcpd.Net.{Ip, is_unspecified, to4}
use go_dhcpd.Net.Print.{parse_ip}
use go_dhcpd.Config.{SubnetConfig, DynamicRange, normalize_mac}
use go_dhcpd.Db.{Lease, holds, latest, get_lease_by_mac}
use go_dhcpd.Db.Rows.{UniqueIps}
use go_dhcpd.Db.Reads.{get_lease_by_mac-Reads}
use go_dhcpd.Allocator.{
  Env, Allocator, Answer, query, or_nil, static_ip, try_address, u32, to_uint32, of_uint32,
  find_between, find_available, or_next, in_ranges, in_subnets, after_request, allocate_new,
  after_lease, after_static, allocate_ip,
}
use go_dhcpd.Allocator.Scan.{Refused, here, next, Scanned, hit, miss, scan_range-Scanned}
use go_dhcpd.Allocator.Grants.{
  SameState, SameState-refl, SameState-trans, query-SameState, Passed, try_address-SameState,
  try_address-Passed,
}

abbrev SomeOf : {A : Type 0} → (A → Type 0) → List A → Type 0
SomeOf P [] = ⊥
SomeOf P (x ∷ xs) = P x ⊎ SomeOf P xs

-- The address with the number `n` lies in the range.
abbrev pub Covers : ℕ → DynamicRange → Type 0
Covers n r =
    (first : Ip) × (last : Ip) × (parse_ip r.start_address ≡ some first)
    × (parse_ip r.end_address ≡ some last)
    × (to_uint32 (to4 first) ≤ n)
    × (n ≤ to_uint32 (to4 last))

abbrev pub InPool : ℕ → List SubnetConfig → Type 0
InPool n = SomeOf (λ s. SomeOf (Covers n) s.dynamic_ranges)

-- The range does not end at 255.255.255.255.
abbrev pub BelowTop : DynamicRange → Type 0
BelowTop r = (last : Ip) → parse_ip r.end_address ≡ some last → to_uint32 (to4 last) + 1 < u32

-- Why a client is given an address: it is a static host, it has an active lease that has not ended,
-- it asked for an address that passes the tests, or an address of a dynamic range passes them.
pub data Granted (env : Env) (mac : Text) (requested : Option Ip) (a : Allocator)
    : Ip → Type 0 where
  static_grant : (ip : Ip) → static_ip env mac a.static ≡ some ip → Granted env mac requested a ip
  lease_grant :
      (l : Lease)
      → latest (keep (holds mac) a.db.leases) ≡ some l
      → env.now < l.lease_end
      → Granted env mac requested a (or_nil (parse_ip l.ip_address))
  request_grant :
      (ip : Ip) (b : Allocator)
      → requested ≡ some ip
      → is_unspecified ip ≡ false
      → SameState a b
      → Passed env ip mac b
      → Granted env mac requested a ip
  pool_grant :
      (n : ℕ) (b : Allocator)
      → InPool n a.subnets
      → SameState a b
      → Passed env (of_uint32 n) mac b
      → Granted env mac requested a (of_uint32 n)

-- An answer is there, it leaves the leases and the configuration alone, and any address in it is as
-- it should be.
pub data Served (P : Ip → Type 0) (a : Allocator) : Answer → Type 0 where
  served :
      (r : Result Ip) (b : Allocator)
      → SameState a b
      → ((ip : Ip) → r ≡ ok ip → P ip)
      → Served P a (some (r, b))

Served-map :
    {P Q : Ip → Type 0} {a : Allocator} {o : Answer}
    → ((ip : Ip) → P ip → Q ip)
    → Served P a o
    → Served Q a o
Served-map f (served r b s k) = served r b s (λ ip e. f ip (k ip e))

module _ (env : Env) (mac : Text) (a : Allocator) (u : UniqueIps a.db.leases) where
  Refused-SameState :
      {n m : ℕ} {b c : Allocator} → SameState a b → Refused env mac n b m c → SameState a c
  Refused-SameState s here = s
  Refused-SameState s (next {n = n} {a = b} e r) =
      Refused-SameState
        (SameState-trans s (try_address-SameState env (of_uint32 n) mac b (rw s.rows.leases u))) r

  -- The address with the number `n` was free when it was tried.
  pub FreeAt : ℕ → Type 0
  FreeAt n = (b : Allocator) × SameState a b × Passed env (of_uint32 n) mac b

  Within : ℕ → ℕ → Ip → Type 0
  Within lo hi ip = (n : ℕ) × (lo ≤ n) × (n ≤ hi) × (ip ≡ of_uint32 n) × FreeAt n

  Scanned-Served :
      (cur last : ℕ) (b : Allocator) (o : Answer)
      → SameState a b
      → Scanned env mac cur last b o
      → Served (Within cur last) a o
  unfolding Within FreeAt
  Scanned-Served cur last b o s (miss c r) = served _ c (Refused-SameState s r) (λ ip e. cc)
  Scanned-Served cur last b o s (hit n c lo hi r free) =
      let sc = Refused-SameState s r in
      let uc : UniqueIps c.db.leases = rw sc.rows.leases u in
      served _ _ (SameState-trans sc (try_address-SameState env (of_uint32 n) mac c uc))
        (λ ip e. (n, lo, hi, cc, (c, sc, try_address-Passed env (of_uint32 n) mac c uc free)))

  InRange : DynamicRange → Ip → Type 0
  InRange r ip = (n : ℕ) × (Covers n r) × (ip ≡ of_uint32 n) × FreeAt n

  Within-InRange :
      (r : DynamicRange) (first last : Ip)
      → parse_ip r.start_address ≡ some first
      → parse_ip r.end_address ≡ some last
      → (ip : Ip) → Within (to_uint32 (to4 first)) (to_uint32 (to4 last)) ip
      → InRange r ip
  unfolding Within InRange
  Within-InRange r first last e f ip (n, lo, hi, p, free) =
      (n, (first, last, e, f, lo, hi), p, free)

  find_between-Served :
      (fuel : ℕ) (r : DynamicRange) (b : Allocator)
      → u32 < fuel
      → SameState a b
      → (x y : Option Ip) → parse_ip r.start_address ≡ x
      → parse_ip r.end_address ≡ y
      → BelowTop r
      → Served (InRange r) a (find_between env fuel x y mac b)
  unfolding find_between
  find_between-Served fuel r b f s none y e g top = served _ b s (λ ip q. cc)
  find_between-Served fuel r b f s (some first) none e g top = served _ b s (λ ip q. cc)
  find_between-Served fuel r b f s (some first) (some last) e g top =
      elim (Bool-cases ((length (to4 first) == 4) && (length (to4 last) == 4))) [
        | inr bad ↦ rw bad (served _ b s (λ ip q. cc))
        | inl v4 ↦ elim (Bool-cases (ltb (to_uint32 (to4 last)) (to_uint32 (to4 first)))) [
          | inl empty ↦ rw (v4, empty) (served _ b s (λ ip q. cc))
          | inr full ↦
              rw (v4, full)
                (Served-map (Within-InRange r first last e g) (
                  Scanned-Served _ _ b _ s (
                    scan_range-Scanned env mac fuel (to_uint32 (to4 first)) (to_uint32 (to4 last)) b
                      (top last g) (ground arith) (ground (arith, top last g)))))
        ]
      ]

  -- An address of four bytes behind the prefix is not `nil`.
  or_next-Served :
      {P Q R : Ip → Type 0} (o : Answer) (k : Allocator → Answer)
      → Served P a o
      → ((ip : Ip) → P ip → R ip)
      → ((b : Allocator) → SameState a b → Served Q a (k b))
      → ((ip : Ip) → Q ip → R ip)
      → Served R a (or_next o k)
  or_next-Served _ k (served (err e) b s p) f h g = Served-map g (h b s)
  or_next-Served _ k (served (ok []) b s p) f h g = Served-map g (h b s)
  or_next-Served _ k (served (ok (x ∷ ip)) b s p) f h g =
      served (ok (x ∷ ip)) b s (λ j e. f j (p j e))

  InRanges : List DynamicRange → Ip → Type 0
  InRanges rs ip = (n : ℕ) × SomeOf (Covers n) rs × (ip ≡ of_uint32 n) × FreeAt n

  in_ranges-Served :
      (fuel : ℕ) (rs : List DynamicRange) (b : Allocator)
      → u32 < fuel
      → All BelowTop rs
      → SameState a b
      → Served (InRanges rs) a (in_ranges env fuel rs mac b)
  unfolding in_ranges find_available InRange InRanges
  in_ranges-Served fuel [] b f top s = served _ b s (λ ip e. cc)
  in_ranges-Served fuel (r ∷ rs) b f top s =
      or_next-Served {P = InRange r} {Q = InRanges rs} _ _
        (find_between-Served fuel r b f s _ _ refl refl top.0) (λ ip (n, c, e, k). (n, inl c, e, k))
        (λ c sc. in_ranges-Served fuel rs c f top.1 sc) (λ ip (n, c, e, k). (n, inr c, e, k))

  InSubnets : List SubnetConfig → Ip → Type 0
  InSubnets ss ip = (n : ℕ) × InPool n ss × (ip ≡ of_uint32 n) × FreeAt n

  in_subnets-Served :
      (fuel : ℕ) (ss : List SubnetConfig) (b : Allocator)
      → u32 < fuel
      → All (λ (s : SubnetConfig). All BelowTop s.dynamic_ranges) ss
      → SameState a b
      → Served (InSubnets ss) a (in_subnets env fuel ss mac b)
  unfolding in_subnets InRanges InSubnets
  in_subnets-Served fuel [] b f top s = served _ b s (λ ip e. cc)
  in_subnets-Served fuel (x ∷ ss) b f top s =
      or_next-Served {P = InRanges x.dynamic_ranges} {Q = InSubnets ss} _ _
        (in_ranges-Served fuel x.dynamic_ranges b f top.0 s) (λ ip (n, c, e, k). (n, inl c, e, k))
        (λ c sc. in_subnets-Served fuel ss c f top.1 sc) (λ ip (n, c, e, k). (n, inr c, e, k))

-- The static host, the lease, the request and the dynamic ranges, in this order.
module _ (env : Env) (mac : Text) (requested : Option Ip) (a : Allocator)
    (u : UniqueIps a.db.leases) where
  abbrev Grant : Ip → Type 0
  Grant = Granted env mac requested a

  from_pool :
      (fuel : ℕ) (b : Allocator)
      → u32 < fuel
      → All (λ (s : SubnetConfig). All BelowTop s.dynamic_ranges) a.subnets
      → SameState a b
      → Served Grant a (in_subnets env fuel b.subnets mac b)
  unfolding InSubnets FreeAt
  from_pool fuel b f top s =
      Served-map {P = InSubnets env mac a u a.subnets}
        (λ ip (n, c, e, k). subst Grant (sym e) (pool_grant n k.0 c k.1 k.2))
        (subst
          (λ (ss : List SubnetConfig).
            Served (InSubnets env mac a u a.subnets) a (in_subnets env fuel ss mac b))
          (sym s.subnets) (in_subnets-Served env mac a u fuel a.subnets b f top s))

  requested_or_pool :
      (fuel : ℕ)
      → u32 < fuel
      → All (λ (s : SubnetConfig). All BelowTop s.dynamic_ranges) a.subnets
      → (ip : Ip) → requested ≡ some ip
      → is_unspecified ip ≡ false
      → (r : Bool × Allocator) → SameState a r.1
      → (r.0 ≡ true → (b : Allocator) × SameState a b × Passed env ip mac b)
      → Served Grant a (after_request env fuel ip mac r)
  unfolding after_request
  requested_or_pool fuel f top ip e given (true, b) s k =
      let p = k refl in
      served _ b s (λ j q. subst Grant (cc) (request_grant ip p.0 e given p.1 p.2))
  requested_or_pool fuel f top ip e given (false, b) s k = from_pool fuel b f top s

  allocate_new-Served :
      (fuel : ℕ) (b : Allocator)
      → u32 < fuel
      → All (λ (s : SubnetConfig). All BelowTop s.dynamic_ranges) a.subnets
      → SameState a b
      → (req : Option Ip) → requested ≡ req
      → Served Grant a (allocate_new env fuel mac req b)
  unfolding allocate_new after_request
  allocate_new-Served fuel b f top s none e = from_pool fuel b f top s
  allocate_new-Served fuel b f top s (some ip) e = elim (Bool-cases (is_unspecified ip)) [
    | inl zero_ ↦ rw zero_ (from_pool fuel b f top s)
    | inr given ↦
        let ub : UniqueIps b.db.leases = rw s.rows.leases u in
        rw given (
          requested_or_pool fuel f top ip e given (try_address env ip mac b)
            (SameState-trans s (try_address-SameState env ip mac b ub))
            (λ h. (b, s, try_address-Passed env ip mac b ub h)))
  ]

  after_lease-Served :
      (fuel : ℕ)
      → u32 < fuel
      → All (λ (s : SubnetConfig). All BelowTop s.dynamic_ranges) a.subnets
      → (r : Result (Option Lease) × Allocator) → SameState a r.1
      → ((o : Option Lease) → r.0 ≡ ok o → o ≡ latest (keep (holds mac) a.db.leases))
      → Served Grant a (after_lease env fuel mac requested r)
  unfolding after_lease
  after_lease-Served fuel f top (err e, b) s k = served _ b s (λ ip q. cc)
  after_lease-Served fuel f top (ok none, b) s k = allocate_new-Served fuel b f top s requested refl
  after_lease-Served fuel f top (ok (some l), b) s k = elim (Bool-cases (ltb env.now l.lease_end)) [
    | inl live ↦ rw live (
        served _ b s
          (λ ip e. subst Grant (cc) (lease_grant l (sym (k (some l) refl)) (ground arith))))
    | inr over ↦ rw over (allocate_new-Served fuel b f top s requested refl)
  ]

  after_static-Served :
      (fuel : ℕ)
      → u32 < fuel
      → All (λ (s : SubnetConfig). All BelowTop s.dynamic_ranges) a.subnets
      → (o : Option Ip) → static_ip env mac a.static ≡ o
      → Served Grant a (after_static env fuel mac requested o a)
  unfolding after_static
  after_static-Served fuel f top (some ip) e =
      served _ a (SameState-refl a) (λ j q. subst Grant (cc) (static_grant ip e))
  after_static-Served fuel f top none e =
      let reads = get_lease_by_mac-Reads mac a.db in
      after_lease-Served fuel f top (query (get_lease_by_mac mac) a)
        (query-SameState (get_lease_by_mac mac) a reads.same) reads.answer

-- With unique addresses, `AllocateIP` always comes to an answer, an address or an error, if no dynamic range ends at
-- 255.255.255.255, whatever the database and the network do. It changes neither a lease nor the
-- configuration, and an address that it returns is the client's static one, that of its live lease,
-- the requested one or one of a dynamic range, the last two only if not denied, not leased to
-- another client, and silent to some ping.
pub allocate_ip-Served :
    (env : Env) (mac : Text) (requested : Option Ip) (a : Allocator) (fuel : ℕ)
    → UniqueIps a.db.leases
    → All (λ (s : SubnetConfig). All BelowTop s.dynamic_ranges) a.subnets
    → u32 < fuel
    → Served (Granted env (normalize_mac mac) requested a) a (allocate_ip env fuel mac requested a)
unfolding allocate_ip
allocate_ip-Served env mac requested a fuel u top f =
    after_static-Served env (normalize_mac mac) requested a u fuel f top _ refl
