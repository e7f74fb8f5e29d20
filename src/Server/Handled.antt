-- ===== src/Server/Handled.antt =====
-- `handlePacket` of internal/dhcp/server.go: the state before and after one packet.
use go_dhcpd.Base.{
  err, no_lease, ℕ, ◌<◌, ◌≡◌, refl, ap, ◌∙◌, ◌⊎◌, inl, inr, Bool, true, false, List, [], ◌∷◌, ◌++◌,
  Option, none, some, ◌==◌, if◌then◌else◌, Bool-cases, All, Bytes, Result,
}
use go_dhcpd.Net.{ipv4_zero}
use go_dhcpd.Config.{SubnetConfig, normalize_mac}
use go_dhcpd.Db.Rows.{UniqueIps, update_rows-UniqueIps}
use go_dhcpd.Packet.{Packet}
use go_dhcpd.Packet.Build.{get_message_type, mac_address_string}
use go_dhcpd.Packet.Build.Code
use go_dhcpd.Allocator.{Env, Allocator, u32, ended}
use go_dhcpd.Allocator.Grants.{SameState, SameState-refl}
use go_dhcpd.Allocator.Leases.{SameConfig, saved_rows-UniqueIps}
use go_dhcpd.Allocator.Ends.{Ends, failed, without, ended_lease, release_lease-Ends}
use go_dhcpd.Allocator.Pool.{BelowTop}
use go_dhcpd.Replies.{create_nak, create_ack}
use go_dhcpd.Replies.Kinds.{Answers, create_ack-Gives, create_nak-Refuses}
use go_dhcpd.Server.{
  Stats, Server, Datagram, datagram, with_allocator, count_error, inform_on, handle_discover,
  handle_request, handle_release, handle_decline, handle_inform, untyped, dispatch, on_type,
  handle_packet,
}
use go_dhcpd.Server.Sends.{Transmits, send_packet-Transmits, send_nak-Transmits, send_ack-Transmits}
use go_dhcpd.Server.Request.{
  Requested, ignored, refusal, grant, request_lease, handle_request-Requested,
}
use go_dhcpd.Server.Branches.{
  Discovered, no_offer, offered, handle_discover-Discovered, Booted, silent, replied, boot_lease,
  handle_bootp-Booted,
}

-- At most one datagram is sent, a reply to the packet; the addresses of the leases stay unique and
-- the configuration stays.
pub record Handled (p : Packet) (s s' : Server) : Type 0 where
  pub sent :
      (s'.sent ≡ s.sent)
      ⊎ ((reply : Packet) × Answers p reply × (s'.sent ≡ s.sent ++ ((datagram reply) ∷ [])))
  pub unique : UniqueIps s'.allocator.db.leases
  pub subnets : s'.allocator.subnets ≡ s.allocator.subnets
  pub static : s'.allocator.static ≡ s.allocator.static
  pub config : s'.config ≡ s.config
  pub server_ip : s'.server_ip ≡ s.server_ip

counted :
    {p : Packet} {s s' : Server} (st : Stats)
    → Handled p (record s { stats = st }) s'
    → Handled p s s'
counted st h = record {
  sent = h.sent;
  unique = h.unique;
  subnets = h.subnets;
  static = h.static;
  config = h.config;
  server_ip = h.server_ip;
}

module _ (env : Env) (p : Packet) (s : Server) (u : UniqueIps s.allocator.db.leases) where
  at_most :
      (reply : Packet) (xs : List Datagram)
      → Answers p reply
      → (xs ≡ s.sent) ⊎ (xs ≡ s.sent ++ ((datagram reply) ∷ []))
      → (xs ≡ s.sent) ⊎ ((q : Packet) × Answers p q × (xs ≡ s.sent ++ ((datagram q) ∷ [])))
  at_most reply xs a (inl e) = inl e
  at_most reply xs a (inr e) = inr (reply, a, e)

  still :
      (s' : Server)
      → s'.sent ≡ s.sent
      → SameState s.allocator s'.allocator
      → s'.config ≡ s.config
      → s'.server_ip ≡ s.server_ip
      → Handled p s s'
  still s' e h c i = record {
    sent = inl e;
    unique = rw h.rows.leases u;
    subnets = h.subnets;
    static = h.static;
    config = c;
    server_ip = i;
  }

  -- A packet that is sent from a state whose leases and configuration are as they should be.
  sends :
      (b : Allocator) (reply : Packet) (s' : Server)
      → UniqueIps b.db.leases
      → SameConfig s.allocator b
      → Answers p reply
      → Transmits reply (with_allocator b s) s'
      → Handled p s s'
  sends b reply s' ub k a t = record {
    sent = at_most reply s'.sent a t.sent;
    unique = rw t.allocator ub;
    subnets = ap (λ (x : Allocator). x.subnets) t.allocator ∙ k.subnets;
    static = ap (λ (x : Allocator). x.static) t.allocator ∙ k.static;
    config = t.config;
    server_ip = t.server_ip;
  }

  same_config : (b : Allocator) → SameState s.allocator b → SameConfig s.allocator b
  same_config b h = record { config = h.config; subnets = h.subnets; static = h.static }

  discovered : (s' : Server) → Discovered env p s s' → Handled p s s'
  discovered _ (no_offer b h) = still (with_allocator b s) refl h refl refl
  discovered _ (offered ip subnet offer s' g f a k h e c) = record {
    sent = at_most offer s'.sent a e;
    unique = rw h.rows.leases u;
    subnets = h.subnets;
    static = h.static;
    config = c.0;
    server_ip = c.1;
  }

  requested : (s' : Server) → Requested env p s s' → Handled p s s'
  requested _ (ignored f) = still s refl (SameState-refl s.allocator) refl refl
  requested _ (refusal b f h) =
      sends b (create_nak s.config s.server_ip p) _ (rw h.rows.leases u) (same_config b h)
        (create_nak-Refuses s.config s.server_ip p).answers
        (send_nak-Transmits p (with_allocator b s))
  requested _ (grant ip granted subnet b f w g same fs k e) =
      sends b (create_ack s.config s.server_ip p ip subnet) _
        (rw e (
          saved_rows-UniqueIps (request_lease env p ip s) s.allocator.db.next_lease
            s.allocator.db.leases u))
        k (create_ack-Gives s.config s.server_ip p ip subnet).0
        (send_ack-Transmits p ip subnet (with_allocator b s))

  booted : (s' : Server) → Booted env p s s' → Handled p s s'
  booted _ (silent b h) = still (with_allocator b s) refl h refl refl
  booted _ (replied ip subnet reply s' st f on b k e t c) = record {
    sent = at_most reply s'.sent b.answers t;
    unique = rw e (
        saved_rows-UniqueIps (boot_lease env p ip s) s.allocator.db.next_lease s.allocator.db.leases
          u);
    subnets = k.subnets;
    static = k.static;
    config = c.0;
    server_ip = c.1;
  }

  released :
      (r : Result (Unit {0}) × Allocator)
      → Ends env (normalize_mac (mac_address_string p)) (err no_lease) s.allocator r
      → Handled p s (with_allocator r.1 s)
  released _ (failed x b n h) = still (with_allocator b s) refl h refl refl
  released _ (without b n h) = still (with_allocator b s) refl h refl refl
  released _ (ended_lease l b e k w) = record {
    sent = inl refl;
    unique = rw w (update_rows-UniqueIps (ended env l) s.allocator.db.leases u);
    subnets = k.subnets;
    static = k.static;
    config = refl;
    server_ip = refl;
  }

  informed : (o : Option SubnetConfig) → Handled p s (inform_on p o s)
  informed none = still s refl (SameState-refl s.allocator) refl refl
  informed (some subnet) =
      let a = (create_ack-Gives s.config s.server_ip p p.ci_addr subnet).0 in
      sends s.allocator
        (record (create_ack s.config s.server_ip p p.ci_addr subnet) { yi_addr = ipv4_zero }) _ u
        (same_config s.allocator (SameState-refl s.allocator))
        (record {
          op_code = a.op_code;
          hw_type = a.hw_type;
          hw_len = a.hw_len;
          xid = a.xid;
          flags = a.flags;
          gi_addr = a.gi_addr;
          ch_addr = a.ch_addr;
        })
        (send_packet-Transmits _ s)

  bad : Handled p s (count_error s)
  bad = still (count_error s) refl (SameState-refl s.allocator) refl refl

  untyped-Handled : (o : Option Bytes) → Handled p s (untyped env p o s)
  untyped-Handled (some v) = bad
  untyped-Handled none = elim (Bool-cases (p.op_code == Code.boot_request)) [
    | inl boot ↦ rw boot (booted _ (handle_bootp-Booted env p s u))
    | inr other ↦ rw other bad
  ]

-- A step that ends in a state as it should be.
abbrev pub Steps : Packet → Server → Option Server → Type 0
Steps p s o = (s' : Server) × (o ≡ some s') × Handled p s s'

module _ (env : Env) (fuel : ℕ) (p : Packet) where
  Ready : Server → Type 0
  Ready s =
      UniqueIps s.allocator.db.leases
      × All (λ (t : SubnetConfig). All BelowTop t.dynamic_ranges) s.allocator.subnets
      × (u32 < fuel)

  on_discover :
      (s : Server) (st : Stats)
      → Ready s
      → Steps p s (handle_discover env fuel p (record s { stats = st }))
  unfolding Ready
  on_discover s st (u, top, f) =
      let (s', e, h) = handle_discover-Discovered env fuel p (record s { stats = st }) u top f in
      (s', e, counted st (discovered env p (record s { stats = st }) u s' h))

  on_request :
      (s : Server) (st : Stats)
      → Ready s
      → Steps p s (handle_request env fuel p (record s { stats = st }))
  unfolding Ready
  on_request s st (u, top, f) =
      let (s', e, h) = handle_request-Requested env fuel p (record s { stats = st }) u top f in
      (s', e, counted st (requested env p (record s { stats = st }) u s' h))

  on_release :
      (s : Server) (st : Stats)
      → Ready s
      → Handled p s (handle_release env p (record s { stats = st }))
  unfolding Ready handle_release
  on_release s st (u, top, f) = counted st (
      released env p (record s { stats = st }) u _
        (release_lease-Ends env (mac_address_string p) s.allocator))

  on_inform :
      (s : Server) (st : Stats) → Ready s → Handled p s (handle_inform p (record s { stats = st }))
  unfolding Ready handle_inform
  on_inform s st (u, top, f) = counted st (informed env p (record s { stats = st }) u _)

  on_decline :
      (s : Server) (st : Stats) → Ready s → Handled p s (handle_decline p (record s { stats = st }))
  unfolding Ready handle_decline
  on_decline s st (u, top, f) =
      counted st
        (still env p (record s { stats = st }) u _ refl (SameState-refl s.allocator) refl refl)

  if-Steps :
      (b : Bool) (s : Server) (o o' : Option Server)
      → Steps p s o
      → Steps p s o'
      → Steps p s (if b then o else o')
  if-Steps true s o o' h k = h
  if-Steps false s o o' h k = k

  dispatch-Handled : (t : ℕ) (s : Server) → Ready s → Steps p s (dispatch env fuel t p s)
  unfolding Ready
  dispatch-Handled t s r = if-Steps (t == Code.dhcp_discover) s _ _ (on_discover s _ r) (
      if-Steps (t == Code.dhcp_request) s _ _ (on_request s _ r) (
        if-Steps (t == Code.dhcp_release) s _ _ (_, refl, on_release s _ r)
          (if-Steps (t == Code.dhcp_decline) s _ _ (_, refl, on_decline s _ r)
            (if-Steps (t == Code.dhcp_inform) s _ _ (_, refl, on_inform s _ r)
              (s, refl, still env p s r.0 s refl (SameState-refl s.allocator) refl refl)))))

  on_type-Handled : (o : Option ℕ) (s : Server) → Ready s → Steps p s (on_type env fuel p o s)
  unfolding Ready
  on_type-Handled none s r = (_, refl, untyped-Handled env p s r.0 _)
  on_type-Handled (some t) s r = dispatch-Handled t s r

-- From unique addresses, and no dynamic range that ends at 255.255.255.255, `handlePacket` always
-- comes to an end, for any packet and whatever the database, the clock and
-- the network do: it sends at most one datagram, the bytes of a reply with the transaction id, the
-- flags, the relay and the hardware address of the packet, and keeps the addresses of the leases
-- unique and the configuration as it is.
pub handle_packet-Handled :
    (env : Env) (fuel : ℕ) (p : Packet) (s : Server)
    → UniqueIps s.allocator.db.leases
    → All (λ (t : SubnetConfig). All BelowTop t.dynamic_ranges) s.allocator.subnets
    → u32 < fuel
    → (s' : Server) × (handle_packet env fuel p s ≡ some s') × Handled p s s'
unfolding handle_packet Ready
handle_packet-Handled env fuel p s u top f =
    on_type-Handled env fuel p (get_message_type p) s (u, top, f)
