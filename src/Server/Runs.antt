-- ===== src/Server/Runs.antt =====
-- Sequences of packets through `handlePacket` of internal/dhcp/server.go.
use go_dhcpd.Base.{
  ℕ, suc, ◌+◌, ◌≤◌, ◌<◌, ◌≡◌, refl, ap, ◌∙◌, inl, inr, List, [], ◌∷◌, some, arith, length,
  length-append, All, subst, sym,
}
use go_dhcpd.Config.{SubnetConfig}
use go_dhcpd.Db.Rows.{UniqueIps}
use go_dhcpd.Packet.{Packet}
use go_dhcpd.Allocator.{Env, u32}
use go_dhcpd.Allocator.Pool.{BelowTop}
use go_dhcpd.Server.{Server, datagram, then_step, run_packets}
use go_dhcpd.Server.Handled.{Handled, handle_packet-Handled}

-- What holds after any number of packets.
pub record Ran (n : ℕ) (s s' : Server) : Type 0 where
  pub unique : UniqueIps s'.allocator.db.leases
  pub subnets : s'.allocator.subnets ≡ s.allocator.subnets
  pub static : s'.allocator.static ≡ s.allocator.static
  pub config : s'.config ≡ s.config
  pub server_ip : s'.server_ip ≡ s.server_ip
  pub replies : length s'.sent ≤ length s.sent + n

one_reply : (p : Packet) (s s' : Server) → Handled p s s' → length s'.sent ≤ length s.sent + 1
one_reply p s s' h = elim h.sent [
  | inl e ↦ ground (arith, ap length e)
  | inr (q, a, e) ↦ ground (arith, ap length e ∙ length-append s.sent ((datagram q) ∷ []))
]

Ran-next : {n : ℕ} {p : Packet} {s t s' : Server} → Handled p s t → Ran n t s' → Ran (suc n) s s'
Ran-next {p = p} {s = s} {t = t} h r = record {
  unique = r.unique;
  subnets = r.subnets ∙ h.subnets;
  static = r.static ∙ h.static;
  config = r.config ∙ h.config;
  server_ip = r.server_ip ∙ h.server_ip;
  replies = omega (arith, r.replies, one_reply p s t h);
}

-- From a state with unique addresses, and no dynamic range that ends at 255.255.255.255, the daemon
-- handles any sequence of packets to its end, sends at most one datagram for each, and keeps the
-- addresses of the leases unique and the configuration as it is.
pub run_packets-Ran :
    (fuel : ℕ) (ps : List (Env × Packet)) (s : Server)
    → UniqueIps s.allocator.db.leases
    → All (λ (t : SubnetConfig). All BelowTop t.dynamic_ranges) s.allocator.subnets
    → u32 < fuel
    → (s' : Server) × (run_packets fuel ps s ≡ some s') × Ran (length ps) s s'
unfolding run_packets
run_packets-Ran fuel [] s u top f = (
  s,
  refl,
  record {
    unique = u;
    subnets = refl;
    static = refl;
    config = refl;
    server_ip = refl;
    replies = omega arith;
  },
)
run_packets-Ran fuel ((env, p) ∷ ps) s u top f =
    let (t, e, h) = handle_packet-Handled env fuel p s u top f in
    let (s', g, r) =
      run_packets-Ran fuel ps t h.unique
        (subst (All (λ (x : SubnetConfig). All BelowTop x.dynamic_ranges)) (sym h.subnets) top) f in
    (s', ap (λ o. then_step o (run_packets fuel ps)) e ∙ g, Ran-next h r)
