-- ===== src/Server/Branches.antt =====
-- `handleDiscover` and `handleBootP` of internal/dhcp/server.go, branch by branch.
use go_dhcpd.Base.{
  ℕ, ◌<◌, ◌≡◌, refl, sym, ap, subst, ◌∙◌, ◌⊎◌, inl, inr, Bool, true, false, [], ◌∷◌, Option, none,
  some, if◌then◌else◌, Bool-cases, All, Result, ok, err, uint32, ◌++◌,
}
use go_dhcpd.Net.{Ip}
use go_dhcpd.Config.{SubnetConfig, normalize_mac}
use go_dhcpd.Db.{Lease}
use go_dhcpd.Db.Rows.{row, UniqueIps}
use go_dhcpd.Packet.{Packet}
use go_dhcpd.Packet.Build.{get_requested_ip, mac_address_string}
use go_dhcpd.Packet.Build.Code
use go_dhcpd.Allocator.{Env, Allocator, Answer, u32, new_lease, create_lease, static_ip_for_mac}
use go_dhcpd.Allocator.Grants.{SameState, SameState-refl}
use go_dhcpd.Allocator.Leases.{SameConfig, Saves, refused, written, save_lease-Saves, saved_rows}
use go_dhcpd.Allocator.Pool.{BelowTop, Granted, Served, served, allocate_ip-Served}
use go_dhcpd.Replies.{create_offer, create_boot_reply}
use go_dhcpd.Replies.Kinds.{Answers, Gives, Boots, create_offer-Gives, create_boot_reply-Boots}
use go_dhcpd.Server.{
  Server, datagram, find_subnet_for_ip, get_hostname, with_allocator, send_offer, after_discover,
  handle_discover, after_boot_lease, boot_on, boot_at, handle_bootp,
}
use go_dhcpd.Server.Sends.{send_packet-Transmits}

-- A DISCOVER: no lease is changed, and an OFFER is of an address that was granted, on a subnet.
pub data Discovered (env : Env) (p : Packet) (s : Server) : Server → Type 0 where
  no_offer : (a : Allocator) → SameState s.allocator a → Discovered env p s (with_allocator a s)
  offered :
      (ip : Ip) (subnet : SubnetConfig) (offer : Packet) (s' : Server)
      → Granted env (normalize_mac (mac_address_string p)) (get_requested_ip p) s.allocator ip
      → find_subnet_for_ip s.allocator.subnets ip ≡ some subnet
      → Answers p offer
      → Gives Code.dhcp_offer s.server_ip ip (uint32 s.config.lease_time) offer
      → SameState s.allocator s'.allocator
      → (s'.sent ≡ s.sent) ⊎ (s'.sent ≡ s.sent ++ ((datagram offer) ∷ []))
      → (s'.config ≡ s.config) × (s'.server_ip ≡ s.server_ip)
      → Discovered env p s s'

module _ (env : Env) (p : Packet) (s : Server) where
  send_offer-Discovered :
      (ip : Ip) (b : Allocator) (o : Option SubnetConfig)
      → SameState s.allocator b
      → Granted env (normalize_mac (mac_address_string p)) (get_requested_ip p) s.allocator ip
      → find_subnet_for_ip s.allocator.subnets ip ≡ o
      → Discovered env p s (send_offer p ip o (with_allocator b s))
  send_offer-Discovered ip b none h g f = no_offer b h
  send_offer-Discovered ip b (some subnet) h g f =
      let offer = create_offer s.config s.server_ip p ip subnet in
      let t = send_packet-Transmits offer (with_allocator b s) in
      let k = create_offer-Gives s.config s.server_ip p ip subnet in
      offered ip subnet offer _ g f k.0 k.1 (subst (SameState s.allocator) (sym t.allocator) h)
        t.sent (t.config, t.server_ip)

  after_discover-Discovered :
      (o : Answer)
      → Served
          (Granted env (normalize_mac (mac_address_string p)) (get_requested_ip p) s.allocator)
          s.allocator
          o
      → (s' : Server) × (after_discover p s o ≡ some s') × Discovered env p s s'
  after_discover-Discovered _ (served (err e) b h k) = (_, refl, no_offer b h)
  after_discover-Discovered _ (served (ok ip) b h k) = (
    _,
    refl,
    subst
        (λ ss. Discovered env p s (send_offer p ip (find_subnet_for_ip ss ip) (with_allocator b s)))
        (sym h.subnets) (send_offer-Discovered ip b _ h (k ip refl) refl),
  )

-- With unique addresses, and no dynamic range that ends at 255.255.255.255, `handleDiscover` always
-- comes to an end and changes no lease; an OFFER that it makes is a reply
-- of that type to the request, of an address that was granted and lies on a configured subnet, with
-- the identifier of the server and the configured lease time.
pub handle_discover-Discovered :
    (env : Env) (fuel : ℕ) (p : Packet) (s : Server)
    → UniqueIps s.allocator.db.leases
    → All (λ (t : SubnetConfig). All BelowTop t.dynamic_ranges) s.allocator.subnets
    → u32 < fuel
    → (s' : Server) × (handle_discover env fuel p s ≡ some s') × Discovered env p s s'
unfolding handle_discover
handle_discover-Discovered env fuel p s u top f =
    after_discover-Discovered env p s _
      (allocate_ip-Served env (mac_address_string p) (get_requested_ip p) s.allocator fuel u top f)

-- The lease that a BootP reply records.
abbrev pub boot_lease : Env → Packet → Ip → Server → Lease
boot_lease env p ip s = new_lease env (mac_address_string p) ip (get_hostname p) true s.allocator

-- A BootP request: nothing is sent and no lease changed, or the client is a static host on a subnet
-- with BootP, its lease is written, and the reply has none of the options of DHCP.
pub data Booted (env : Env) (p : Packet) (s : Server) : Server → Type 0 where
  silent : (a : Allocator) → SameState s.allocator a → Booted env p s (with_allocator a s)
  replied :
      (ip : Ip) (subnet : SubnetConfig) (reply : Packet) (s' : Server)
      → static_ip_for_mac env (mac_address_string p) s.allocator ≡ some ip
      → find_subnet_for_ip s.allocator.subnets ip ≡ some subnet
      → subnet.enable_bootp ≡ true
      → Boots s.config s.server_ip p ip subnet reply
      → SameConfig s.allocator s'.allocator
      → s'.allocator.db.leases
        ≡ saved_rows
            (boot_lease env p ip s)
            s.allocator.db.next_lease
            (row (boot_lease env p ip s).ip_address s.allocator.db.leases)
            s.allocator.db.leases
      → (s'.sent ≡ s.sent) ⊎ (s'.sent ≡ s.sent ++ ((datagram reply) ∷ []))
      → (s'.config ≡ s.config) × (s'.server_ip ≡ s.server_ip)
      → Booted env p s s'

module _ (env : Env) (p : Packet) (s : Server) (u : UniqueIps s.allocator.db.leases) where
  module _ (ip : Ip)
      (static : static_ip_for_mac env (mac_address_string p) s.allocator ≡ some ip) where
    after_boot_lease-Booted :
        (subnet : SubnetConfig)
        → find_subnet_for_ip s.allocator.subnets ip ≡ some subnet
        → subnet.enable_bootp ≡ true
        → (r : Result (Unit {0}) × Allocator) → Saves (boot_lease env p ip s) s.allocator r
        → Booted env p s (after_boot_lease env p ip subnet s r)
    after_boot_lease-Booted subnet f e _ (refused x b h) = silent b h
    after_boot_lease-Booted subnet f e _ (written b c w) =
        let reply = create_boot_reply s.config s.server_ip p ip subnet in
        let t = send_packet-Transmits reply (with_allocator b s) in
        replied ip subnet reply _ static f e
          (create_boot_reply-Boots s.config s.server_ip p ip subnet)
          (subst (SameConfig s.allocator) (sym t.allocator) c)
          (ap (λ (x : Allocator). x.db.leases) t.allocator ∙ w) t.sent (t.config, t.server_ip)

    boot_on-Booted :
        (o : Option SubnetConfig)
        → find_subnet_for_ip s.allocator.subnets ip ≡ o
        → Booted env p s (boot_on env p ip o s)
    boot_on-Booted none f = silent s.allocator (SameState-refl s.allocator)
    boot_on-Booted (some subnet) f = elim (Bool-cases subnet.enable_bootp) [
      | inl on ↦ choose true on (after_boot_lease-Booted subnet f on _ created)
      | inr off ↦ choose false off (silent s.allocator (SameState-refl s.allocator))
    ]
      where
        lease_result : Result (Unit {0}) × Allocator
        lease_result = create_lease env (mac_address_string p) ip (get_hostname p) true s.allocator

        created : Saves (boot_lease env p ip s) s.allocator lease_result
        created = unfold create_lease in save_lease-Saves (boot_lease env p ip s) s.allocator u

        choose :
            (b : Bool)
            → subnet.enable_bootp ≡ b
            → Booted env p s (if b then after_boot_lease env p ip subnet s lease_result else s)
            → Booted env p s (boot_on env p ip (some subnet) s)
        choose b e h =
            subst
              (λ x.
                Booted env p s (if x then after_boot_lease env p ip subnet s lease_result else s))
              (sym e) h

  boot_at-Booted :
      (o : Option Ip)
      → static_ip_for_mac env (mac_address_string p) s.allocator ≡ o
      → Booted env p s (boot_at env p o s)
  boot_at-Booted none e = silent s.allocator (SameState-refl s.allocator)
  boot_at-Booted (some ip) e = boot_on-Booted ip e _ refl

-- With unique addresses, `handleBootP` answers only a static host whose subnet has BootP enabled,
-- records its lease first, and is silent to any other client, whose request changes no lease.
pub handle_bootp-Booted :
    (env : Env) (p : Packet) (s : Server)
    → UniqueIps s.allocator.db.leases
    → Booted env p s (handle_bootp env p s)
unfolding handle_bootp
handle_bootp-Booted env p s u = boot_at-Booted env p s u _ refl
