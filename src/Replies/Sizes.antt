-- ===== src/Replies/Sizes.antt =====
-- The sizes of the options that `addSubnetOptions` of internal/dhcp/server.go writes.
use go_dhcpd.Base.{
  ℕ, ◌*◌, ◌≤◌, ◌<◌, ◌≡◌, refl, sym, subst, inl, inr, Bool-cases, List, [], ◌∷◌, Option, none, some,
  arith, ◌==◌, length, length-append, length-drop, suc, Bytes, Text, All, ℤ, uint8,
}
use go_dhcpd.Net.{Ip, to4}
use go_dhcpd.Net.Print.{parse_ip}
use go_dhcpd.Config.{GlobalConfig, SubnetConfig}
use go_dhcpd.Options.{Options, insert, option_end}
use go_dhcpd.Options.Laws.{Distinct, insert-Distinct}
use go_dhcpd.Options.Wire.{IsWritable}
use go_dhcpd.Packet.{Packet}
use go_dhcpd.Packet.Build.{
  set_option, address_list, domain_list, set_subnet_mask, set_router, set_dns, set_domain_name,
  set_domain_search, set_ntp_servers, set_time_servers, set_smtp_servers, set_lpr_servers,
  set_netbios_name_servers, set_netbios_dd_servers, set_netbios_node_type, set_interface_mtu,
}
use go_dhcpd.Packet.Build.Code
use go_dhcpd.Replies.{
  ◌|>◌, if_any, if_ips, mask_option, mtu_option, node_type_option, or_default, parse_ips,
  add_subnet_options,
}

to4-short : (ip : Ip) → length (to4 ip) ≤ 4
unfolding to4
to4-short ip = ground (arith, length-drop 12 ip)

length-address_list : (ips : List Ip) → length (address_list ips) ≤ 4 * length ips
unfolding address_list
length-address_list [] = omega arith
length-address_list (ip ∷ ips) =
    omega (arith, length-append (to4 ip) (address_list ips), to4-short ip, length-address_list ips)

length-parse_ips : (ts : List Text) → length (parse_ips ts) ≤ length ts
unfolding parse_ips
length-parse_ips [] = omega arith
length-parse_ips (t ∷ ts) = go (parse_ip t) (length-parse_ips ts)
  where
    go :
        (o : Option Ip)
        → length (parse_ips ts) ≤ length ts
        → length (elim o [ none ↦ parse_ips ts | some ip ↦ ip ∷ parse_ips ts ]) ≤ suc (length ts)
    go none h = omega arith
    go (some ip) h = omega arith

-- The options can be written.
pub record Writable (p : Packet) : Type 0 where
  pub distinct : Distinct p.options
  pub writable : All IsWritable p.options

insert-Writable :
    (k : ℕ) (v : Bytes) (m : Options)
    → IsWritable (k, v)
    → All IsWritable m
    → All IsWritable (insert k v m)
unfolding insert
insert-Writable k v [] w a = (w, tt)
insert-Writable k v ((j, x) ∷ m) w a = elim (Bool-cases (j == k)) [
  | inl same ↦ rw same (w, a.1)
  | inr other ↦ rw other (a.0, insert-Writable k v m w a.1)
]

pub set_option-Writable :
    (k : ℕ) (v : Bytes) (p : Packet) → IsWritable (k, v) → Writable p → Writable (set_option k v p)
set_option-Writable k v p w g = record {
  distinct = insert-Distinct k v p.options g.distinct;
  writable = insert-Writable k v p.options w g.writable;
}

if_any-Writable :
    {A : Type 0} (xs : List A) (set : List A → Packet → Packet) (p : Packet)
    → Writable p
    → Writable (set xs p)
    → Writable (if_any xs set p)
unfolding if_any
if_any-Writable [] set p g h = g
if_any-Writable (x ∷ xs) set p g h = h

-- A step that writes options that fit.
abbrev pub IsFit : (Packet → Packet) → Type 0
IsFit f = (p : Packet) → Writable p → Writable (f p)

step : (f : Packet → Packet) → IsFit f → {p : Packet} → Writable p → Writable (f p)
step f s {p = p} g = s p g

any-IsFit :
    {A : Type 0} (xs : List A) (set : List A → Packet → Packet)
    → IsFit (set xs)
    → IsFit (if_any xs set)
any-IsFit xs set s p g = if_any-Writable xs set p g (s p g)

module _ (k : ℕ) (code : (0 < k) × (k < option_end)) where
  if_ips-Writable :
      (ts : List Text) (set : Packet → List Ip → Packet)
      → ((p : Packet) (ips : List Ip) → set p ips ≡ set_option k (address_list ips) p)
      → length ts < 64
      → (p : Packet) → Writable p
      → Writable (if_ips ts set p)
  unfolding if_ips
  if_ips-Writable ts set e h p g =
      if_any-Writable ts (λ us q. set q (parse_ips us)) p g
        (subst Writable (sym (e p (parse_ips ts))) (
          set_option-Writable k (address_list (parse_ips ts)) p
            (code.0, code.1, omega (arith, length-address_list (parse_ips ts), length-parse_ips ts))
            g))

mask_option-Writable : (o : Option Ip) (p : Packet) → Writable p → Writable (mask_option o p)
unfolding mask_option set_subnet_mask
mask_option-Writable none p g = g
mask_option-Writable (some ip) p g = elim (Bool-cases (length (to4 ip) == 4)) [
  | inl v4 ↦ rw v4 (
      set_option-Writable Code.subnet_mask (to4 ip) p
        (omega arith, omega arith, omega (arith, to4-short ip)) g)
  | inr v6 ↦ rw v6 g
]

mtu_option-Writable : (o : Option ℤ) (p : Packet) → Writable p → Writable (mtu_option o p)
unfolding mtu_option set_interface_mtu
mtu_option-Writable none p g = g
mtu_option-Writable (some n) p g =
    set_option-Writable Code.interface_mtu _ p (omega arith, omega arith, omega arith) g

-- Every list of addresses has at most 63 of them, and the names have at most 255 bytes on the wire.
pub record Fits (subnet : SubnetConfig) : Type 0 where
  pub routers : length subnet.routers < 64
  pub domain_name_servers : length subnet.domain_name_servers < 64
  pub domain_name : length subnet.domain_name < 256
  pub domain_search : length (domain_list subnet.domain_search) < 256
  pub ntp_servers : length subnet.ntp_servers < 64
  pub time_servers : length subnet.time_servers < 64
  pub smtp_servers : length subnet.smtp_servers < 64
  pub lpr_servers : length subnet.lpr_servers < 64
  pub netbios_name_servers : length subnet.netbios_name_servers < 64
  pub netbios_dd_servers : length subnet.netbios_dd_servers < 64

module _ (subnet : SubnetConfig) (fits : Fits subnet) where
  first_steps-Writable :
      (p : Packet)
      → Writable p
      → Writable (
          p
          |> mask_option (parse_ip subnet.netmask)
          |> if_ips subnet.routers set_router
          |> if_ips subnet.domain_name_servers set_dns
          |> if_any subnet.domain_name (λ name q. set_domain_name q name)
          |> if_any subnet.domain_search (λ ds q. set_domain_search q ds)
          |> if_ips subnet.ntp_servers set_ntp_servers)
  unfolding set_router set_dns set_domain_name set_domain_search set_ntp_servers
  first_steps-Writable p g =
      step _
        (if_ips-Writable Code.ntp_servers (omega arith, omega arith) subnet.ntp_servers
          set_ntp_servers (λ q ips. refl) fits.ntp_servers)
        (step _
          (any-IsFit subnet.domain_search (λ ds q. set_domain_search q ds)
            (λ q.
              set_option-Writable Code.domain_search (domain_list subnet.domain_search) q
                (omega arith, omega arith, fits.domain_search)))
          (step _
            (any-IsFit subnet.domain_name (λ name q. set_domain_name q name)
              (λ q.
                set_option-Writable Code.domain_name subnet.domain_name q
                  (omega arith, omega arith, fits.domain_name)))
            (step _
              (if_ips-Writable Code.dns (omega arith, omega arith) subnet.domain_name_servers
                set_dns (λ q ips. refl) fits.domain_name_servers)
              (step _
                (if_ips-Writable Code.router (omega arith, omega arith) subnet.routers set_router
                  (λ q ips. refl) fits.routers)
                (mask_option-Writable (parse_ip subnet.netmask) p g)))))

  more_steps-Writable :
      (p : Packet)
      → Writable p
      → Writable (
          p
          |> if_ips subnet.time_servers set_time_servers
          |> if_ips subnet.smtp_servers set_smtp_servers
          |> if_ips subnet.lpr_servers set_lpr_servers
          |> if_ips subnet.netbios_name_servers set_netbios_name_servers
          |> if_ips subnet.netbios_dd_servers set_netbios_dd_servers)
  unfolding set_time_servers set_smtp_servers set_lpr_servers set_netbios_name_servers
      set_netbios_dd_servers
  more_steps-Writable p g =
      step _
        (if_ips-Writable Code.netbios_dd_server (omega arith, omega arith) subnet.netbios_dd_servers
          set_netbios_dd_servers (λ q ips. refl) fits.netbios_dd_servers)
        (step _
          (if_ips-Writable Code.netbios_name_servers (omega arith, omega arith)
            subnet.netbios_name_servers set_netbios_name_servers (λ q ips. refl)
            fits.netbios_name_servers)
          (step _
            (if_ips-Writable Code.lpr_server (omega arith, omega arith) subnet.lpr_servers
              set_lpr_servers (λ q ips. refl) fits.lpr_servers)
            (step _
              (if_ips-Writable Code.smtp_server (omega arith, omega arith) subnet.smtp_servers
                set_smtp_servers (λ q ips. refl) fits.smtp_servers)
              (if_ips-Writable Code.time_server (omega arith, omega arith) subnet.time_servers
                set_time_servers (λ q ips. refl) fits.time_servers p g))))

  node_type-Writable : (n : ℕ) → IsFit (node_type_option n)
  unfolding node_type_option set_netbios_node_type
  node_type-Writable n q g =
      set_option-Writable Code.netbios_node_type _ q (omega arith, omega arith, omega arith) g

  -- With settings that fit, `addSubnetOptions` writes options that fit.
  pub add_subnet_options-Writable :
      (global : GlobalConfig) → IsFit (add_subnet_options global subnet)
  unfolding add_subnet_options
  add_subnet_options-Writable global p g = step _ (mtu_option-Writable subnet.interface_mtu) (
      step _
        (node_type-Writable (uint8 (or_default subnet.netbios_node_type global.netbios_node_type)))
        (more_steps-Writable _ (first_steps-Writable p g)))
