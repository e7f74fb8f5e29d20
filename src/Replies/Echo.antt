-- ===== src/Replies/Echo.antt =====
-- `addSubnetOptions` of internal/dhcp/server.go: the steps that it is made of.
use go_dhcpd.Base.{
  ℕ, ◌≡◌, refl, ap, ◌∙◌, inl, inr, Bool, true, false, ◌||◌, List, [], ◌∷◌, Option, none, some, ◌==◌,
  length, Bool-cases, Bytes, Text, ℤ, uint8,
}
use go_dhcpd.Net.{Ip, to4}
use go_dhcpd.Net.Print.{parse_ip}
use go_dhcpd.Config.{GlobalConfig, SubnetConfig}
use go_dhcpd.Options.{lookup}
use go_dhcpd.Options.Laws.{lookup-insert_ne}
use go_dhcpd.Packet.{Packet}
use go_dhcpd.Packet.Build.{
  set_option, set_subnet_mask, set_router, set_dns, set_domain_name, set_domain_search,
  set_ntp_servers, set_time_servers, set_smtp_servers, set_lpr_servers, set_netbios_name_servers,
  set_netbios_dd_servers, set_netbios_node_type, set_interface_mtu,
}
use go_dhcpd.Packet.Build.Code
use go_dhcpd.Replies.{
  ◌|>◌, if_any, if_ips, mask_option, mtu_option, node_type_option, or_default, add_subnet_options,
  parse_ips,
}

-- The fields of the header agree.
pub record SameHeader (p q : Packet) : Type 0 where
  pub op_code : q.op_code ≡ p.op_code
  pub hw_type : q.hw_type ≡ p.hw_type
  pub hw_len : q.hw_len ≡ p.hw_len
  pub xid : q.xid ≡ p.xid
  pub flags : q.flags ≡ p.flags
  pub ci_addr : q.ci_addr ≡ p.ci_addr
  pub yi_addr : q.yi_addr ≡ p.yi_addr
  pub si_addr : q.si_addr ≡ p.si_addr
  pub gi_addr : q.gi_addr ≡ p.gi_addr
  pub ch_addr : q.ch_addr ≡ p.ch_addr
  pub secs : q.secs ≡ p.secs
  pub s_name : q.s_name ≡ p.s_name
  pub file : q.file ≡ p.file

pub SameHeader-refl : (p : Packet) → SameHeader p p
SameHeader-refl p = record {
  op_code = refl;
  hw_type = refl;
  hw_len = refl;
  xid = refl;
  flags = refl;
  ci_addr = refl;
  yi_addr = refl;
  si_addr = refl;
  gi_addr = refl;
  ch_addr = refl;
  secs = refl;
  s_name = refl;
  file = refl;
}

pub SameHeader-trans : {p q r : Packet} → SameHeader p q → SameHeader q r → SameHeader p r
SameHeader-trans s t = record {
  op_code = t.op_code ∙ s.op_code;
  hw_type = t.hw_type ∙ s.hw_type;
  hw_len = t.hw_len ∙ s.hw_len;
  xid = t.xid ∙ s.xid;
  flags = t.flags ∙ s.flags;
  ci_addr = t.ci_addr ∙ s.ci_addr;
  yi_addr = t.yi_addr ∙ s.yi_addr;
  si_addr = t.si_addr ∙ s.si_addr;
  gi_addr = t.gi_addr ∙ s.gi_addr;
  ch_addr = t.ch_addr ∙ s.ch_addr;
  secs = t.secs ∙ s.secs;
  s_name = t.s_name ∙ s.s_name;
  file = t.file ∙ s.file;
}

-- The options that come from the configuration of the subnet.
abbrev pub of_subnet : ℕ → Bool
of_subnet k =
    (k == Code.subnet_mask)
    || (k == Code.router)
    || (k == Code.dns)
    || (k == Code.domain_name)
    || (k == Code.domain_search)
    || (k == Code.ntp_servers)
    || (k == Code.time_server)
    || (k == Code.smtp_server)
    || (k == Code.lpr_server)
    || (k == Code.netbios_name_servers)
    || (k == Code.netbios_dd_server)
    || (k == Code.netbios_node_type)
    || (k == Code.interface_mtu)

-- A change of the subnet options alone.
abbrev pub Kept : Packet → Packet → Type 0
Kept p q =
    SameHeader p q × ((k : ℕ) → of_subnet k ≡ false → lookup k q.options ≡ lookup k p.options)

abbrev pub IsStep : (Packet → Packet) → Type 0
IsStep f = (p : Packet) → Kept p (f p)

Kept-refl : (p : Packet) → Kept p p
Kept-refl p = (SameHeader-refl p, λ k o. refl)

step : (f : Packet → Packet) → IsStep f → {p q : Packet} → Kept p q → Kept p (f q)
step f s {q = q} a = let b = s q in (SameHeader-trans a.0 b.0, λ k o. b.1 k o ∙ a.1 k o)

set_option-IsStep : (j : ℕ) (v : Bytes) → of_subnet j ≡ true → IsStep (set_option j v)
set_option-IsStep j v h p = (
  record {
    op_code = refl;
    hw_type = refl;
    hw_len = refl;
    xid = refl;
    flags = refl;
    ci_addr = refl;
    yi_addr = refl;
    si_addr = refl;
    gi_addr = refl;
    ch_addr = refl;
    secs = refl;
    s_name = refl;
    file = refl;
  },
  λ k o. lookup-insert_ne j k v p.options (λ e. cc (ap of_subnet e)),
)

if_any-IsStep :
    {A : Type 0} (xs : List A) (set : List A → Packet → Packet)
    → ((ys : List A) → IsStep (set ys))
    → IsStep (if_any xs set)
unfolding if_any
if_any-IsStep [] set s p = Kept-refl p
if_any-IsStep (x ∷ xs) set s p = s (x ∷ xs) p

if_ips-IsStep :
    (ts : List Text) (set : Packet → List Ip → Packet)
    → ((ips : List Ip) → IsStep (λ p. set p ips))
    → IsStep (if_ips ts set)
unfolding if_ips
if_ips-IsStep ts set s = if_any-IsStep ts _ (λ us. s (parse_ips us))

mask_option-IsStep : (o : Option Ip) → IsStep (mask_option o)
unfolding mask_option set_subnet_mask
mask_option-IsStep none p = Kept-refl p
mask_option-IsStep (some ip) p = elim (Bool-cases (length (to4 ip) == 4)) [
  | inl v4 ↦ rw v4 (set_option-IsStep Code.subnet_mask (to4 ip) refl p)
  | inr v6 ↦ rw v6 (Kept-refl p)
]

node_type_option-IsStep : (n : ℕ) → IsStep (node_type_option n)
unfolding node_type_option set_netbios_node_type
node_type_option-IsStep n = set_option-IsStep Code.netbios_node_type _ refl

mtu_option-IsStep : (o : Option ℤ) → IsStep (mtu_option o)
unfolding mtu_option set_interface_mtu
mtu_option-IsStep none p = Kept-refl p
mtu_option-IsStep (some n) p = set_option-IsStep Code.interface_mtu _ refl p

module _ (subnet : SubnetConfig) (p : Packet) where
  -- The options from the mask to the NTP servers.
  first_steps : Kept p (
      p
      |> mask_option (parse_ip subnet.netmask)
      |> if_ips subnet.routers set_router
      |> if_ips subnet.domain_name_servers set_dns
      |> if_any subnet.domain_name (λ name q. set_domain_name q name)
      |> if_any subnet.domain_search (λ ds q. set_domain_search q ds)
      |> if_ips subnet.ntp_servers set_ntp_servers)
  unfolding set_router set_dns set_domain_name set_domain_search set_ntp_servers
  first_steps =
      step _
        (if_ips-IsStep subnet.ntp_servers set_ntp_servers
          (λ ips. set_option-IsStep Code.ntp_servers _ refl))
        (step _
          (if_any-IsStep subnet.domain_search (λ ds q. set_domain_search q ds)
            (λ ds. set_option-IsStep Code.domain_search _ refl))
          (step _
            (if_any-IsStep subnet.domain_name (λ name q. set_domain_name q name)
              (λ name. set_option-IsStep Code.domain_name _ refl))
            (step _
              (if_ips-IsStep subnet.domain_name_servers set_dns
                (λ ips. set_option-IsStep Code.dns _ refl))
              (step _
                (if_ips-IsStep subnet.routers set_router
                  (λ ips. set_option-IsStep Code.router _ refl))
                (mask_option-IsStep (parse_ip subnet.netmask) p)))))

  more_steps :
      (q : Packet)
      → Kept p q
      → Kept p (
          q
          |> if_ips subnet.time_servers set_time_servers
          |> if_ips subnet.smtp_servers set_smtp_servers
          |> if_ips subnet.lpr_servers set_lpr_servers
          |> if_ips subnet.netbios_name_servers set_netbios_name_servers
          |> if_ips subnet.netbios_dd_servers set_netbios_dd_servers)
  unfolding set_time_servers set_smtp_servers set_lpr_servers set_netbios_name_servers
      set_netbios_dd_servers
  more_steps q k =
      step _
        (if_ips-IsStep subnet.netbios_dd_servers set_netbios_dd_servers
          (λ ips. set_option-IsStep Code.netbios_dd_server _ refl))
        (step _
          (if_ips-IsStep subnet.netbios_name_servers set_netbios_name_servers
            (λ ips. set_option-IsStep Code.netbios_name_servers _ refl))
          (step _
            (if_ips-IsStep subnet.lpr_servers set_lpr_servers
              (λ ips. set_option-IsStep Code.lpr_server _ refl))
            (step _
              (if_ips-IsStep subnet.smtp_servers set_smtp_servers
                (λ ips. set_option-IsStep Code.smtp_server _ refl))
              (step _
                (if_ips-IsStep subnet.time_servers set_time_servers
                  (λ ips. set_option-IsStep Code.time_server _ refl))
                k))))

-- `addSubnetOptions` writes the options of the subnet, and nothing else of the packet.
pub add_subnet_options-IsStep :
    (global : GlobalConfig) (subnet : SubnetConfig) → IsStep (add_subnet_options global subnet)
unfolding add_subnet_options
add_subnet_options-IsStep global subnet p = step _ (mtu_option-IsStep subnet.interface_mtu) (
    step _
      (node_type_option-IsStep
        (uint8 (or_default subnet.netbios_node_type global.netbios_node_type)))
      (more_steps subnet p _ (first_steps subnet p)))
