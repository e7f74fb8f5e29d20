-- ===== src/Examples.antt =====
-- A small network for the examples: one subnet with a dynamic range, one static host on it, and a
-- lease of another client at the first address of the range.
pub mod Wire
pub mod Tables
pub mod Serving
pub mod Granting
pub mod Policy
pub mod Stored
pub mod Interface
pub mod Starting
use go_dhcpd.Base.{
  ℕ, Bool, true, false, List, [], ◌∷◌, ◌++◌, Option, none, some, Text, codes, ℤ, pos, replicate,
  Bytes,
}
use go_dhcpd.Config.{GlobalConfig, SubnetConfig, StaticHost, DynamicRange}
use go_dhcpd.Db.{Lease, active, Database}
use go_dhcpd.Allocator.{Env, Allocator}
use go_dhcpd.Packet.{Packet}
use go_dhcpd.Packet.Build.Code
use go_dhcpd.Server.{Server, Stats}

-- Nothing answers a ping, and no name resolves.
abbrev pub quiet : Env
quiet = record {
  now = 1000;
  century = 2000;
  answers = λ ip i. false;
  arp = λ ip. none;
  lookup_ip = λ name. none;
}

-- Everything answers.
abbrev pub crowded : Env
crowded = record quiet { answers = λ ip i. true }

abbrev pub global : GlobalConfig
global = record {
  lease_time = pos 3600;
  netbios_node_type = pos 8;
  ping_timeout = pos 1;
  ping_retries = pos 2;
  database_path = codes "leases.db";
  listen_address = codes "10.0.0.1";
  listen_interface = codes "eth0";
  api_port = pos 8080;
}

abbrev pub pool : DynamicRange
pool = record { start_address = codes "10.0.0.10"; end_address = codes "10.0.0.20" }

abbrev pub office : SubnetConfig
office = record {
  network = codes "10.0.0.0";
  netmask = codes "255.255.255.0";
  dynamic_ranges = pool ∷ [];
  enable_bootp = true;
  next_server = [];
  server_hostname = codes "boot";
  boot_filename = codes "pxelinux.0";
  netbios_node_type = none;
  domain_name_servers = codes "10.0.0.2" ∷ [];
  domain_name = codes "example.org";
  domain_search = codes "example.org" ∷ [];
  interface_mtu = some (pos 1500);
  ntp_servers = [];
  time_servers = [];
  smtp_servers = [];
  lpr_servers = [];
  netbios_name_servers = [];
  netbios_dd_servers = [];
  routers = codes "10.0.0.1" ∷ [];
}

abbrev pub printer : StaticHost
printer = record {
  mac_address = codes "02:00:00:00:00:99";
  ip_address = codes "10.0.0.5";
  hostname = codes "printer";
}

abbrev pub others : Lease
others = record {
  id = 1;
  mac_address = codes "02:00:00:00:00:22";
  ip_address = codes "10.0.0.10";
  hostname = codes "other";
  lease_start = 500;
  lease_end = 1500;
  state = active;
  is_static = false;
}

abbrev pub table : Database
table = record { leases = others ∷ []; next_lease = 2; denies = []; next_deny = 1; faults = [] }

abbrev pub allocator : Allocator
allocator = record { config = global; db = table; subnets = office ∷ []; static = printer ∷ [] }

abbrev pub idle : Stats
idle = record {
  discover_count = 0;
  offer_count = 0;
  request_count = 0;
  ack_count = 0;
  nak_count = 0;
  release_count = 0;
  inform_count = 0;
  decline_count = 0;
  boot_reply_count = 0;
  packets_received = 0;
  packets_sent = 0;
  errors = 0;
}

abbrev pub daemon : Server
daemon = record {
  config = global;
  allocator = allocator;
  server_ip = 10 ∷ 0 ∷ 0 ∷ 1 ∷ [];
  stats = idle;
  sent = [];
  send_faults = [];
}

-- A REQUEST of a new client for the address of the other one.
abbrev pub request : Packet
request = record {
  op_code = Code.boot_request;
  hw_type = 1;
  hw_len = 6;
  hops = 0;
  xid = 305419896;
  secs = 0;
  flags = 0;
  ci_addr = 0 ∷ 0 ∷ 0 ∷ 0 ∷ [];
  yi_addr = 0 ∷ 0 ∷ 0 ∷ 0 ∷ [];
  si_addr = 0 ∷ 0 ∷ 0 ∷ 0 ∷ [];
  gi_addr = 0 ∷ 0 ∷ 0 ∷ 0 ∷ [];
  ch_addr = 2 ∷ 0 ∷ 0 ∷ 0 ∷ 0 ∷ 17 ∷ [];
  s_name = replicate 64 0;
  file = replicate 128 0;
  options = (53, 3 ∷ []) ∷ (50, 10 ∷ 0 ∷ 0 ∷ 10 ∷ []) ∷ (54, 10 ∷ 0 ∷ 0 ∷ 1 ∷ []) ∷ [];
}
