-- ===== src/Replies/Kinds.antt =====
-- What each kind of reply of internal/dhcp/server.go says to the client.
use go_dhcpd.Base.{
  ℕ, ◌≡◌, ◌≢◌, refl, sym, subst, ◌∙◌, [], ◌∷◌, List, Option, none, some, if◌then◌else◌, Text,
  uint32, is_empty,
}
use go_dhcpd.Net.{Ip, to4, ipv4_zero}
use go_dhcpd.Net.Print.{parse_ip}
use go_dhcpd.Config.{GlobalConfig, SubnetConfig}
use go_dhcpd.Options.{lookup, insert}
use go_dhcpd.Packet.{Packet, put_uint32}
use go_dhcpd.Packet.Build.{
  set_message_type, set_lease_time, set_server_identifier, set_server_hostname, set_boot_filename,
}
use go_dhcpd.Packet.Build.Code
use go_dhcpd.Replies.{
  ◌|>◌, if_any, blank, create_offer, create_ack, create_nak, create_boot_reply, boot_server,
  parsed_or_zero,
}
use go_dhcpd.Replies.Echo.{Kept, add_subnet_options-IsStep}

-- The reply is one to this request.
pub record Answers (request reply : Packet) : Type 0 where
  pub op_code : reply.op_code ≡ Code.boot_reply
  pub hw_type : reply.hw_type ≡ request.hw_type
  pub hw_len : reply.hw_len ≡ request.hw_len
  pub xid : reply.xid ≡ request.xid
  pub flags : reply.flags ≡ request.flags
  pub gi_addr : reply.gi_addr ≡ request.gi_addr
  pub ch_addr : reply.ch_addr ≡ request.ch_addr

-- A DHCP reply of a type from a server, that gives an address.
pub record Gives (msg_type : ℕ) (server_ip ip : Ip) (seconds : ℕ) (reply : Packet) : Type 0 where
  pub message : lookup Code.message_type reply.options ≡ some (msg_type ∷ [])
  pub server : lookup Code.server_identifier reply.options ≡ some (to4 server_ip)
  pub lease : lookup Code.lease_time reply.options ≡ some (put_uint32 seconds)
  pub yi_addr : reply.yi_addr ≡ to4 ip
  pub ci_addr : reply.ci_addr ≡ ipv4_zero
  pub si_addr : reply.si_addr ≡ to4 server_ip

Kept-Answers : {request p q : Packet} → Kept p q → Answers request p → Answers request q
Kept-Answers k a =
    let h = k.0 in
    record {
      op_code = h.op_code ∙ a.op_code;
      hw_type = h.hw_type ∙ a.hw_type;
      hw_len = h.hw_len ∙ a.hw_len;
      xid = h.xid ∙ a.xid;
      flags = h.flags ∙ a.flags;
      gi_addr = h.gi_addr ∙ a.gi_addr;
      ch_addr = h.ch_addr ∙ a.ch_addr;
    }

Kept-Gives :
    {t n : ℕ} {server_ip ip : Ip} {p q : Packet}
    → Kept p q
    → Gives t server_ip ip n p
    → Gives t server_ip ip n q
Kept-Gives k g = record {
  message = k.1 Code.message_type refl ∙ g.message;
  server = k.1 Code.server_identifier refl ∙ g.server;
  lease = k.1 Code.lease_time refl ∙ g.lease;
  yi_addr = k.0.yi_addr ∙ g.yi_addr;
  ci_addr = k.0.ci_addr ∙ g.ci_addr;
  si_addr = k.0.si_addr ∙ g.si_addr;
}

module _ (global : GlobalConfig) (server_ip : Ip) (request : Packet) where
  -- A NAK: no address and no lease.
  pub record Refuses (reply : Packet) : Type 0 where
    pub answers : Answers request reply
    pub message : lookup Code.message_type reply.options ≡ some (Code.dhcp_nak ∷ [])
    pub server : lookup Code.server_identifier reply.options ≡ some (to4 server_ip)
    pub lease : lookup Code.lease_time reply.options ≡ none
    pub yi_addr : reply.yi_addr ≡ ipv4_zero
    pub ci_addr : reply.ci_addr ≡ ipv4_zero

  pub create_nak-Refuses : Refuses (create_nak global server_ip request)
  unfolding create_nak set_message_type set_server_identifier lookup insert
  create_nak-Refuses = record {
    answers = record {
      op_code = refl;
      hw_type = refl;
      hw_len = refl;
      xid = refl;
      flags = refl;
      gi_addr = refl;
      ch_addr = refl;
    };
    message = refl;
    server = refl;
    lease = refl;
    yi_addr = refl;
    ci_addr = refl;
  }

module _ (global : GlobalConfig) (server_ip : Ip) (request : Packet) (ip : Ip)
    (subnet : SubnetConfig) where
  start : ℕ → Packet
  start t =
      blank global request ipv4_zero (to4 ip) (to4 server_ip)
      |> (λ q. set_message_type q t)
      |> (λ q. set_server_identifier q server_ip)
      |> (λ q. set_lease_time q (uint32 global.lease_time))

  start-Answers : (t : ℕ) → Answers request (start t)
  unfolding start set_message_type set_server_identifier set_lease_time
  start-Answers t = record {
    op_code = refl;
    hw_type = refl;
    hw_len = refl;
    xid = refl;
    flags = refl;
    gi_addr = refl;
    ch_addr = refl;
  }

  start-Gives : (t : ℕ) → Gives t server_ip ip (uint32 global.lease_time) (start t)
  unfolding start set_message_type set_server_identifier set_lease_time lookup insert
  start-Gives t = record {
    message = refl;
    server = refl;
    lease = refl;
    yi_addr = refl;
    ci_addr = refl;
    si_addr = refl;
  }

  -- An OFFER says the same of its own type.
  pub create_offer-Gives :
      Answers request (create_offer global server_ip request ip subnet)
      × Gives Code.dhcp_offer server_ip ip
          (uint32 global.lease_time)
          (create_offer global server_ip request ip subnet)
  unfolding create_offer start
  create_offer-Gives =
      let s = add_subnet_options-IsStep global subnet (start Code.dhcp_offer) in
      (Kept-Answers s (start-Answers Code.dhcp_offer), Kept-Gives s (start-Gives Code.dhcp_offer))

  -- An ACK echoes the transaction id, the flags, the relay and the hardware address of the request,
  -- and says its type, the identifier of the server, the configured lease time, and the address.
  pub create_ack-Gives :
      Answers request (create_ack global server_ip request ip subnet)
      × Gives Code.dhcp_ack server_ip ip
          (uint32 global.lease_time)
          (create_ack global server_ip request ip subnet)
  unfolding create_ack start
  create_ack-Gives =
      let s = add_subnet_options-IsStep global subnet (start Code.dhcp_ack) in
      (Kept-Answers s (start-Answers Code.dhcp_ack), Kept-Gives s (start-Gives Code.dhcp_ack))

  -- The boot server: the configured one if it parses, nobody if it does not, and where none is
  -- configured this server if there is a boot file, and else nobody.
  pub data BootServer : Ip → Type 0 where
    configured :
        (next : Ip)
        → subnet.next_server ≢ []
        → parse_ip subnet.next_server ≡ some next
        → BootServer (to4 next)
    unreadable : subnet.next_server ≢ [] → parse_ip subnet.next_server ≡ none → BootServer ipv4_zero
    this_server : subnet.next_server ≡ [] → subnet.boot_filename ≢ [] → BootServer (to4 server_ip)
    nobody : subnet.next_server ≡ [] → subnet.boot_filename ≡ [] → BootServer ipv4_zero

  -- A BootP reply: the address, and none of the options that only DHCP has.
  pub record Boots (reply : Packet) : Type 0 where
    pub answers : Answers request reply
    pub message : lookup Code.message_type reply.options ≡ none
    pub server : lookup Code.server_identifier reply.options ≡ none
    pub lease : lookup Code.lease_time reply.options ≡ none
    pub yi_addr : reply.yi_addr ≡ to4 ip
    pub ci_addr : reply.ci_addr ≡ request.ci_addr
    pub si_addr : BootServer reply.si_addr

  Kept-Boots : {p q : Packet} → Kept p q → Boots p → Boots q
  Kept-Boots k b = record {
    answers = Kept-Answers k b.answers;
    message = k.1 Code.message_type refl ∙ b.message;
    server = k.1 Code.server_identifier refl ∙ b.server;
    lease = k.1 Code.lease_time refl ∙ b.lease;
    yi_addr = k.0.yi_addr ∙ b.yi_addr;
    ci_addr = k.0.ci_addr ∙ b.ci_addr;
    si_addr = subst BootServer (sym k.0.si_addr) b.si_addr;
  }

  nil-ne-cons : {A : Type 0} {t : List A} (c : A) (s : List A) → t ≡ c ∷ s → t ≢ []
  nil-ne-cons c s e z = cc

  boot_server-BootServer : BootServer (boot_server global server_ip subnet)
  unfolding boot_server
  boot_server-BootServer =
      by_text subnet.next_server subnet.boot_filename refl refl (parse_ip subnet.next_server) refl
    where
      by_text :
          (next file : Text)
          → subnet.next_server ≡ next
          → subnet.boot_filename ≡ file
          → (o : Option Ip) → parse_ip subnet.next_server ≡ o
          → BootServer (
              if is_empty next
              then if is_empty file then ipv4_zero else to4 server_ip
              else parsed_or_zero global o)
      by_text [] [] e f o h = nobody e f
      by_text [] (c ∷ file) e f o h = this_server e (nil-ne-cons c file f)
      by_text (c ∷ next) file e f none h = unreadable (nil-ne-cons c next e) h
      by_text (c ∷ next) file e f (some ip) h = configured ip (nil-ne-cons c next e) h

  -- The file and the server name are no part of it.
  named-Boots :
      (file name : Text)
      → Boots (
          blank global request request.ci_addr (to4 ip) (boot_server global server_ip subnet)
          |> if_any name (λ name q. set_server_hostname q name)
          |> if_any file (λ name q. set_boot_filename q name))
  unfolding if_any set_server_hostname set_boot_filename lookup
  named-Boots [] [] = record {
    answers = record {
      op_code = refl;
      hw_type = refl;
      hw_len = refl;
      xid = refl;
      flags = refl;
      gi_addr = refl;
      ch_addr = refl;
    };
    message = refl;
    server = refl;
    lease = refl;
    yi_addr = refl;
    ci_addr = refl;
    si_addr = boot_server-BootServer;
  }
  named-Boots [] (c ∷ name) = record {
    answers = record {
      op_code = refl;
      hw_type = refl;
      hw_len = refl;
      xid = refl;
      flags = refl;
      gi_addr = refl;
      ch_addr = refl;
    };
    message = refl;
    server = refl;
    lease = refl;
    yi_addr = refl;
    ci_addr = refl;
    si_addr = boot_server-BootServer;
  }
  named-Boots (c ∷ file) [] = record {
    answers = record {
      op_code = refl;
      hw_type = refl;
      hw_len = refl;
      xid = refl;
      flags = refl;
      gi_addr = refl;
      ch_addr = refl;
    };
    message = refl;
    server = refl;
    lease = refl;
    yi_addr = refl;
    ci_addr = refl;
    si_addr = boot_server-BootServer;
  }
  named-Boots (c ∷ file) (d ∷ name) = record {
    answers = record {
      op_code = refl;
      hw_type = refl;
      hw_len = refl;
      xid = refl;
      flags = refl;
      gi_addr = refl;
      ch_addr = refl;
    };
    message = refl;
    server = refl;
    lease = refl;
    yi_addr = refl;
    ci_addr = refl;
    si_addr = boot_server-BootServer;
  }

  -- A BootP reply echoes the request, gives the address, and has no message type, server identifier
  -- or lease time. Its boot server is the configured one, nobody if that does not parse, and where
  -- none is configured this server if there is a boot file, and else nobody.
  pub create_boot_reply-Boots : Boots (create_boot_reply global server_ip request ip subnet)
  unfolding create_boot_reply
  create_boot_reply-Boots =
      Kept-Boots (add_subnet_options-IsStep global subnet _)
        (named-Boots subnet.boot_filename subnet.server_hostname)
