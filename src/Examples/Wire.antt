-- ===== src/Examples/Wire.antt =====
-- Examples of the wire formats.
use go_dhcpd.Base.{
  ◌+◌, ◌%◌, ◌<◌, ◌≤◌, ◌≡◌, ◌⊎◌, ◌↔◌, inl, refl, [], ◌∷◌, ◌++◌, some, arith, length, get_or, take,
  drop, replicate, codes, Bytes,
}
use go_dhcpd.Options.{
  Options, lookup, parse_loop, parse_options, write_options, turn, store, option_end,
}
use go_dhcpd.Options.Wire.{parse_options-write_options, parse_loop_total, turn_oversized}
use go_dhcpd.Domain.{encode_labels, encode_domain_name, split_dots, trim_dot}
use go_dhcpd.Domain.Decode.{read_domain, written, read_domain-encode_domain_name}
use go_dhcpd.Packet.{returned, panicked, failed, parse_packet, to_bytes}
use go_dhcpd.Packet.Bounds.{parse_packet-refused_iff}
use go_dhcpd.Packet.Wire.{IsWire, wire_form, parse_packet-to_bytes}
use go_dhcpd.Net.{to4}
use go_dhcpd.Examples.{request}

request-IsWire : IsWire request
unfolding to4 lookup
request-IsWire = record {
  op_code = omega arith;
  xid = omega arith;
  secs = omega arith;
  flags = omega arith;
  ci_addr = refl;
  yi_addr = refl;
  si_addr = refl;
  gi_addr = refl;
  ch_addr = refl;
  hw_len = omega arith;
  s_name = refl;
  file = refl;
  distinct = (refl, (refl, (refl, tt)));
  writable = (
    (omega arith, omega arith, omega arith),
    ((omega arith, omega arith, omega arith), ((omega arith, omega arith, omega arith), tt)),
  );
}

parse_packet-to_bytes_example : parse_packet (to_bytes request) [] ≡ returned (wire_form request)
parse_packet-to_bytes_example = parse_packet-to_bytes request [] request-IsWire

-- A datagram of 300 bytes that states a hardware address of 228 bytes.
abbrev crash : Bytes
crash = 1 ∷ 1 ∷ 228 ∷ replicate 297 0

parse_packet-refused_iff_example :
    ((parse_packet crash [] ≡ failed) ↔ (length crash < 236))
    × ((parse_packet crash [] ≡ panicked) ↔ (
        (236 ≤ length crash)
        × ((228 ≤ get_or crash 2 0) ⊎ (length crash + 0 < 28 + get_or crash 2 0))))
parse_packet-refused_iff_example = parse_packet-refused_iff crash [] (omega arith)

-- And so the daemon goes down.
crash_panics : parse_packet crash [] ≡ panicked
crash_panics =
    (parse_packet-refused_iff crash [] (omega arith)).1.1 (omega arith, inl (omega arith))

abbrev two_options : Options
two_options = (51, 0 ∷ 0 ∷ 14 ∷ 16 ∷ []) ∷ (1, 255 ∷ 255 ∷ 255 ∷ 0 ∷ []) ∷ []

parse_options-write_options_example :
    parse_options (write_options two_options ++ (option_end ∷ [])) ≡ two_options
unfolding lookup
parse_options-write_options_example =
    parse_options-write_options two_options [] (refl, (refl, tt))
      ((omega arith, omega arith, omega arith), ((omega arith, omega arith, omega arith), tt))

parse_loop_total_example : (r : Options) × (parse_loop 4 (53 ∷ 9 ∷ 1 ∷ []) [] ≡ some r)
parse_loop_total_example = parse_loop_total 4 (53 ∷ 9 ∷ 1 ∷ []) [] (omega arith)

-- A list of 64 routers.
abbrev routers : Bytes
routers = replicate 256 10

turn_oversized_example :
    turn (write_options ((3, routers) ∷ []) ++ [])
    ≡ store 3 (take (length routers % 256) routers) (drop (length routers % 256) routers ++ [])
turn_oversized_example = turn_oversized 3 routers [] (omega arith) (omega arith)

read_domain-encode_domain_name_example :
    read_domain 8 (encode_domain_name (codes "example.org.") ++ [])
    ≡ some (written (split_dots (trim_dot (codes "example.org."))), [])
unfolding split_dots trim_dot encode_domain_name encode_labels
read_domain-encode_domain_name_example =
    read_domain-encode_domain_name 8 (codes "example.org.") [] (omega arith)
      (omega arith, (omega arith, tt)) (omega arith)
