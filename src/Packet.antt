-- ===== src/Packet.antt =====
-- internal/dhcp/packet.go: a DHCP or BootP packet, `ParsePacket` and `ToBytes`. A byte is a number
-- below 256 and a field of w bits a number below 2 ^ w; an address is a slice of bytes.
pub mod Build
pub mod Bounds
pub mod Layout
pub mod Wire
use go_dhcpd.Base.{
  ℕ, zero, suc, ◌+◌, ◌-◌, ◌*◌, ◌/◌, ◌%◌, Bool, true, false, ◌&&◌, List, [], ◌∷◌, ◌++◌, Option, none,
  some, ltb, leb, ◌==◌, if◌then◌else◌, length, get_or, take, drop, replicate, fit, Bytes, text_eq,
}
use go_dhcpd.Net.{Ip, to4}
use go_dhcpd.Options.{Options, parse_options, write_options, option_end}

pub record Packet : Type 0 where
  pub op_code : ℕ
  pub hw_type : ℕ
  pub hw_len : ℕ
  pub hops : ℕ
  pub xid : ℕ
  pub secs : ℕ
  pub flags : ℕ
  pub ci_addr : Ip
  pub yi_addr : Ip
  pub si_addr : Ip
  pub gi_addr : Ip
  pub ch_addr : Bytes
  pub s_name : Bytes
  pub file : Bytes
  pub options : Options

abbrev pub magic_cookie : Bytes
magic_cookie = 99 ∷ 130 ∷ 83 ∷ 99 ∷ []

-- `binary.BigEndian`
abbrev pub put_uint16 : ℕ → Bytes
put_uint16 v = (v / 256 % 256) ∷ (v % 256) ∷ []

abbrev pub put_uint32 : ℕ → Bytes
put_uint32 v = (v / 16777216 % 256) ∷ (v / 65536 % 256) ∷ (v / 256 % 256) ∷ (v % 256) ∷ []

abbrev pub uint16_of : Bytes → ℕ
uint16_of b = get_or b 0 0 * 256 + get_or b 1 0

abbrev pub uint32_of : Bytes → ℕ
uint32_of b = get_or b 0 0 * 16777216 + get_or b 1 0 * 65536 + get_or b 2 0 * 256 + get_or b 3 0

-- `data[lo:hi]`
abbrev pub slice : Bytes → ℕ → ℕ → Bytes
slice b lo hi = take (hi - lo) (drop lo b)

-- What a call of Go code comes to: a value, an error, or a run-time panic.
pub data Outcome {ℓ} (A : Type ℓ) : Type ℓ where
  returned : A → Outcome A
  failed : Outcome A
  panicked : Outcome A

-- The upper bound of the slice for `CHAddr`: `28 + data[2]` is a sum of two bytes, and wraps.
unfoldable pub chaddr_end : ℕ → ℕ
chaddr_end hw_len = (28 + hw_len) % 256

-- The options area: read only behind the magic cookie.
unfoldable pub options_area : Bytes → Options
options_area b =
    if ltb 236 (length b)
    then if leb 240 (length b) && text_eq (slice b 236 240) magic_cookie
      then parse_options (drop 240 b)
      else []
    else []

abbrev pub fields_of : Bytes → Bytes → Packet
fields_of b array = record {
  op_code = get_or b 0 0;
  hw_type = get_or b 1 0;
  hw_len = get_or b 2 0;
  hops = get_or b 3 0;
  xid = uint32_of (slice b 4 8);
  secs = uint16_of (slice b 8 10);
  flags = uint16_of (slice b 10 12);
  ci_addr = slice b 12 16;
  yi_addr = slice b 16 20;
  si_addr = slice b 20 24;
  gi_addr = slice b 24 28;
  ch_addr = slice array 28 (chaddr_end (get_or b 2 0));
  s_name = slice b 44 108;
  file = slice b 108 236;
  options = options_area b;
}

-- `ParsePacket`. The second argument is the part of the underlying array behind the slice, which a
-- slice expression reaches: its bound is checked against the capacity.
unfoldable pub parse_packet : Bytes → Bytes → Outcome Packet
parse_packet b spare =
    let array = b ++ spare in
    let hi = chaddr_end (get_or b 2 0) in
    if ltb (length b) 236
    then failed
    else if leb 28 hi && leb hi (length array)
    then returned (fields_of b array)
    else panicked

-- The first 236 bytes of `ToBytes`.
unfoldable pub header : Packet → Bytes
header p =
    p.op_code
    ∷ p.hw_type
    ∷ p.hw_len
    ∷ p.hops
    ∷ (put_uint32 p.xid
        ++ (put_uint16 p.secs
            ++ (put_uint16 p.flags
                ++ (fit 4 0 (to4 p.ci_addr)
                    ++ (fit 4 0 (to4 p.yi_addr)
                        ++ (fit 4 0 (to4 p.si_addr)
                            ++ (fit 4 0 (to4 p.gi_addr)
                                ++ (fit 16 0 p.ch_addr ++ (p.s_name ++ p.file)))))))))

-- `for len(buf) < 300 { buf = append(buf, 0) }`
abbrev pad_to : ℕ → Bytes → Bytes
pad_to n b = b ++ replicate (n - length b) 0

unfoldable pub to_bytes : Packet → Bytes
to_bytes p =
    pad_to 300 (header p ++ (magic_cookie ++ (write_options p.options ++ (option_end ∷ []))))
