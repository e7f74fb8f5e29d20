-- ===== src/Packet/Wire.antt =====
-- `ParsePacket` and `ToBytes` of internal/dhcp/packet.go together.
use mathlib.Core.List.{append_assoc}
use go_dhcpd.Base.{
  ℕ, ◌+◌, ◌-◌, ◌≤◌, ◌<◌, ◌≡◌, refl, ap, ◌∙◌, [], ◌∷◌, ◌++◌, arith, lt→ltb, le→leb, text_eq_refl,
  length, take, drop, replicate, fit, length-append, take-fit, take-take_append, length-fit,
  fit_exact, Bytes, All,
}
use go_dhcpd.Net.{to4}
use go_dhcpd.Options.{write_options, option_end}
use go_dhcpd.Options.Laws.{Distinct}
use go_dhcpd.Options.Wire.{IsWritable, parse_options-write_options}
use go_dhcpd.Packet.Layout.{
  slice_at, IsLayout, layout, drop_a, drop_b, drop_c, drop_d, drop_h, drop_s, drop_f, drop_next,
  length-layout, layout-append,
}
use go_dhcpd.Packet.Bounds.{parse_packet-returned}
use go_dhcpd.Packet.{
  Packet, magic_cookie, slice, returned, chaddr_end, options_area, fields_of, parse_packet, header,
  to_bytes, put_uint16, put_uint32, uint16_of, uint32_of,
}

-- What a packet must be for its fields to fit the header, addresses in either form.
pub record IsWire (p : Packet) : Type 0 where
  pub op_code : p.op_code < 256
  pub xid : p.xid < 4294967296
  pub secs : p.secs < 65536
  pub flags : p.flags < 65536
  pub ci_addr : length (to4 p.ci_addr) ≡ 4
  pub yi_addr : length (to4 p.yi_addr) ≡ 4
  pub si_addr : length (to4 p.si_addr) ≡ 4
  pub gi_addr : length (to4 p.gi_addr) ≡ 4
  pub ch_addr : length p.ch_addr ≡ p.hw_len
  pub hw_len : p.hw_len ≤ 16
  pub s_name : length p.s_name ≡ 64
  pub file : length p.file ≡ 128
  pub distinct : Distinct p.options
  pub writable : All IsWritable p.options

-- The packet with its addresses in the 4-byte form.
abbrev pub wire_form : Packet → Packet
wire_form p = record p {
  ci_addr = to4 p.ci_addr;
  yi_addr = to4 p.yi_addr;
  si_addr = to4 p.si_addr;
  gi_addr = to4 p.gi_addr;
}

abbrev first_twelve : Packet → Bytes → Bytes
first_twelve p rest =
    p.op_code
    ∷ p.hw_type
    ∷ p.hw_len
    ∷ p.hops
    ∷ (put_uint32 p.xid ++ (put_uint16 p.secs ++ (put_uint16 p.flags ++ rest)))

body : Packet → Bytes → Bytes
body p =
    layout (to4 p.ci_addr) (to4 p.yi_addr) (to4 p.si_addr) (to4 p.gi_addr) (fit 16 0 p.ch_addr)
      p.s_name p.file

-- The magic cookie, the options, the end marker and the padding.
abbrev tail_of : Packet → Bytes
tail_of p =
    magic_cookie
    ++ (write_options p.options
        ++ (option_end
            ∷ replicate
                (300
                  - length (
                      header p ++ (magic_cookie ++ (write_options p.options ++ (option_end ∷ [])))))
                0))

header-body :
    (p : Packet) (rest : Bytes) → IsWire p → header p ++ rest ≡ first_twelve p (body p rest)
unfolding header body layout
header-body p rest w =
    rw
      (
        fit_exact 4 0 (to4 p.ci_addr) w.ci_addr,
        fit_exact 4 0 (to4 p.yi_addr) w.yi_addr,
        fit_exact 4 0 (to4 p.si_addr) w.si_addr,
        fit_exact 4 0 (to4 p.gi_addr) w.gi_addr,
      )
      (simp append_assoc)

pad_assoc :
    (h m w z : Bytes)
    → (h ++ (m ++ (w ++ (option_end ∷ [])))) ++ z ≡ h ++ (m ++ (w ++ (option_end ∷ z)))
pad_assoc h m w z =
    append_assoc h (m ++ (w ++ (option_end ∷ []))) z
    ∙ ap (◌++◌ h) (
        append_assoc m (w ++ (option_end ∷ [])) z
        ∙ ap (◌++◌ m) (append_assoc w (option_end ∷ []) z))

to_bytes-body : (p : Packet) → IsWire p → to_bytes p ≡ first_twelve p (body p (tail_of p))
unfolding to_bytes
to_bytes-body p w =
    pad_assoc (header p) magic_cookie (write_options p.options) _ ∙ header-body p (tail_of p) w

uint16_of-put_uint16 : (v : ℕ) → v < 65536 → uint16_of (put_uint16 v) ≡ v
uint16_of-put_uint16 v h = omega arith

uint32_of-put_uint32 : (v : ℕ) → v < 4294967296 → uint32_of (put_uint32 v) ≡ v
uint32_of-put_uint32 v h = omega arith

module _ (p : Packet) (w : IsWire p) where
  is_layout :
      IsLayout
        (to4 p.ci_addr)
        (to4 p.yi_addr)
        (to4 p.si_addr)
        (to4 p.gi_addr)
        (fit 16 0 p.ch_addr)
        p.s_name
        p.file
  is_layout = record {
    la = w.ci_addr;
    lb = w.yi_addr;
    lc = w.si_addr;
    ld = w.gi_addr;
    lh = length-fit 16 0 p.ch_addr;
    ls = w.s_name;
    lf = w.file;
  }

  bytes : Bytes
  bytes = first_twelve p (body p (tail_of p))

  array : Bytes → Bytes
  array spare = first_twelve p (body p (tail_of p) ++ spare)

  chaddr_end_lem : chaddr_end p.hw_len ≡ 28 + p.hw_len
  unfolding chaddr_end
  chaddr_end_lem = omega (arith, w.hw_len)

  length-bytes : 240 ≤ length bytes
  unfolding bytes body
  length-bytes = omega (arith, length-layout _ _ _ _ _ _ _ (tail_of p) is_layout)

  length-array : (spare : Bytes) → 240 ≤ length (array spare)
  unfolding array body
  length-array spare = omega (
    arith,
    length-layout _ _ _ _ _ _ _ (tail_of p) is_layout,
    length-append {0} (body p (tail_of p)) spare,
  )

  ch_addr-array : (spare : Bytes) → slice (array spare) 28 (28 + p.hw_len) ≡ p.ch_addr
  unfolding array body
  ch_addr-array spare =
      let n : 28 + p.hw_len - 28 ≡ p.hw_len = omega arith in
      rw n (
        ap (λ (b : Bytes). take p.hw_len (drop 16 b))
          (layout-append _ _ _ _ _ _ _ (tail_of p) is_layout spare)
        ∙ ap (take p.hw_len) (drop_d _ _ _ _ _ _ _ (tail_of p ++ spare) is_layout)
        ∙ take-take_append p.hw_len 16 (fit 16 0 p.ch_addr) _ (length-fit 16 0 p.ch_addr) w.hw_len
        ∙ take-fit p.hw_len 16 0 p.ch_addr w.ch_addr w.hw_len)

  drop_tail : drop 236 bytes ≡ tail_of p
  unfolding bytes body
  drop_tail = drop_f _ _ _ _ _ _ _ (tail_of p) is_layout

  options-bytes : options_area bytes ≡ p.options
  unfolding options_area
  options-bytes =
      rw
        (
          lt→ltb 236 (length bytes) (omega (arith, length-bytes)),
          le→leb 240 (length bytes) length-bytes,
          slice_at 236 4 bytes magic_cookie _ drop_tail refl,
          text_eq_refl magic_cookie,
          drop_next 236 4 bytes magic_cookie _ drop_tail refl,
        )
        (parse_options-write_options p.options _ w.distinct w.writable)

  fields-bytes : (spare : Bytes) → fields_of bytes (array spare) ≡ wire_form p
  unfolding bytes array body layout
  fields-bytes spare = λ i. record {
    op_code = p.op_code;
    hw_type = p.hw_type;
    hw_len = p.hw_len;
    hops = p.hops;
    xid = uint32_of-put_uint32 p.xid w.xid i;
    secs = uint16_of-put_uint16 p.secs w.secs i;
    flags = uint16_of-put_uint16 p.flags w.flags i;
    ci_addr = slice_at 0 4 (body p (tail_of p)) _ _ refl w.ci_addr i;
    yi_addr =
        slice_at 4 4 (body p (tail_of p)) _ _ (drop_a _ _ _ _ _ _ _ (tail_of p) is_layout) w.yi_addr
          i;
    si_addr =
        slice_at 8 4 (body p (tail_of p)) _ _ (drop_b _ _ _ _ _ _ _ (tail_of p) is_layout) w.si_addr
          i;
    gi_addr =
        slice_at 12 4 (body p (tail_of p)) _ _ (drop_c _ _ _ _ _ _ _ (tail_of p) is_layout)
          w.gi_addr i;
    ch_addr = (ap (slice (array spare) 28) chaddr_end_lem ∙ ch_addr-array spare) i;
    s_name =
        slice_at 32 64 (body p (tail_of p)) _ _ (drop_h _ _ _ _ _ _ _ (tail_of p) is_layout)
          w.s_name i;
    file =
        slice_at 96 128 (body p (tail_of p)) _ _ (drop_s _ _ _ _ _ _ _ (tail_of p) is_layout) w.file
          i;
    options = options-bytes i;
  }

lower : (p : Packet) → IsWire p → 28 ≤ chaddr_end p.hw_len
lower p w = omega (arith, chaddr_end_lem p w)

upper :
    (p : Packet) (w : IsWire p) (spare : Bytes) → chaddr_end p.hw_len ≤ length (bytes p w ++ spare)
unfolding bytes
upper p w spare =
    omega
      (arith, chaddr_end_lem p w, w.hw_len, length-bytes p w, length-append {0} (bytes p w) spare)

-- `ParsePacket` reads a packet that `ToBytes` has written as that packet, with its addresses in the
-- 4-byte form, whatever lies behind the slice in memory: every header field fits its width, the
-- addresses are IPv4, the hardware address has the stated length of at most 16 bytes, and the
-- options are distinct and writable.
pub parse_packet-to_bytes :
    (p : Packet) (spare : Bytes)
    → IsWire p
    → parse_packet (to_bytes p) spare ≡ returned (wire_form p)
unfolding bytes array
parse_packet-to_bytes p spare w =
    let e = to_bytes-body p w in
    ap (λ (b : Bytes). parse_packet b spare) e
    ∙ parse_packet-returned (bytes p w) spare (omega (arith, length-bytes p w)) (lower p w)
        (upper p w spare)
    ∙ ap returned (fields-bytes p w spare)
