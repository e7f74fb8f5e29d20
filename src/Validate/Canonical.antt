-- ===== src/Validate/Canonical.antt =====
-- What `ValidateStaticHost` of internal/sqlite3store/validate.go accepts, and how it rewrites it.
use go_dhcpd.Base.{
  ℕ, zero, suc, ◌+◌, ◌*◌, ◌/◌, ◌%◌, ◌<◌, false, [], ◌∷◌, Option, none, some, ltb, ◌==◌, length,
  drop, get_or, ◌||◌, All, Bool-cases, inl, inr, Bytes, Text, is_empty, lower, to_lower, ok, ◌≡◌,
  refl, sym, ap, ◌∙◌, arith,
}
use go_dhcpd.Net.V6.{hex_value}
use go_dhcpd.Net.Print.{hex_digit, hex_pair, mac_string}
use go_dhcpd.Config.{StaticHost, normalize_mac}
use go_dhcpd.Validate.Mac.{
  digits, xtoi2, cons_byte, mac_bytes, mac_words, mac_in_bytes, mac_in_words, fills, pair_of,
  parse_mac, with_hardware, validate_static_host,
}

hex_value-lt : (c : ℕ) {d : ℕ} → hex_value c ≡ some d → d < 16
unfolding hex_value
hex_value-lt c h = ground arith

hex_value-hex_digit : (d : ℕ) → d < 16 → hex_value (hex_digit d) ≡ some d
unfolding hex_value hex_digit
hex_value-hex_digit d h = ground arith

lower-hex_digit : (d : ℕ) → d < 16 → lower (hex_digit d) ≡ hex_digit d
unfolding lower hex_digit
lower-hex_digit d h = ground arith

abbrev IsByte : ℕ → Type 0
IsByte b = b < 256

abbrev AreBytes : Option Bytes → Type 0
AreBytes none = Unit {0}
AreBytes (some bs) = All IsByte bs

abbrev BelowByte : Option ℕ → Type 0
BelowByte none = Unit {0}
BelowByte (some b) = b < 256

digits-byte : (a b : ℕ) → BelowByte (digits (hex_value a) (hex_value b))
digits-byte a b = go (hex_value a) (hex_value b) (λ d. hex_value-lt a) (λ d. hex_value-lt b)
  where
    go :
        (h l : Option ℕ)
        → ((d : ℕ) → h ≡ some d → d < 16)
        → ((d : ℕ) → l ≡ some d → d < 16)
        → BelowByte (digits h l)
    go none l p q = tt
    go (some h) none p q = tt
    go (some h) (some l) p q =
        let p' : h < 16 = p h refl in let q' : l < 16 = q l refl in omega arith

xtoi2-byte : (s : Text) (e : ℕ) → BelowByte (xtoi2 s e)
unfolding xtoi2
xtoi2-byte [] e = tt
xtoi2-byte (a ∷ []) e = tt
xtoi2-byte (a ∷ b ∷ []) e = digits-byte a b
xtoi2-byte (a ∷ b ∷ c ∷ s) e = elim (Bool-cases (c == e)) [
  | inl sep ↦ rw sep (digits-byte a b)
  | inr other ↦ rw other tt
]

cons_byte-bytes :
    (b : Option ℕ) (bs : Option Bytes) → BelowByte b → AreBytes bs → AreBytes (cons_byte b bs)
cons_byte-bytes none bs p q = tt
cons_byte-bytes (some b) none p q = tt
cons_byte-bytes (some b) (some bs) p q = (p, q)

mac_bytes-bytes : (n e : ℕ) (s : Text) → AreBytes (mac_bytes n e s)
unfolding mac_bytes
mac_bytes-bytes zero e s = tt
mac_bytes-bytes (suc n) e s = cons_byte-bytes _ _ (xtoi2-byte s e) (mac_bytes-bytes n e _)

mac_words-bytes : (n : ℕ) (s : Text) → AreBytes (mac_words n s)
unfolding mac_words
mac_words-bytes zero s = tt
mac_words-bytes (suc n) s =
    cons_byte-bytes _ _ (xtoi2-byte (pair_of s) 0)
      (cons_byte-bytes _ _ (xtoi2-byte (drop 2 s) b'.') (mac_words-bytes n _))

mac_in_bytes-bytes : (s : Text) → AreBytes (mac_in_bytes s)
unfolding mac_in_bytes
mac_in_bytes-bytes s = elim (Bool-cases (fills 3 ((length s + 1) / 3) s)) [
  | inl e ↦ rw e (mac_bytes-bytes ((length s + 1) / 3) (get_or s 2 0) s)
  | inr e ↦ rw e tt
]

mac_in_words-bytes : (s : Text) → AreBytes (mac_in_words s)
unfolding mac_in_words
mac_in_words-bytes s = elim (Bool-cases (fills 5 (2 * (length s + 1) / 5) s)) [
  | inl e ↦ rw e (mac_words-bytes ((length s + 1) / 5) s)
  | inr e ↦ rw e tt
]

-- What `ParseMAC` returns are bytes.
parse_mac-bytes : (s : Text) → AreBytes (parse_mac s)
unfolding parse_mac
parse_mac-bytes s = elim (Bool-cases (ltb (length s) 14)) [
  | inl short ↦ rw short tt
  | inr long ↦ rw long (elim (Bool-cases (get_or s 2 0 == b':' || get_or s 2 0 == b'-')) [
    | inl e ↦ rw e (mac_in_bytes-bytes s)
    | inr e ↦ rw e (elim (Bool-cases (get_or s 4 0 == b'.')) [
      | inl f ↦ rw f (mac_in_words-bytes s)
      | inr f ↦ rw f tt
    ])
  ])
]

digits-hex_pair :
    (b : ℕ)
    → b < 256
    → digits (hex_value (hex_digit (b / 16))) (hex_value (hex_digit (b % 16))) ≡ some b
digits-hex_pair b h =
    rw (hex_value-hex_digit (b / 16) (omega arith), hex_value-hex_digit (b % 16) (omega arith))
      (ap some (omega arith))

-- A six-byte address, printed, is read back.
parse_mac-mac_string :
    (a b c d e f : ℕ)
    → All IsByte (a ∷ b ∷ c ∷ d ∷ e ∷ f ∷ [])
    → parse_mac (mac_string (a ∷ b ∷ c ∷ d ∷ e ∷ f ∷ [])) ≡ some (a ∷ b ∷ c ∷ d ∷ e ∷ f ∷ [])
unfolding parse_mac mac_string mac_bytes xtoi2
parse_mac-mac_string a b c d e f h =
    rw
      (
        digits-hex_pair a h.0,
        digits-hex_pair b h.1.0,
        digits-hex_pair c h.1.1.0,
        digits-hex_pair d h.1.1.1.0,
        digits-hex_pair e h.1.1.1.1.0,
        digits-hex_pair f h.1.1.1.1.1.0,
      )
      refl

to_lower-mac_string : (bs : Bytes) → All IsByte bs → to_lower (mac_string bs) ≡ mac_string bs
unfolding to_lower mac_string hex_pair
to_lower-mac_string [] h = refl
to_lower-mac_string (b ∷ []) h =
    λ i. lower-hex_digit (b / 16) (omega arith) i ∷ lower-hex_digit (b % 16) (omega arith) i ∷ []
to_lower-mac_string (b ∷ c ∷ bs) h = λ i.
    lower-hex_digit (b / 16) (half h.0) i
    ∷ lower-hex_digit (b % 16) (rest h.0) i
    ∷ lower b':'
    ∷ to_lower-mac_string (c ∷ bs) h.1 i
  where
    half : b < 256 → b / 16 < 16
    half h = omega arith

    rest : b < 256 → b % 16 < 16
    rest h = omega arith

-- The host is as it was but for the spelling of its address, which is that of six bytes, and which
-- the store and a second validation leave as it is.
pub record IsCanonical (h h' : StaticHost) : Type 0 where
  pub octets : Bytes
  pub six : length octets ≡ 6
  pub bytes : All IsByte octets
  pub parsed : parse_mac h.mac_address ≡ some octets
  pub spelled : h' ≡ record h { mac_address = mac_string octets }
  pub addressed : is_empty h.ip_address ≡ false
  pub key : normalize_mac h'.mac_address ≡ h'.mac_address
  pub again : validate_static_host h' ≡ ok h'

-- Six bytes, printed, are read back.
reads_back : (hw : Bytes) → length hw ≡ 6 → All IsByte hw → parse_mac (mac_string hw) ≡ some hw
reads_back [] e h = absurd (omega arith)
reads_back (a ∷ []) e h = absurd (omega arith)
reads_back (a ∷ b ∷ []) e h = absurd (omega arith)
reads_back (a ∷ b ∷ c ∷ []) e h = absurd (omega arith)
reads_back (a ∷ b ∷ c ∷ d ∷ []) e h = absurd (omega arith)
reads_back (a ∷ b ∷ c ∷ d ∷ f ∷ []) e h = absurd (omega arith)
reads_back (a ∷ b ∷ c ∷ d ∷ f ∷ g ∷ []) e h = parse_mac-mac_string a b c d f g h
reads_back (a ∷ b ∷ c ∷ d ∷ f ∷ g ∷ k ∷ more) e h = absurd (omega arith)

is_empty-mac_string : (hw : Bytes) → length hw ≡ 6 → is_empty (mac_string hw) ≡ false
unfolding mac_string hex_pair
is_empty-mac_string [] e = absurd (omega arith)
is_empty-mac_string (a ∷ []) e = refl
is_empty-mac_string (a ∷ b ∷ bs) e = refl

accepted :
    (h h' : StaticHost) (o : Option Bytes)
    → parse_mac h.mac_address ≡ o
    → AreBytes o
    → with_hardware h o ≡ ok h'
    → IsCanonical h h'
accepted h h' none e b k = absurd (cc)
accepted h h' (some hw) e b k = elim (Bool-cases (length hw == 6)) [
  | inl six ↦ elim (Bool-cases (is_empty h.ip_address)) [
    | inl bare ↦ absurd (ground arith)
    | inr full ↦
        let n : length hw ≡ 6 = ground arith in
        let spelled : h' ≡ stored = ground arith in
        record {
          octets = hw;
          six = n;
          bytes = b;
          parsed = e;
          spelled = spelled;
          addressed = full;
          key =
              unfold normalize_mac in
              (λ i. to_lower (spelled i).mac_address) ∙ to_lower-mac_string hw b ∙ λ i.
              (sym spelled i).mac_address;
          again = ap validate_static_host spelled ∙ valid_again n full ∙ ap ok (sym spelled);
        }
  ]
  | inr other ↦ absurd (ground arith)
]
  where
    stored : StaticHost
    stored = record h { mac_address = mac_string hw }

    valid_again :
        length hw ≡ 6 → is_empty h.ip_address ≡ false → validate_static_host stored ≡ ok stored
    valid_again n full =
        unfold validate_static_host in
        rw (is_empty-mac_string hw n, reads_back hw n b, n, full) refl

-- A static host that validation accepts had a six-byte MAC address, in any of the notations that Go
-- reads, and an address; what is stored is the same host with the MAC address spelled in the one
-- canonical way, which lowercasing does not change and which validation accepts as it is.
pub validate_static_host-IsCanonical :
    (h h' : StaticHost) → validate_static_host h ≡ ok h' → IsCanonical h h'
unfolding validate_static_host
validate_static_host-IsCanonical h h' k = elim (Bool-cases (is_empty h.mac_address)) [
  | inl bare ↦ absurd (ground arith)
  | inr full ↦
      accepted h h' (parse_mac h.mac_address) refl (parse_mac-bytes h.mac_address) (rw full at k)
]
