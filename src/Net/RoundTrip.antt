-- ===== src/Net/RoundTrip.antt =====
-- `IP.String` and `net.ParseIP` together.
use go_dhcpd.Base.{
  ℕ, ◌+◌, ◌/◌, ◌%◌, ◌<◌, ◌≡◌, refl, ap, ◌∙◌, [], ◌∷◌, ◌++◌, some, arith, inl, inr, ltb, Bool-cases,
  Text,
}
use go_dhcpd.Net.{Ip, ipv4, to4}
use go_dhcpd.Net.Quad.{decimal, print_quad, parse_quad, parse_quad-print_quad}
use go_dhcpd.Net.Print.{
  ip_string, ip_string_lem, print_ip, parse_kind, parse_ip, parse_ip_lem, dotted,
}

-- The address `ip`, in either form, is the IPv4 address `a.b.c.d`.
pub record IsQuad (ip : Ip) (a b c d : ℕ) : Type 0 where
  pub form : to4 ip ≡ a ∷ b ∷ c ∷ d ∷ []
  pub bytes : (a < 256) × (b < 256) × (c < 256) × (d < 256)

digit_skip : (s : Text) (d : ℕ) (r : Text) → d < 10 → parse_kind s ((48 + d) ∷ r) ≡ parse_kind s r
unfolding parse_kind
digit_skip s d r h = ground arith

decimal_skip :
    (s : Text) (b : ℕ) (r : Text) → b < 256 → parse_kind s (decimal b ++ r) ≡ parse_kind s r
unfolding decimal
decimal_skip s b r h = elim (Bool-cases (ltb b 10)) [
  | inl small ↦ rw small (digit_skip s b r (ground arith))
  | inr big ↦ elim (Bool-cases (ltb b 100)) [
    | inl two ↦
        rw (big, two)
          (digit_skip s (b / 10) _ (ground arith) ∙ digit_skip s (b % 10) r (omega arith))
    | inr three ↦
        rw (big, three)
          (digit_skip s (b / 100) _ (ground arith)
            ∙ digit_skip s (b / 10 % 10) _ (omega arith)
            ∙ digit_skip s (b % 10) r (omega arith))
  ]
]

parse_kind-print_quad :
    (s : Text) (a b c d : ℕ) → a < 256 → parse_kind s (print_quad a b c d) ≡ dotted (parse_quad s)
unfolding print_quad
parse_kind-print_quad s a b c d h = decimal_skip s a _ h ∙ (unfold parse_kind in refl)

pub ip_string_quad : (ip : Ip) (a b c d : ℕ) → IsQuad ip a b c d → ip_string ip ≡ print_quad a b c d
ip_string_quad [] a b c d h = cc (nil_form h.form)
  where
    nil_form : to4 [] ≡ a ∷ b ∷ c ∷ d ∷ [] → [] ≡ a ∷ b ∷ c ∷ d ∷ []
    nil_form e = unfold to4 in e
ip_string_quad (x ∷ ip) a b c d h =
    ip_string_lem (x ∷ ip) ∙ ap (print_ip (x ∷ ip)) h.form ∙ (unfold print_ip in ground arith)

-- A printed IPv4 address is read back as the same address, in its 16-byte form.
pub parse_ip-print_quad :
    (a b c d : ℕ)
    → (a < 256) × (b < 256) × (c < 256) × (d < 256)
    → parse_ip (print_quad a b c d) ≡ some (ipv4 a b c d)
unfolding dotted
parse_ip-print_quad a b c d h =
    parse_ip_lem (print_quad a b c d)
    ∙ parse_kind-print_quad (print_quad a b c d) a b c d h.0
    ∙ ap dotted (parse_quad-print_quad a b c d h.0 h.1 h.2 h.3)

-- An IPv4 address that is printed and read back is the same address.
pub parse_ip-ip_string :
    (ip : Ip) (a b c d : ℕ) → IsQuad ip a b c d → parse_ip (ip_string ip) ≡ some (ipv4 a b c d)
parse_ip-ip_string ip a b c d h =
    ap parse_ip (ip_string_quad ip a b c d h) ∙ parse_ip-print_quad a b c d h.bytes
