-- ===== src/Net/Equal.antt =====
-- `IP.Equal` and `IP.String` together.
use go_dhcpd.Base.{
  ◌≡◌, refl, sym, ap, ◌∙◌, inl, inr, Bool, true, false, ◌&&◌, arith, ◌==◌, length, take, drop,
  Bool-cases, Bytes, text_eq, text_eq_iff,
}
use go_dhcpd.Net.{Ip, v4_prefix, is_v4_in_v6, to4, equal}
use go_dhcpd.Net.Print.{ip_string, ip_string_lem, print_ip}

to4_short : (x : Ip) → (length x == 4) ≡ true → to4 x ≡ x
unfolding to4
to4_short x h = rw h refl

to4_long :
    (y : Ip) → (length y == 16) ≡ true → text_eq (take 12 y) v4_prefix ≡ true → to4 y ≡ drop 12 y
unfolding to4 is_v4_in_v6
to4_long y h k = let long : (length y == 4) ≡ false = ground arith in rw (long, h, k) refl

print_v4 :
    (x : Ip) (four : Bytes)
    → (length x == 0) ≡ false
    → (length four == 4) ≡ true
    → (y : Ip) → (length y == 0) ≡ false
    → print_ip x four ≡ print_ip y four
unfolding print_ip
print_v4 x four a b y c = rw (a, b, c) refl

short_long :
    (x y : Ip)
    → (length x == 4) ≡ true
    → (length y == 16) ≡ true
    → text_eq (take 12 y) v4_prefix ≡ true
    → text_eq x (drop 12 y) ≡ true
    → ip_string x ≡ ip_string y
short_long x y a b c d =
    let e : drop 12 y ≡ x = sym ((text_eq_iff x (drop 12 y)).0 d) in
    ip_string_lem x
    ∙ ap (print_ip x) (to4_short x a)
    ∙ print_v4 x x (ground arith) a y (ground arith)
    ∙ ap (print_ip y) (sym (to4_long y b c ∙ e))
    ∙ sym (ip_string_lem y)

and_parts : (a b : Bool) → (a && b) ≡ true → (a ≡ true) × (b ≡ true)
and_parts true true h = (refl, refl)
and_parts true false h = (refl, h)
and_parts false b h = absurd (cc)

-- The two forms of an IPv4 address are one address on paper.
pub equal-ip_string : (x y : Ip) → equal x y ≡ true → ip_string x ≡ ip_string y
unfolding equal
equal-ip_string x y h = elim (Bool-cases (length x == length y)) [
  | inl same ↦ ap ip_string ((text_eq_iff x y).0 (rw same at h))
  | inr differ ↦ elim (Bool-cases ((length x == 4) && (length y == 16))) [
    | inl sl ↦
        let p = and_parts _ _ sl in
        let q = and_parts _ _ (rw (differ, sl) at h) in short_long x y p.0 p.1 q.0 q.1
    | inr nsl ↦ elim (Bool-cases ((length x == 16) && (length y == 4))) [
      | inl ls ↦
          let p = and_parts _ _ ls in
          let q = and_parts _ _ (rw (differ, nsl, ls) at h) in
          sym (
            short_long y x p.1 p.0 q.0
              ((text_eq_iff y (drop 12 x)).1 (sym ((text_eq_iff (drop 12 x) y).0 q.1))))
      | inr nls ↦ absurd (cc (rw (differ, nsl, nls) at h))
    ]
  ]
]
