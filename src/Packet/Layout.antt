-- ===== src/Packet/Layout.antt =====
-- Bytes in the segments of the header of internal/dhcp/packet.go.
use mathlib.Core.List.{append_assoc}
use go_dhcpd.Base.{
  ℕ, ◌+◌, ◌≡◌, sym, ap, ◌∙◌, ◌++◌, arith, drop-drop, length, take, drop, length-append, take-append,
  drop-append, Bytes,
}

pub drop_next :
    (n m : ℕ) (l xs ys : Bytes) → drop n l ≡ xs ++ ys → length xs ≡ m → drop (n + m) l ≡ ys
drop_next n m l xs ys e h = sym (drop-drop n m l) ∙ ap (drop m) e ∙ drop-append m xs ys h

pub slice_at :
    (n m : ℕ) (l xs ys : Bytes) → drop n l ≡ xs ++ ys → length xs ≡ m → take m (drop n l) ≡ xs
slice_at n m l xs ys e h = ap (take m) e ∙ take-append m xs ys h

-- Segments of the fixed lengths of the header, and what follows it.
module _ (a b c d h s f : Bytes) where
  pub record IsLayout : Type 0 where
    pub la : length a ≡ 4
    pub lb : length b ≡ 4
    pub lc : length c ≡ 4
    pub ld : length d ≡ 4
    pub lh : length h ≡ 16
    pub ls : length s ≡ 64
    pub lf : length f ≡ 128

  unfoldable pub layout : Bytes → Bytes
  layout tail = a ++ (b ++ (c ++ (d ++ (h ++ (s ++ (f ++ tail))))))

  module _ (tail : Bytes) (l : IsLayout) where
    pub drop_a : drop 4 (layout tail) ≡ b ++ (c ++ (d ++ (h ++ (s ++ (f ++ tail)))))
    unfolding layout
    drop_a = drop-append 4 a _ l.la

    pub drop_b : drop 8 (layout tail) ≡ c ++ (d ++ (h ++ (s ++ (f ++ tail))))
    drop_b = drop_next 4 4 (layout tail) b _ drop_a l.lb

    pub drop_c : drop 12 (layout tail) ≡ d ++ (h ++ (s ++ (f ++ tail)))
    drop_c = drop_next 8 4 (layout tail) c _ drop_b l.lc

    pub drop_d : drop 16 (layout tail) ≡ h ++ (s ++ (f ++ tail))
    drop_d = drop_next 12 4 (layout tail) d _ drop_c l.ld

    pub drop_h : drop 32 (layout tail) ≡ s ++ (f ++ tail)
    drop_h = drop_next 16 16 (layout tail) h _ drop_d l.lh

    pub drop_s : drop 96 (layout tail) ≡ f ++ tail
    drop_s = drop_next 32 64 (layout tail) s _ drop_h l.ls

    pub drop_f : drop 224 (layout tail) ≡ tail
    drop_f = drop_next 96 128 (layout tail) f _ drop_s l.lf

    pub length-layout : length (layout tail) ≡ 224 + length tail
    unfolding layout
    length-layout = omega (
      arith,
      l.la,
      l.lb,
      l.lc,
      l.ld,
      l.lh,
      l.ls,
      l.lf,
      length-append {0} a (b ++ (c ++ (d ++ (h ++ (s ++ (f ++ tail)))))),
      length-append {0} b (c ++ (d ++ (h ++ (s ++ (f ++ tail))))),
      length-append {0} c (d ++ (h ++ (s ++ (f ++ tail)))),
      length-append {0} d (h ++ (s ++ (f ++ tail))),
      length-append {0} h (s ++ (f ++ tail)),
      length-append {0} s (f ++ tail),
      length-append {0} f tail,
    )

    pub layout-append : (spare : Bytes) → layout tail ++ spare ≡ layout (tail ++ spare)
    unfolding layout
    layout-append spare = simp append_assoc
