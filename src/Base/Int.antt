-- ===== src/Base/Int.antt =====
-- Go's `int`, as far as the configuration uses it: a value, its conversion to an unsigned word.
use Prim.Native.Nat.{ℕ, suc, ◌-◌, ◌*◌, ◌%◌, ◌<◌, ◌≤◌}
use native.Mathlib.Omega.{arith}
use mathlib.Core.Path.{◌≡◌, refl}
use go_dhcpd.Base.Tests.{ltb, lt→ltb, if◌then◌else◌}

-- `negsuc n` is -(n + 1).
pub data ℤ : Type 0 where
  pos : ℕ → ℤ
  negsuc : ℕ → ℤ

abbrev pub pos_part : ℤ → ℕ
pos_part (pos n) = n
pos_part (negsuc n) = 0

abbrev pub neg_part : ℤ → ℕ
neg_part (pos n) = 0
neg_part (negsuc n) = suc n

-- `uintW(v)`, with the modulus 2 ^ W.
abbrev wrap : ℕ → ℤ → ℕ
wrap m (pos n) = n % m
wrap m (negsuc n) = m - 1 - n % m

unfoldable pub uint8 : ℤ → ℕ
uint8 = wrap 256

unfoldable pub uint16 : ℤ → ℕ
uint16 = wrap 65536

unfoldable pub uint32 : ℤ → ℕ
uint32 = wrap 4294967296

pub uint8-lt : (v : ℤ) → uint8 v < 256
unfolding uint8
uint8-lt (pos n) = omega arith
uint8-lt (negsuc n) = omega arith

pub uint16-lt : (v : ℤ) → uint16 v < 65536
unfolding uint16
uint16-lt (pos n) = omega arith
uint16-lt (negsuc n) = omega arith

pub uint32-lt : (v : ℤ) → uint32 v < 4294967296
unfolding uint32
uint32-lt (pos n) = omega arith
uint32-lt (negsuc n) = omega arith

-- The signed value of a 64-bit word.
abbrev signed : ℕ → ℤ
signed n = if ltb n 9223372036854775808 then pos n else negsuc (18446744073709551615 - n)

-- `time.Duration(v) * time.Second`: the product wraps.
unfoldable pub seconds : ℤ → ℤ
seconds v = signed (wrap 18446744073709551616 v * 1000000000 % 18446744073709551616)

pub seconds-pos : (n : ℕ) → n ≤ 9223372036 → seconds (pos n) ≡ pos (n * 1000000000)
unfolding seconds
seconds-pos n h =
    let e : n % 18446744073709551616 * 1000000000 % 18446744073709551616 ≡ n * 1000000000 =
      omega arith in
    rw e (rw (lt→ltb (n * 1000000000) 9223372036854775808 (omega arith)) refl)
