-- ===== src/Base/Macros.antt =====
-- include/utils/minmax.h, include/utils/assert_.h and include/utils/align.h, on numbers. `~` is that
-- of 64 bits, in which `ALIGN_DOWN` is used.
use Prim.Native.Nat.{ℕ, zero, suc, ◌+◌, ◌-◌, ◌*◌, ◌/◌, ◌%◌, ◌^◌, ◌≤◌, ◌<◌, bit_and, bit_and-bitwise}
use Prim.Native.Nat
use mathlib.Core.Path.{◌≡◌, refl, ap, ◌∙◌}
use mathlib.Core.Bool.{not}
use native.Mathlib.Nat.{pow-suc, one-le-pow}
use native.Mathlib.Omega.{arith}
use chisai_fs.Base.Outcome.{Cmd, assert}
use chisai_fs.Base.Tests.{ltb, leb, ◌==◌, if◌then◌else◌}
use chisai_fs.Base.Words.{u64, and_digits}

abbrev pub min : ℕ → ℕ → ℕ
min x y = if ltb x y then x else y

abbrev pub max : ℕ → ℕ → ℕ
max x y = if ltb y x then x else y

module _ {S : Type 0} where
  abbrev pub assert_eq : ℕ → ℕ → Cmd S (Unit {0})
  assert_eq a b = assert (a == b)

  abbrev pub assert_ne : ℕ → ℕ → Cmd S (Unit {0})
  assert_ne a b = assert (not (a == b))

  abbrev pub assert_le : ℕ → ℕ → Cmd S (Unit {0})
  assert_le a b = assert (leb a b)

  abbrev pub assert_ge : ℕ → ℕ → Cmd S (Unit {0})
  assert_ge a b = assert (leb b a)

-- __ALIGN_MASK
unfoldable pub align_mask : ℕ → ℕ → ℕ
align_mask x mask = bit_and (u64 (x + mask)) (2 ^ 64 - 1 - mask)

-- ALIGN_UP, which is __ALIGN
unfoldable pub align_up : ℕ → ℕ → ℕ
align_up x a = align_mask x (a - 1)

unfoldable pub align_down : ℕ → ℕ → ℕ
align_down x a = align_up (u64 (x + 2 ^ 64 - (a - 1))) a

min_bit :
    (b b' : ℕ) → b < 2 → b' < 2 → Prim.Native.Nat.min b b' + Prim.Native.Nat.min b (1 - b') ≡ b
min_bit b b' h h' = omega arith

complement_step :
    (n x m m' : ℕ)
    → and_digits n (suc x / 2) (m / 2) + and_digits n (suc x / 2) (m' / 2) ≡ suc x / 2
    → m' % 2 ≡ 1 - m % 2
    → and_digits (suc n) (suc x) m + and_digits (suc n) (suc x) m' ≡ suc x
unfolding and_digits
complement_step n x m m' below low =
    let digit = min_bit (suc x % 2) (m % 2) (omega arith) (omega arith) in
    rw low (omega (arith, below, digit))

-- The digits under a mask and those under its complement make the number.
and_digits-complement :
    (w n x m : ℕ)
    → x ≤ n
    → x < 2 ^ w
    → m < 2 ^ w
    → and_digits n x m + and_digits n x (2 ^ w - 1 - m) ≡ x
and_digits-complement w zero zero m h p q = unfold and_digits in refl
and_digits-complement w zero (suc x) m h p q = absurd (omega arith)
and_digits-complement w (suc n) zero m h p q = unfold and_digits in refl
and_digits-complement zero (suc n) (suc x) m h p q = absurd (omega arith)
and_digits-complement (suc w) (suc n) (suc x) m h p q =
    let double = pow-suc 2 w in
    let some_power = one-le-pow w 2 (omega arith) in
    let half : (2 ^ suc w - 1 - m) / 2 ≡ 2 ^ w - 1 - m / 2 = omega (arith, double, some_power) in
    let low : (2 ^ suc w - 1 - m) % 2 ≡ 1 - m % 2 = omega (arith, double, some_power) in
    let below =
      and_digits-complement w n (suc x / 2) (m / 2) (omega arith) (omega (arith, double))
        (omega (arith, double)) in
    complement_step n x m (2 ^ suc w - 1 - m)
      (ap (λ y. and_digits n (suc x / 2) (m / 2) + and_digits n (suc x / 2) y) half ∙ below) low

-- The digits of a number under a mask and under its complement make the number.
bit_and-complement :
    (w x m : ℕ) → x < 2 ^ w → m < 2 ^ w → bit_and x m + bit_and x (2 ^ w - 1 - m) ≡ x
unfolding and_digits
bit_and-complement w x m p q =
    ap (λ y. y + bit_and x (2 ^ w - 1 - m)) (bit_and-bitwise x m)
    ∙ ap (λ y. and_digits x x m + y) (bit_and-bitwise x (2 ^ w - 1 - m))
    ∙ and_digits-complement w x x m (omega arith) p q

-- What `ALIGN_DOWN` leaves of a number is what stands under the mask.
pub align_down_rest :
    (x a : ℕ) → 1 ≤ a → a ≤ 2 ^ 64 → u64 (x + 2 ^ 64 - align_down x a) ≡ bit_and (u64 x) (a - 1)
unfolding align_down align_up align_mask
align_down_rest x a some_size narrow =
    let word : u64 (u64 (x + 2 ^ 64 - (a - 1)) + (a - 1)) ≡ u64 x = omega arith in
    let whole = bit_and-complement 64 (u64 x) (a - 1) (omega arith) (omega arith) in
    rw word (omega (arith, whole))
