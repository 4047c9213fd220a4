-- ===== src/Base/Words.antt =====
-- Machine words: wrap-around at 32 and 64 bits, and the little-endian bytes of a number.
use Prim.Native.Nat.{
  ℕ, zero, suc, ◌+◌, ◌-◌, ◌*◌, ◌/◌, ◌%◌, ◌^◌, ◌≤◌, ◌<◌, min, bit_and, digits, bit_and-bitwise,
}
use mathlib.Core.Path.{◌≡◌, refl, sym, ap, ◌∙◌, subst}
use mathlib.Core.List.{List, [], ◌∷◌, ◌++◌}
use native.Mathlib.Nat.{pow-suc, one-le-pow}
use native.Mathlib.Omega.{arith}
use chisai_fs.Base.Division.{place_eq, mod-lt, mod_of_place}
use chisai_fs.Base.Lists.{length, All, take, take_of_length}

-- unsigned int, chisai_size_t
abbrev pub u32 : ℕ → ℕ
u32 n = n % 2 ^ 32

-- unsigned long, size_t
abbrev pub u64 : ℕ → ℕ
u64 n = n % 2 ^ 64

abbrev pub IsByte : ℕ → Type 0
IsByte b = b < 256

abbrev pub IsBytes : List ℕ → Type 0
IsBytes = All IsByte

-- The `k` bytes that hold `n` in memory, lowest first.
unfoldable pub le_bytes : ℕ → ℕ → List ℕ
le_bytes zero n = []
le_bytes (suc k) n = (n % 256) ∷ le_bytes k (n / 256)

unfoldable pub of_bytes : List ℕ → ℕ
of_bytes [] = 0
of_bytes (b ∷ bs) = b + 256 * of_bytes bs

pub length-le_bytes : (k n : ℕ) → length (le_bytes k n) ≡ k
unfolding le_bytes
length-le_bytes zero n = refl
length-le_bytes (suc k) n = ap suc (length-le_bytes k (n / 256))

pub le_bytes-IsBytes : (k n : ℕ) → IsBytes (le_bytes k n)
unfolding le_bytes
le_bytes-IsBytes zero n = tt
le_bytes-IsBytes (suc k) n = (omega arith, le_bytes-IsBytes k (n / 256))

pub of_bytes-le_bytes : (k n : ℕ) → n < 256 ^ k → of_bytes (le_bytes k n) ≡ n
unfolding le_bytes of_bytes
of_bytes-le_bytes zero n h = omega arith
of_bytes-le_bytes (suc k) n h =
    omega (arith, of_bytes-le_bytes k (n / 256) (omega (arith, pow-suc 256 k)))

-- The digits that a number shares with a mask.
unfoldable pub and_digits : ℕ → ℕ → ℕ → ℕ
and_digits n a m = digits (λ b. zero) min n a m

pub and_digits-zero : (n a : ℕ) → and_digits n a 0 ≡ 0
unfolding and_digits
and_digits-zero zero a = refl
and_digits-zero (suc n) zero = refl
and_digits-zero (suc n) (suc a) = omega (arith, and_digits-zero n (suc a / 2))

-- One digit of the mask, over the digits of the half.
and_digits_step :
    (n a m r : ℕ)
    → suc a ≤ suc n
    → and_digits n (suc a / 2) m ≡ r
    → and_digits (suc n) (suc a) (2 * m + 1) ≡ 2 * r + suc a % 2
unfolding and_digits
and_digits_step n a m r h e =
    let half : (2 * m + 1) / 2 ≡ m = omega arith in
    let low : (2 * m + 1) % 2 ≡ 1 = omega arith in rw (half, low, e) (omega arith)

-- The remainder of the half, and the lowest digit.
half_mod : (w a : ℕ) → 1 ≤ w → 2 * (a / 2 % w) + a % 2 ≡ a % (2 * w)
half_mod w a h =
    let whole : a ≡ a / 2 / w * (2 * w) + (2 * (a / 2 % w) + a % 2) =
      omega (arith, place_eq w (a / 2) h) in
    let below = mod-lt w (a / 2) h in
    sym (
      ap (λ (x : ℕ). x % (2 * w)) whole
      ∙ mod_of_place (2 * w) (a / 2 / w) (2 * (a / 2 % w) + a % 2) (omega arith))

-- A mask of `k` ones takes `k` digits.
and_digits-mask : (k n a : ℕ) → a ≤ n → and_digits n a (2 ^ k - 1) ≡ a % 2 ^ k
and_digits-mask zero n a h = and_digits-zero n a ∙ omega arith
and_digits-mask (suc k) zero zero h = unfold and_digits in omega arith
and_digits-mask (suc k) zero (suc a) h = absurd (omega arith)
and_digits-mask (suc k) (suc n) zero h = unfold and_digits in omega arith
and_digits-mask (suc k) (suc n) (suc a) h =
    let double : 2 ^ suc k - 1 ≡ 2 * (2 ^ k - 1) + 1 =
      omega (arith, pow-suc 2 k, one-le-pow k 2 (omega arith)) in
    ap (and_digits (suc n) (suc a)) double
    ∙ and_digits_step n a (2 ^ k - 1) (suc a / 2 % 2 ^ k) h
        (and_digits-mask k n (suc a / 2) (omega arith))
    ∙ half_mod (2 ^ k) (suc a) (one-le-pow k 2 (omega arith))
    ∙ ap (λ (w : ℕ). suc a % w) (omega (arith, pow-suc 2 k))

pub bit_and_mask : (k a : ℕ) → bit_and a (2 ^ k - 1) ≡ a % 2 ^ k
unfolding and_digits
bit_and_mask k a = bit_and-bitwise a (2 ^ k - 1) ∙ and_digits-mask k a a (omega arith)

pub bit_and_seven : (a : ℕ) → bit_and a 7 ≡ a % 8
bit_and_seven = bit_and_mask 3

and_digits_le : (n a b : ℕ) → and_digits n a b ≤ b
unfolding and_digits
and_digits_le zero a b = omega arith
and_digits_le (suc n) zero b = omega arith
and_digits_le (suc n) (suc a) b = ground (arith, and_digits_le n (suc a / 2) (b / 2))

-- The digits that two numbers share make no more than the second.
pub bit_and_le : (a b : ℕ) → bit_and a b ≤ b
unfolding and_digits
bit_and_le a b = subst (λ x. x ≤ b) (sym (bit_and-bitwise a b)) (and_digits_le a a b)

-- A 32-bit field read back from its bytes, with others behind it and alone.
pub word_back : (w : ℕ) (rest : List ℕ) → w < 2 ^ 32 → of_bytes (take 4 (le_bytes 4 w ++ rest)) ≡ w
word_back w rest h =
    ap of_bytes (take_of_length 4 (le_bytes 4 w) rest (length-le_bytes 4 w))
    ∙ of_bytes-le_bytes 4 w h

pub word_alone : (w : ℕ) → w < 2 ^ 32 → of_bytes (take 4 (le_bytes 4 w)) ≡ w
unfolding le_bytes of_bytes
word_alone w h = omega arith
