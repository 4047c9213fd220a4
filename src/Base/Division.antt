-- ===== src/Base/Division.antt =====
-- Division and remainder by a variable: how an index falls into its group and its place there.
use Prim.Native.Nat.{ℕ, ◌+◌, ◌*◌, ◌/◌, ◌%◌, ◌≤◌, ◌<◌}
use mathlib.Core.Path.{◌≡◌, ap, ◌∙◌}
use mathlib.Core.Logic.{inl, inr}
use mathlib.Core.Bool.{false}
use native.Mathlib.Omega.{arith}
use chisai_fs.Base.Tests.{◌==◌, if◌then◌else◌, Bool-cases}

pub div_of_place : (n i b : ℕ) → b < n → (i * n + b) / n ≡ i
div_of_place n i b h = grind arith

pub mod_of_place : (n i b : ℕ) → b < n → (i * n + b) % n ≡ b
mod_of_place n i b h = grind arith

pub div-lt : (n m j : ℕ) → 0 < n → j < m * n → j / n < m
div-lt n m j p h = grind arith

pub place_eq : (n j : ℕ) → 0 < n → j / n * n + j % n ≡ j
place_eq n j p = grind arith

pub mod-lt : (n j : ℕ) → 0 < n → j % n < n
mod-lt n j p = grind arith

pub place-lt : (n m i b : ℕ) → i < m → b < n → i * n + b < m * n
place-lt n m i b p q = grind arith

pub lt_of_div-lt : (n i j : ℕ) → 0 < n → j / n < i → j < i * n
lt_of_div-lt n i j p h = grind arith

pub eq_of_place : (n i b j : ℕ) → 0 < n → i ≡ j / n → b ≡ j % n → i * n + b ≡ j
eq_of_place n i b j p e f = rw (e, f) (place_eq n j p)

-- An index is in a given place exactly if its quotient and its remainder are.
pub place_test :
    (n i b j : ℕ) → 0 < n → b < n → (i * n + b == j) ≡ (if i == j / n then b == j % n else false)
place_test n i b j p h = elim (Bool-cases (i * n + b == j)) [
  | inl here ↦
      let e : j ≡ i * n + b = ground arith in
      rw (e, div_of_place n i b h, mod_of_place n i b h) (ground arith)
  | inr elsewhere ↦ elim (Bool-cases (i == j / n)) [
    | inl same ↦ elim (Bool-cases (b == j % n)) [
      | inl equal ↦ absurd (ground (arith, eq_of_place n i b j p))
      | inr differ ↦ rw (elsewhere, same, differ)
    ]
    | inr differ ↦ rw (elsewhere, differ)
  ]
]

pub mul-room : (a i m : ℕ) → i < m → a * i + a ≤ a * m
mul-room a i m h = grind arith

-- Some steps on, within the same piece.
pub place_shift :
    (w p k : ℕ) → 0 < w → p % w + k < w → ((p + k) / w ≡ p / w) × ((p + k) % w ≡ p % w + k)
place_shift w p k h lt =
    let whole : p + k ≡ p / w * w + (p % w + k) = omega (arith, place_eq w p h) in
    (
      ap (λ (x : ℕ). x / w) whole ∙ div_of_place w (p / w) (p % w + k) lt,
      ap (λ (x : ℕ). x % w) whole ∙ mod_of_place w (p / w) (p % w + k) lt,
    )
