-- ===== src/Bitvec/Byte.antt =====
-- One byte of a bit vector: the compiler's `__builtin_popcount` and `__builtin_ffs` on 32 bits,
-- and what setting and clearing a bit does to the other bits.
use chisai_fs.Base.{
  ℕ, zero, suc, ◌+◌, ◌-◌, ◌*◌, ◌/◌, ◌%◌, ◌^◌, ◌≤◌, ◌<◌, bit_and, bit_or, ◌≡◌, refl, Bool, ◌&&◌,
  ◌||◌, arith, ==_iff, ◌==◌, ltb, leb, if◌then◌else◌, passes, passes_at,
}

-- Bit `p` of a number.
abbrev pub bit : ℕ → ℕ → ℕ
bit b p = b / 2 ^ p % 2

-- How many of the bits below `n` are clear, for any bit sequence.
unfoldable pub zeros : ℕ → (ℕ → ℕ) → ℕ
zeros zero f = 0
zeros (suc n) f = zeros n f + (1 - f n)

popcount_loop : ℕ → ℕ → ℕ
popcount_loop zero x = 0
popcount_loop (suc n) x = x % 2 + popcount_loop n (x / 2)

-- __builtin_popcount
unfoldable pub popcount : ℕ → ℕ
unfolding popcount_loop
popcount x = popcount_loop 32 x

ffs_loop : ℕ → ℕ → ℕ → ℕ
ffs_loop zero i x = 0
ffs_loop (suc n) i x = let rest = ffs_loop n (i + 1) (x / 2) in if x % 2 == 1 then i else rest

-- __builtin_ffs: one plus the index of the lowest bit that is set, 0 if none is.
unfoldable pub ffs : ℕ → ℕ
unfolding ffs_loop
ffs x = ffs_loop 32 1 x

set_test : ℕ → ℕ → ℕ → Bool
set_test p q b = bit (bit_or b (1 * 2 ^ p) % 2 ^ 8) q == (if p == q then 1 else bit b q)

set_table : passes 8 (λ p. passes 8 (λ q. passes 256 (set_test p q))) ≡ Bool.true
unfolding passes set_test
set_table = refl

reset_test : ℕ → ℕ → ℕ → Bool
reset_test p q b =
    bit (bit_and b (2 ^ 32 - 1 - 1 * 2 ^ p) % 2 ^ 8) q == (if p == q then 0 else bit b q)

reset_table : passes 8 (λ p. passes 8 (λ q. passes 256 (reset_test p q))) ≡ Bool.true
unfolding passes reset_test
reset_table = refl

get_test : ℕ → ℕ → Bool
get_test p b = bit_and (b / 2 ^ p) 1 == bit b p

get_table : passes 8 (λ p. passes 256 (get_test p)) ≡ Bool.true
unfolding passes get_test
get_table = refl

popcount_test : ℕ → Bool
popcount_test b = (8 - popcount b) == zeros 8 (bit b)

popcount_table : passes 256 popcount_test ≡ Bool.true
unfolding passes popcount_test popcount zeros
popcount_table = refl

ffs_test : ℕ → ℕ → Bool
ffs_test q b =
    let t = ffs (2 ^ 32 - 1 - b) in
    if ltb t 9
    then leb 1 t && (bit b (t - 1) == 0 && (leb (t - 1) q || bit b q == 1))
    else bit b q == 1

ffs_table : passes 8 (λ q. passes 256 (ffs_test q)) ≡ Bool.true
unfolding passes ffs_test ffs
ffs_table = refl

-- The tables, as facts about every byte `b` and all positions `p`, `q` in it.
module _ (p q b : ℕ) (hp : p < 8) (hq : q < 8) (small : b < 256) where
  from_table :
      (t : ℕ → ℕ → ℕ → Bool)
      → passes 8 (λ x. passes 8 (λ y. passes 256 (t x y))) ≡ Bool.true
      → t p q b ≡ Bool.true
  from_table t table =
      passes_at 256 (t p q) b
        (passes_at 8 (λ y. passes 256 (t p y)) q
          (passes_at 8 (λ x. passes 8 (λ y. passes 256 (t x y))) p table hp) hq)
        small

  pub bit-set : bit (bit_or b (1 * 2 ^ p) % 2 ^ 8) q ≡ (if p == q then 1 else bit b q)
  unfolding set_test
  bit-set = (==_iff _ _).0 (from_table set_test set_table)

  pub bit-reset :
      bit (bit_and b (2 ^ 32 - 1 - 1 * 2 ^ p) % 2 ^ 8) q ≡ (if p == q then 0 else bit b q)
  unfolding reset_test
  bit-reset = (==_iff _ _).0 (from_table reset_test reset_table)

module _ (b : ℕ) (small : b < 256) where
  pub bit-get : (p : ℕ) → p < 8 → bit_and (b / 2 ^ p) 1 ≡ bit b p
  unfolding get_test
  bit-get p hp = (==_iff _ _).0 (
      passes_at 256 (get_test p) b (passes_at 8 (λ x. passes 256 (get_test x)) p get_table hp)
        small)

  pub popcount-zeros : 8 - popcount b ≡ zeros 8 (bit b)
  unfolding popcount_test
  popcount-zeros = (==_iff _ _).0 (passes_at 256 popcount_test b popcount_table small)

  ffs_tested : (q : ℕ) → q < 8 → ffs_test q b ≡ Bool.true
  ffs_tested q hq =
      passes_at 256 (ffs_test q) b (passes_at 8 (λ x. passes 256 (ffs_test x)) q ffs_table hq) small

  -- Below 9, `ffs` of the complement is one plus the lowest clear bit.
  pub ffs-clear :
      ffs (2 ^ 32 - 1 - b) < 9 → (1 ≤ ffs (2 ^ 32 - 1 - b)) × (bit b (ffs (2 ^ 32 - 1 - b) - 1) ≡ 0)
  unfolding ffs_test
  ffs-clear h = ground (arith, ffs_tested 0 (omega arith))

  pub ffs-below : ffs (2 ^ 32 - 1 - b) < 9 → (q : ℕ) → q < ffs (2 ^ 32 - 1 - b) - 1 → bit b q ≡ 1
  unfolding ffs_test
  ffs-below h q lt = ground (arith, ffs_tested q (omega arith))

  -- Otherwise all eight are set.
  pub ffs-full : 9 ≤ ffs (2 ^ 32 - 1 - b) → (q : ℕ) → q < 8 → bit b q ≡ 1
  unfolding ffs_test
  ffs-full h q hq = ground (arith, ffs_tested q hq)
