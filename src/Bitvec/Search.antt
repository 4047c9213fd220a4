-- ===== src/Bitvec/Search.antt =====
-- The two scans of a bitmap, against the bits: `bitvec_count_zeros` and `bitvec_find_first_set`.
use chisai_fs.Base.{
  ℕ, zero, suc, ◌+◌, ◌-◌, ◌*◌, ◌/◌, ◌%◌, ◌^◌, ◌≤◌, ◌<◌, ◌≡◌, refl, ap, ◌∙◌, ◌⊎◌, inl, inr, some,
  List, [], ◌∷◌, arith, ◌==◌, ltb, if◌then◌else◌, IsBytes, length, Bool-cases,
}
use chisai_fs.Bitvec.{
  Bitvec, bitvec_count_zeros, bitvec_find_first_set, count_zeros_loop, find_first_set_loop,
}
use chisai_fs.Bitvec.Byte.{
  bit, zeros, popcount, ffs, popcount-zeros, ffs-clear, ffs-below, ffs-full,
}
use chisai_fs.Bitvec.Laws.{bits_of, bit_at, IsValid}

zeros_ext : (n : ℕ) (f g : ℕ → ℕ) → ((j : ℕ) → j < n → f j ≡ g j) → zeros n f ≡ zeros n g
unfolding zeros
zeros_ext zero f g h = refl
zeros_ext (suc n) f g h =
    omega (arith, zeros_ext n f g (λ j lt. h j (omega arith)), h n (omega arith))

zeros-add : (m n : ℕ) (f : ℕ → ℕ) → zeros (m + n) f ≡ zeros m f + zeros n (λ j. f (m + j))
unfolding zeros
zeros-add m zero f = let e : m + 0 ≡ m = omega arith in rw e (omega arith)
zeros-add m (suc n) f =
    let e : m + suc n ≡ suc (m + n) = omega arith in rw e (omega (arith, zeros-add m n f))

bits_low : (b : ℕ) (bs : List ℕ) (q : ℕ) → q < 8 → bits_of (b ∷ bs) q ≡ bit b q
bits_low b bs q h = let e : q / 8 ≡ 0 = omega arith in let r : q % 8 ≡ q = omega arith in rw (e, r)

bits_high : (b : ℕ) (bs : List ℕ) (j : ℕ) → bits_of (b ∷ bs) (8 + j) ≡ bits_of bs j
bits_high b bs j =
    let e : (8 + j) / 8 ≡ suc (j / 8) = omega arith in
    let r : (8 + j) % 8 ≡ j % 8 = omega arith in rw (e, r)

zeros-cons :
    (b : ℕ) (bs : List ℕ) (n : ℕ)
    → zeros (8 * suc n) (bits_of (b ∷ bs)) ≡ zeros 8 (bit b) + zeros (8 * n) (bits_of bs)
zeros-cons b bs n =
    let e : 8 * suc n ≡ 8 + 8 * n = omega arith in
    let low = zeros_ext 8 (bits_of (b ∷ bs)) (bit b) (bits_low b bs) in
    let high =
      zeros_ext (8 * n) (λ j. bits_of (b ∷ bs) (8 + j)) (bits_of bs) (λ j _. bits_high b bs j) in
    rw e (zeros-add 8 (8 * n) (bits_of (b ∷ bs)) ∙ omega (arith, low, high))

count_zeros_loop-zeros :
    (bs : List ℕ) (sum : ℕ)
    → IsBytes bs
    → count_zeros_loop (length bs) bs sum ≡ some (sum + zeros (8 * length bs) (bits_of bs))
unfolding count_zeros_loop
count_zeros_loop-zeros [] sum h = ap some (unfold zeros in omega arith)
count_zeros_loop-zeros (b ∷ bs) sum h =
    count_zeros_loop-zeros bs (sum + (8 - popcount b)) h.1
    ∙ ap some (omega (arith, popcount-zeros b h.0, zeros-cons b bs (length bs)))

-- On a well-formed bit vector, `bitvec_count_zeros` is the number of clear bits.
pub bitvec_count_zeros-zeros :
    (v : Bitvec) → IsValid v → bitvec_count_zeros v ≡ some (zeros (8 * v.size) (bit_at v))
unfolding bitvec_count_zeros
bitvec_count_zeros-zeros v h =
    rw h.sized (count_zeros_loop-zeros v.inner 0 h.bytes ∙ ap some (omega arith))

-- `r` is 0 if the first `n` bits are all set, and else one plus the index of the first clear one.
abbrev pub FirstClear : ℕ → (ℕ → ℕ) → ℕ → Type 0
FirstClear n f r =
    ((r ≡ 0) × ((j : ℕ) → j < n → f j ≡ 1))
    ⊎ ((1 ≤ r) × (r ≤ n) × (f (r - 1) ≡ 0) × ((j : ℕ) → j < r - 1 → f j ≡ 1))

-- What the loop returns when it has passed `found` bits.
abbrev shifted : ℕ → ℕ → ℕ
shifted found r = if r == 0 then 0 else found + r

shifted_pos : (found r : ℕ) → 1 ≤ r → shifted found r ≡ found + r
shifted_pos found r h = ground arith

-- A full byte in front of set bits.
full_ahead :
    (b : ℕ) (bs : List ℕ) (m : ℕ)
    → ((q : ℕ) → q < 8 → bit b q ≡ 1)
    → ((j : ℕ) → j < m → bits_of bs j ≡ 1)
    → (j : ℕ) → j < 8 + m
    → bits_of (b ∷ bs) j ≡ 1
full_ahead b bs m full all j lt = elim (Bool-cases (ltb j 8)) [
  | inl low ↦ bits_low b bs j (ground arith) ∙ full j (ground arith)
  | inr high ↦
      let e : 8 + (j - 8) ≡ j = ground arith in
      rw e at (bits_high b bs (j - 8) ∙ all (j - 8) (omega arith))
]

FirstClear-cons :
    (b : ℕ) (bs : List ℕ) (n r : ℕ)
    → ((q : ℕ) → q < 8 → bit b q ≡ 1)
    → FirstClear (8 * n) (bits_of bs) r
    → FirstClear (8 * suc n) (bits_of (b ∷ bs)) (shifted 8 r)
FirstClear-cons b bs n r full (inl (e, all)) =
    inl (ground arith, λ j lt. full_ahead b bs (8 * n) full all j (omega arith))
FirstClear-cons b bs n r full (inr (p, q, c, all)) =
    let e : 8 + r - 1 ≡ 8 + (r - 1) = omega arith in
    rw (shifted_pos 8 r p) (
      inr (
        omega arith,
        omega arith,
        rw e (bits_high b bs (r - 1) ∙ c),
        λ j lt. full_ahead b bs (r - 1) full all j (omega arith),
      ))

FirstClear-here :
    (b : ℕ) (bs : List ℕ)
    → IsBytes (b ∷ bs)
    → ffs (2 ^ 32 - 1 - b) < 9
    → FirstClear (8 * suc (length bs)) (bits_of (b ∷ bs)) (ffs (2 ^ 32 - 1 - b))
FirstClear-here b bs h hit =
    let (p, c) = ffs-clear b h.0 hit in
    inr (
      p,
      omega arith,
      bits_low b bs (ffs (2 ^ 32 - 1 - b) - 1) (omega arith) ∙ c,
      λ j lt. bits_low b bs j (omega arith) ∙ ffs-below b h.0 hit j lt,
    )

find_first_set_loop-FirstClear :
    (bs : List ℕ) (found : ℕ)
    → IsBytes bs
    → (r : ℕ) × (find_first_set_loop (length bs) bs found ≡ some (shifted found r))
      × FirstClear (8 * length bs) (bits_of bs) r
unfolding find_first_set_loop
find_first_set_loop-FirstClear [] found h = (0, refl, inl (refl, λ j lt. absurd (omega arith)))
find_first_set_loop-FirstClear (b ∷ bs) found h = elim (Bool-cases (ltb (ffs (2 ^ 32 - 1 - b)) 9)) [
  | inl hit ↦
      let here = FirstClear-here b bs h (ground arith) in
      let (p, _) = ffs-clear b h.0 (ground arith) in
      (ffs (2 ^ 32 - 1 - b), rw (hit, shifted_pos found (ffs (2 ^ 32 - 1 - b)) p), here)
  | inr miss ↦
      let (r, returns, first) = find_first_set_loop-FirstClear bs (found + 8) h.1 in
      (
        shifted 8 r,
        rw miss (returns ∙ ap some (ground arith)),
        FirstClear-cons b bs (length bs) r (ffs-full b h.0 (ground arith)) first,
      )
]

-- On a well-formed bit vector, `bitvec_find_first_set` is one plus the index of the first clear bit, and 0 if all are set.
pub bitvec_find_first_set-FirstClear :
    (v : Bitvec)
    → IsValid v
    → (r : ℕ) × (bitvec_find_first_set v ≡ some r) × FirstClear (8 * v.size) (bit_at v) r
unfolding bitvec_find_first_set
bitvec_find_first_set-FirstClear v h =
    let (r, returns, first) = find_first_set_loop-FirstClear v.inner 0 h.bytes in
    (r, rw h.sized (returns ∙ ap some (ground arith)), rw h.sized first)

pub zeros-le : (n : ℕ) (f : ℕ → ℕ) → zeros n f ≤ n
unfolding zeros
zeros-le zero f = omega arith
zeros-le (suc n) f = omega (arith, zeros-le n f)

pub zeros_full : (n : ℕ) (f : ℕ → ℕ) → ((j : ℕ) → j < n → f j ≡ 1) → zeros n f ≡ 0
unfolding zeros
zeros_full zero f h = refl
zeros_full (suc n) f h =
    omega (arith, zeros_full n f (λ j lt. h j (omega arith)), h n (omega arith))

pub full_of_zeros : (n : ℕ) (f : ℕ → ℕ) → zeros n f ≡ 0 → (j : ℕ) → j < n → 1 ≤ f j
unfolding zeros
full_of_zeros zero f h j lt = absurd (omega arith)
full_of_zeros (suc n) f h j lt = elim (Bool-cases (j == n)) [
  | inl last ↦ let e : j ≡ n = ground arith in rw e (omega arith)
  | inr below ↦ full_of_zeros n f (omega arith) j (ground arith)
]

pub some_zero : (n : ℕ) (f : ℕ → ℕ) (b : ℕ) → b < n → f b ≡ 0 → 1 ≤ zeros n f
some_zero n f b lt c = elim (Bool-cases (zeros n f == 0)) [
  | inl none_left ↦ absurd (omega (arith, full_of_zeros n f (ground arith) b lt))
  | inr more ↦ ground arith
]
