-- ===== src/Base/Arrays.antt =====
-- What stands at an index of a list that has been cut, joined or filled in.
use Prim.Native.Nat.{ℕ, zero, suc, ◌+◌, ◌-◌, ◌≤◌, ◌<◌}
use mathlib.Core.Path.{◌≡◌, refl, ap, ap₂, ◌∙◌}
use mathlib.Core.List.{List, [], ◌∷◌, ◌++◌}
use native.Mathlib.Omega.{arith}
use chisai_fs.Base.Lists.{length, get_or, replicate, take, drop}
use chisai_fs.Base.Tests.{ltb, if◌then◌else◌}

module _ {ℓ} {A : Type ℓ} (d : A) where
  pub get_or-append :
      (xs ys : List A) (i : ℕ)
      → get_or (xs ++ ys) i d
        ≡ (if ltb i (length xs) then get_or xs i d else get_or ys (i - length xs) d)
  get_or-append [] ys i = ground arith
  get_or-append (x ∷ xs) ys zero = ground arith
  get_or-append (x ∷ xs) ys (suc i) = ground (arith, get_or-append xs ys i)

  pub get_or-take : (n : ℕ) (xs : List A) (i : ℕ) → i < n → get_or (take n xs) i d ≡ get_or xs i d
  get_or-take zero xs i h = absurd (omega arith)
  get_or-take (suc n) [] i h = refl
  get_or-take (suc n) (x ∷ xs) zero h = refl
  get_or-take (suc n) (x ∷ xs) (suc i) h = get_or-take n xs i (omega arith)

  pub get_or-drop : (n : ℕ) (xs : List A) (i : ℕ) → get_or (drop n xs) i d ≡ get_or xs (n + i) d
  get_or-drop zero xs i = ap (λ j. get_or xs j d) (omega arith)
  get_or-drop (suc n) [] i = refl
  get_or-drop (suc n) (x ∷ xs) i = get_or-drop n xs i ∙ ap (λ j. get_or (x ∷ xs) j d) next
    where
      next : suc (n + i) ≡ suc n + i
      next = omega arith

  -- Two lists that agree at the first `n` indices, which both have.
  pub take_ext :
      (n : ℕ) (xs ys : List A)
      → n ≤ length xs
      → n ≤ length ys
      → ((i : ℕ) → i < n → get_or xs i d ≡ get_or ys i d)
      → take n xs ≡ take n ys
  take_ext zero xs ys p q h = refl
  take_ext (suc n) [] ys p q h = absurd (omega arith)
  take_ext (suc n) (x ∷ xs) [] p q h = absurd (omega arith)
  take_ext (suc n) (x ∷ xs) (y ∷ ys) p q h =
      ap₂ ◌∷◌ (h 0 (omega arith))
        (take_ext n xs ys (omega arith) (omega arith) (λ i lt. h (suc i) (omega arith)))

  pub get_or-replicate : (n i : ℕ) → get_or (replicate n d) i d ≡ d
  get_or-replicate zero i = refl
  get_or-replicate (suc n) zero = refl
  get_or-replicate (suc n) (suc i) = get_or-replicate n i
