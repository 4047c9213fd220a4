-- ===== src/Base/Ensures.antt =====
-- What holds of the result of a call that gives one, for a call that does not run out of fuel.
use chisai_fs.Base.{Bool, true, false, ◌≡◌, refl, Option, none, some}
use chisai_fs.Base.Outcome.{
  Outcome, ok, died, aborted, undefined, out_of_fuel, Cmd, and_then, assert, defined, require, lift,
}

-- A result satisfies `P`, and the fuel was enough.
unfoldable pub Ensures : {S A : Type 0} → (A → S → Type 0) → Outcome S A → Type 0
Ensures P (ok a s) = P a s
Ensures P died = Unit
Ensures P aborted = Unit
Ensures P undefined = Unit
Ensures P out_of_fuel = ⊥

-- Nothing about the result but that the fuel was enough.
abbrev pub Halts : {S A : Type 0} → Outcome S A → Type 0
Halts = Ensures (λ _ _. Unit)

module _ {S : Type 0} where
  pub and_then-Ensures :
      {A B : Type 0}
      → {P : A → S → Type 0} → (Q : B → S → Type 0) → (o : Outcome S A) → (k : A → Cmd S B)
      → Ensures P o
      → ((a : A) → (s : S) → P a s → Ensures Q (k a s))
      → Ensures Q (and_then o k)
  unfolding Ensures
  and_then-Ensures Q (ok a s) k h n = n a s h
  and_then-Ensures Q died k h n = tt
  and_then-Ensures Q aborted k h n = tt
  and_then-Ensures Q undefined k h n = tt
  and_then-Ensures Q out_of_fuel k h n = elim h [ ]

  pub pure-Ensures :
      {A : Type 0} → (P : A → S → Type 0) → (a : A) → (s : S) → P a s → Ensures P (ok a s)
  unfolding Ensures
  pure-Ensures P a s h = h

  -- A call on a part of the state.
  pub lift-Halts :
      {T A : Type 0}
      → (part : S → T) → (with_part : S → T → S) → (s : S) → (o : Outcome T A) → Halts o
      → Halts (lift part with_part s o)
  unfolding Ensures
  lift-Halts part with_part s (ok a t) h = tt
  lift-Halts part with_part s died h = tt
  lift-Halts part with_part s aborted h = tt
  lift-Halts part with_part s undefined h = tt
  lift-Halts part with_part s out_of_fuel h = elim h [ ]

  pub defined-Ensures :
      {A : Type 0} → (o : Option A) → (s : S) → Ensures (λ a _. o ≡ some a) (defined o s)
  unfolding Ensures
  defined-Ensures none s = tt
  defined-Ensures (some a) s = refl

  pub require-Ensures : (b : Bool) → (s : S) → Ensures (λ _ _. b ≡ true) (require b s)
  unfolding Ensures
  require-Ensures true s = refl
  require-Ensures false s = tt

  pub assert-Halts : (b : Bool) → (s : S) → Halts (assert b s)
  unfolding Ensures
  assert-Halts true s = tt
  assert-Halts false s = tt
