-- ===== src/Base/Outcome.antt =====
-- What a call of the program ends in, and the monad of calls over a state.
use mathlib.Core.Bool.{Bool, true, false}
use mathlib.Core.Option.{Option, none, some}

-- `died` is `die`, which exits the process; `aborted` a failed assertion; `undefined` an access
-- outside an array and the like, after which C promises nothing; `out_of_fuel` is a loop that has
-- run through the rounds that the model gives it.
pub data Outcome (S A : Type 0) : Type 0 where
  ok : A → S → Outcome S A
  died : Outcome S A
  aborted : Outcome S A
  undefined : Outcome S A
  out_of_fuel : Outcome S A

abbrev pub Cmd : Type 0 → Type 0 → Type 0
Cmd S A = S → Outcome S A

module _ {S : Type 0} where
  abbrev pub pure : {A : Type 0} → A → Cmd S A
  pure a s = ok a s

  abbrev pub and_then : {A B : Type 0} → Outcome S A → (A → Cmd S B) → Outcome S B
  and_then (ok a s) k = k a s
  and_then died k = died
  and_then aborted k = aborted
  and_then undefined k = undefined
  and_then out_of_fuel k = out_of_fuel

  infixl 5 ◌>>=◌ ◌>>◌
  abbrev pub ◌>>=◌ : {A B : Type 0} → Cmd S A → (A → Cmd S B) → Cmd S B
  ◌>>=◌ m k s = and_then (m s) k

  abbrev pub ◌>>◌ : {B : Type 0} → Cmd S (Unit {0}) → Cmd S B → Cmd S B
  m >> k = m >>= λ _. k

  abbrev pub get : Cmd S S
  get s = ok s s

  abbrev pub put : S → Cmd S (Unit {0})
  put s _ = ok tt s

  -- assert(b), with NDEBUG off
  abbrev pub assert : Bool → Cmd S (Unit {0})
  assert true s = ok tt s
  assert false s = aborted

  abbrev pub defined : {A : Type 0} → Option A → Cmd S A
  defined (some a) s = ok a s
  defined none s = undefined

  -- A failure on which the program calls `die`.
  abbrev pub or_die : {A : Type 0} → Option A → Cmd S A
  or_die (some a) s = ok a s
  or_die none s = died

  -- A condition without which C promises nothing.
  abbrev pub require : Bool → Cmd S (Unit {0})
  require true s = ok tt s
  require false s = undefined

-- A command on a part of the state.
module _ {S T : Type 0} (part : S → T) (with_part : S → T → S) where
  abbrev pub lift : {A : Type 0} → S → Outcome T A → Outcome S A
  lift s (ok a t) = ok a (with_part s t)
  lift s died = died
  lift s aborted = aborted
  lift s undefined = undefined
  lift s out_of_fuel = out_of_fuel

  abbrev pub on : {A : Type 0} → Cmd T A → Cmd S A
  on m s = lift s (m (part s))
