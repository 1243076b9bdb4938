-- ===== src/Base/Run/Safety.antt =====
-- Steps that return, with or without success, and keep an invariant of the state.
use mathlib.Core.Path.{◌≡◌, refl}
use mathlib.Core.Option.{Option, none, some}
use mathlib.Core.Bool.{Bool, true, false}
use cominit.Base.Run.{
  Outcome, done, failed, hung, fault, Run, after, ◌>>=◌, or_fail, guard, state, recovered,
}

-- The function has returned, in a state with the property.
abbrev pub Safe : {S A : Type 0} → (S → Type 0) → Outcome S A → Type 0
Safe P (done a s) = P s
Safe P (failed s) = P s
Safe P (hung s) = ⊥
Safe P (fault s) = ⊥

module _ {S : Type 0} (P : S → Type 0) {A B : Type 0} where
  -- What follows may use that the first step returned its result.
  pub after-Safe :
      (o : Outcome S A) (f : A → Run S B)
      → Safe P o
      → ((a : A) (t : S) → o ≡ done a t → P t → Safe P (f a t))
      → Safe P (after o f)
  after-Safe (done a t) f h k = k a t refl h
  after-Safe (failed t) f h k = h
  after-Safe (hung t) f h k = h
  after-Safe (fault t) f h k = h

  pub or_fail-Safe :
      (o : Option A) (f : A → Run S B) {s : S}
      → P s
      → ((a : A) → o ≡ some a → Safe P (f a s))
      → Safe P ((or_fail o >>= f) s)
  or_fail-Safe none f h k = h
  or_fail-Safe (some a) f h k = k a refl

  pub recovered-Safe :
      (cleanup : Run S B) (o : Outcome S A)
      → Safe P o
      → ((t : S) → P t → P (state (cleanup t)))
      → Safe P (recovered cleanup o)
  recovered-Safe cleanup (done a t) h k = h
  recovered-Safe cleanup (failed t) h k = k t h
  recovered-Safe cleanup (hung t) h k = h
  recovered-Safe cleanup (fault t) h k = h

pub guard-Safe :
    {S : Type 0} (P : S → Type 0) {B : Type 0} (b : Bool) (f : Unit {0} → Run S B) {s : S}
    → P s
    → (b ≡ true → Safe P (f tt s))
    → Safe P ((guard b >>= f) s)
guard-Safe P true f h k = k refl
guard-Safe P false f h k = h

-- A check that ends a function.
pub guard_last-Safe : {S : Type 0} (P : S → Type 0) (b : Bool) {s : S} → P s → Safe P (guard b s)
guard_last-Safe P true h = h
guard_last-Safe P false h = h

pub state-Safe : {S A : Type 0} (P : S → Type 0) (o : Outcome S A) → Safe P o → P (state o)
state-Safe P (done a s) h = h
state-Safe P (failed s) h = h
state-Safe P (hung s) h = absurd h
state-Safe P (fault s) h = absurd h
