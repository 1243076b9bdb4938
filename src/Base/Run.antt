-- ===== src/Base/Run.antt =====
-- C functions that return 0 or -1 and write through pointers: a step from a state to an outcome
-- with the state, which a failing function leaves as far as it has got.
pub mod Safety
use mathlib.Core.Path.{◌≡◌, refl}
use mathlib.Core.Option.{Option, none, some}
use mathlib.Core.Bool.{Bool, true, false}

-- `hung` does not come back: a loop that has not ended within its fuel, or a process that has ended
-- or been replaced. `fault` is an access out of bounds.
pub data Outcome {ℓ} (S : Type ℓ) (A : Type ℓ) : Type ℓ where
  done : A → S → Outcome S A
  failed : S → Outcome S A
  hung : S → Outcome S A
  fault : S → Outcome S A

abbrev pub Run {ℓ} : Type ℓ → Type ℓ → Type ℓ
Run S A = S → Outcome S A

-- What follows a step that returns; the other outcomes end the function.
abbrev pub after {ℓ} : {S A B : Type ℓ} → Outcome S A → (A → Run S B) → Outcome S B
after (done a s) f = f a s
after (failed s) f = failed s
after (hung s) f = hung s
after (fault s) f = fault s

module _ {ℓ} {S : Type ℓ} where
  infixl 5 ◌>>=◌ ◌>>◌
  abbrev pub ◌>>=◌ : {A B : Type ℓ} → Run S A → (A → Run S B) → Run S B
  ◌>>=◌ m f s = after (m s) f

  abbrev pub ◌>>◌ : {A B : Type ℓ} → Run S A → Run S B → Run S B
  m >> k = m >>= λ _. k

  abbrev pub pure : {A : Type ℓ} → A → Run S A
  pure a s = done a s

  abbrev pub fail : {A : Type ℓ} → Run S A
  fail s = failed s

  abbrev pub or_fail : {A : Type ℓ} → Option A → Run S A
  or_fail none s = failed s
  or_fail (some a) s = done a s

  -- The state that is left, whatever the outcome.
  abbrev pub state : {A : Type ℓ} → Outcome S A → S
  state (done a s) = s
  state (failed s) = s
  state (hung s) = s
  state (fault s) = s

  abbrev pub get : Run S S
  get s = done s s

  abbrev pub recovered : {A B : Type ℓ} → Run S B → Outcome S A → Outcome S A
  recovered cleanup (done a s) = done a s
  recovered cleanup (failed s) = failed (state (cleanup s))
  recovered cleanup (hung s) = hung s
  recovered cleanup (fault s) = fault s

  -- `if (m() == -1) { cleanup(); return -1; }`
  abbrev pub on_fail : {A B : Type ℓ} → Run S B → Run S A → Run S A
  on_fail cleanup m s = recovered cleanup (m s)

  -- `result = m(); if (result != EXIT_SUCCESS) …`: the failure as a value.
  abbrev pub as_option : {A : Type ℓ} → Outcome S A → Outcome S (Option A)
  as_option (done a s) = done (some a) s
  as_option (failed s) = done none s
  as_option (hung s) = hung s
  as_option (fault s) = fault s

  abbrev pub attempted : {A : Type ℓ} → Run S A → Run S (Option A)
  attempted m s = as_option (m s)

  -- What runs at the end of a function, whether it has failed or not.
  abbrev pub closed : {A B : Type ℓ} → Run S B → Outcome S A → Outcome S A
  closed cleanup (done a s) = done a (state (cleanup s))
  closed cleanup (failed s) = failed (state (cleanup s))
  closed cleanup (hung s) = hung s
  closed cleanup (fault s) = fault s

  abbrev pub finally : {A B : Type ℓ} → Run S B → Run S A → Run S A
  finally cleanup m s = closed cleanup (m s)

abbrev pub guard : {S : Type 0} → Bool → Run S (Unit {0})
guard true s = done tt s
guard false s = failed s

abbrev pub modify : {S : Type 0} → (S → S) → Run S (Unit {0})
modify f s = done tt (f s)

module _ {ℓ} {S A B : Type ℓ} where
  after-eq-done :
      (o : Outcome S A) (f : A → Run S B) {b : B} {t : S}
      → after o f ≡ done b t
      → (a : A) × (u : S) × (o ≡ done a u) × (f a u ≡ done b t)
  after-eq-done (done a u) f h = (a, u, refl, h)
  after-eq-done (failed u) f h = cc
  after-eq-done (hung u) f h = cc
  after-eq-done (fault u) f h = cc

  -- Inversion of a bind that returns.
  pub >>=-eq-done :
      (m : Run S A) (f : A → Run S B) (s : S) {b : B} {t : S}
      → (m >>= f) s ≡ done b t
      → (a : A) × (u : S) × (m s ≡ done a u) × (f a u ≡ done b t)
  >>=-eq-done m f s h = after-eq-done (m s) f h

module _ {ℓ} {S A B : Type ℓ} where
  pub recovered-eq-done :
      (cleanup : Run S B) (o : Outcome S A) {a : A} {t : S}
      → recovered cleanup o ≡ done a t
      → o ≡ done a t
  recovered-eq-done cleanup (done a s) h = h
  recovered-eq-done cleanup (failed s) h = cc
  recovered-eq-done cleanup (hung s) h = cc
  recovered-eq-done cleanup (fault s) h = cc

  pub or_fail-eq-done :
      (o : Option A) (f : A → Run S B) (s : S) {b : B} {t : S}
      → (or_fail o >>= f) s ≡ done b t
      → (a : A) × (o ≡ some a) × (f a s ≡ done b t)
  or_fail-eq-done none f s h = cc
  or_fail-eq-done (some a) f s h = (a, refl, h)

pub guard-eq-done :
    {S B : Type 0} (b : Bool) (f : Unit {0} → Run S B) (s : S) {r : B} {t : S}
    → (guard b >>= f) s ≡ done r t
    → (b ≡ true) × (f tt s ≡ done r t)
guard-eq-done true f s h = (refl, h)
guard-eq-done false f s h = cc
