-- ===== src/Machine/Returns.antt =====
-- What a function that returns can have returned, whatever machine it ran on.
use cominit.Base.{ℕ, Bool, true, false, Option, none, some, Bytes, ◌∷◌, ◌≡◌, refl, if◌then◌else◌}
use cominit.Base.Run.{
  Run, Outcome, done, failed, hung, fault, ◌>>=◌, pure, or_fail, attempted, as_option, >>=-eq-done,
  closed, finally, guard,
}
use cominit.Machine.{Machine, Kernel, Call, Answer, Trace, ok, err, extern, call_out, written}

pub record Returns {A : Type 0} (P : A → Type 0) (f : Run Machine A) : Type 0 where
  pub at : (m t : Machine) (a : A) → f m ≡ done a t → P a

-- A call that is never answered with an error.
abbrev pub Succeeds : Kernel → Call → Type 0
Succeeds kernel c = (t : Trace) (e : ℕ) → ¬ (kernel t c ≡ err e)

module _ {A : Type 0} (P : A → Type 0) where
  pub pure-Returns : (a : A) → P a → Returns P (pure a)
  pure-Returns a p = record { at = λ m t b h. go m t b h }
    where
      go : (m t : Machine) (b : A) → done a m ≡ done b t → P b
      go m t b h = let same : b ≡ a = cc in rw same p

  pub hung-Returns : Returns P (λ m. hung m)
  hung-Returns = record { at = λ m t a h. cc }

  pub >>=-Returns :
      {B : Type 0} (f : Run Machine B) (g : B → Run Machine A)
      → ((b : B) → Returns P (g b))
      → Returns P (f >>= g)
  >>=-Returns f g h = record {
    at = λ m t a e. let (b, u, _, e1) = >>=-eq-done f g m e in (h b).at u t a e1;
  }

  pub >>=-Returns-when :
      {B : Type 0} (Q : B → Type 0) (f : Run Machine B) (g : B → Run Machine A)
      → Returns Q f
      → ((b : B) → Q b → Returns P (g b))
      → Returns P (f >>= g)
  >>=-Returns-when Q f g q h = record {
    at = λ m t a e. let (b, u, e0, e1) = >>=-eq-done f g m e in (h b (q.at m u b e0)).at u t a e1;
  }

  pub if-Returns :
      (b : Bool) (f g : Run Machine A)
      → (b ≡ true → Returns P f)
      → Returns P g
      → Returns P (if b then f else g)
  if-Returns true f g h k = h refl
  if-Returns false f g h k = k

  -- By the answers that the call can have.
  pub Succeeds-Returns :
      (kernel : Kernel) (c : Call) (g : Answer → Run Machine A)
      → Succeeds kernel c
      → ((n : ℕ) (bytes : Bytes) → Returns P (g (ok n bytes)))
      → Returns P (extern kernel c >>= g)
  Succeeds-Returns kernel c g never h = record {
    at = λ m t a e. go m (kernel m.trace c) (never m.trace) e;
  }
    where
      go :
          (m : Machine) (answer : Answer) {t : Machine} {a : A}
          → ((e : ℕ) → ¬ (answer ≡ err e))
          → g answer (record m { trace = (c, answer) ∷ m.trace }) ≡ done a t
          → P a
      go m (ok n bytes) never e = (h n bytes).at _ _ _ e
      go m (err k) never e = absurd (never k refl)

  pub answered-Returns :
      (kernel : Kernel) (c : Call) (g : Answer → Run Machine A)
      → ((n : ℕ) (bytes : Bytes) → Returns P (g (ok n bytes)))
      → ((e : ℕ) → Returns P (g (err e)))
      → Returns P (extern kernel c >>= g)
  answered-Returns kernel c g h k = >>=-Returns (extern kernel c) g go
    where
      go : (a : Answer) → Returns P (g a)
      go (ok n bytes) = h n bytes
      go (err e) = k e

  pub tried-Returns :
      {B : Type 0} (f : Run Machine B) (g : Option B → Run Machine A)
      → Returns P (g none)
      → ((b : B) → Returns P (g (some b)))
      → Returns P (attempted f >>= g)
  tried-Returns {B} f g h k = >>=-Returns (attempted f) g go
    where
      go : (o : Option B) → Returns P (g o)
      go none = h
      go (some b) = k b

  pub finally-Returns :
      {B : Type 0} (cleanup : Run Machine B) (f : Run Machine A)
      → Returns P f
      → Returns P (finally cleanup f)
  finally-Returns cleanup f h = record { at = λ m t a e. go (f m) (h.at m) a e }
    where
      go :
          (o : Outcome Machine A)
          → ((u : Machine) (b : A) → o ≡ done b u → P b)
          → (a : A) {t : Machine} → closed cleanup o ≡ done a t
          → P a
      go (done b u) k a e = let same : a ≡ b = cc in rw same (k u b refl)
      go (failed u) k a e = cc
      go (hung u) k a e = cc
      go (fault u) k a e = cc

-- A check returns only if it is passed.
pub guard-Returns : (b : Bool) → Returns (λ _. b ≡ true) (guard b)
guard-Returns true = record { at = λ m t a e. refl }
guard-Returns false = record { at = λ m t a e. cc }

-- The result of a call, from its answers.
pub call_out-Returns :
    (P : ℕ × Bytes → Type 0) (kernel : Kernel) (c : Call)
    → ((t : Trace) (n : ℕ) (bytes : Bytes) → kernel t c ≡ ok n bytes → P (n, bytes))
    → Returns P (call_out kernel c)
call_out-Returns P kernel c h = record { at = λ m t p e. go m (kernel m.trace c) (h m.trace) p e }
  where
    go :
        (m : Machine) (a : Answer)
        → ((n : ℕ) (bytes : Bytes) → a ≡ ok n bytes → P (n, bytes))
        → (p : ℕ × Bytes) {t : Machine}
        → or_fail (written a) (record m { trace = (c, a) ∷ m.trace }) ≡ done p t
        → P p
    go m (ok n bytes) k p e = let same : p ≡ (n, bytes) = cc in rw same (k n bytes refl)
    go m (err n) k p e = cc

-- The same of a result that may be missing.
abbrev pub Present : {A : Type 0} → (A → Type 0) → Option A → Type 0
Present P none = Unit
Present P (some a) = P a

pub attempted-Returns :
    {A : Type 0} (P : A → Type 0) (f : Run Machine A)
    → Returns P f
    → Returns (Present P) (attempted f)
attempted-Returns {A} P f h = record { at = λ m t a e. go (f m) (λ b u. h.at m u b) a e }
  where
    go :
        (o : Outcome Machine A)
        → ((b : A) (u : Machine) → o ≡ done b u → P b)
        → (a : Option A) {t : Machine} → as_option o ≡ done a t
        → Present P a
    go (done b u) k a e = let same : a ≡ some b = cc in rw same (k b u refl)
    go (failed u) k a e = let same : a ≡ none = cc in rw same tt
    go (hung u) k a e = cc
    go (fault u) k a e = cc
