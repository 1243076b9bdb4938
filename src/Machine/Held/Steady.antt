-- ===== src/Machine/Held/Steady.antt =====
-- Steps that do not fail, also while something is held.
use cominit.Base.{
  ℕ, Bool, true, false, List, [], ◌++◌, Option, none, some, Bytes, ◌≡◌, refl, ◌∙◌, if◌then◌else◌,
}
use cominit.Base.Run.{
  Run, Outcome, done, failed, hung, fault, after, ◌>>=◌, pure, attempted, as_option,
}
use cominit.Machine.{Machine, Kernel, Call, Answer, ok, err, extern}
use cominit.Machine.Held.{Resource, gained, held}
use cominit.Machine.Held.Balance.{Leaves, Releases, Stays, Steady, Keeping}
use cominit.Machine.Held.Calls.{plain-Steady}

module _ {A : Type 0} where
  pub pure-Steady : (a : A) → Steady (pure a)
  pure-Steady a = record { at = λ m. refl }

  pub hung-Steady : Steady {A = A} (λ m. hung m)
  hung-Steady = record { at = λ m. tt }

  pub fault-Steady : Steady {A = A} (λ m. fault m)
  fault-Steady = record { at = λ m. tt }

  pub if-Steady :
      (b : Bool) {f g : Run Machine A} → Steady f → Steady g → Steady (if b then f else g)
  if-Steady true h k = h
  if-Steady false h k = k

  pub attempted-Steady : {f : Run Machine A} → Releases [] f → Steady (attempted f)
  attempted-Steady {f} k = record { at = λ m. go (held m.trace) (f m) (k.at m _ refl) }
    where
      go : (h : List Resource) (o : Outcome Machine A) → Leaves h o → Stays h (as_option o)
      go h (done a t) e = e
      go h (failed t) e = e
      go h (hung t) e = tt
      go h (fault t) e = tt

  pub Steady-Releases : {f : Run Machine A} → Steady f → Releases [] f
  Steady-Releases {f} k = record { at = λ m h e. go h (held m.trace) (f m) e (k.at m) }
    where
      go : (h old : List Resource) (o : Outcome Machine A) → old ≡ h → Stays old o → Leaves h o
      go h old (done a t) e s = s ∙ e
      go h old (failed t) e s = absurd s
      go h old (hung t) e s = tt
      go h old (fault t) e s = tt

module _ {A B : Type 0} where
  -- Also while something is held.
  pub >>=-Steady :
      (f : Run Machine A) {g : A → Run Machine B} {rs : List Resource}
      → Steady f
      → ((a : A) → Releases rs (g a))
      → Releases rs (f >>= g)
  >>=-Steady f {g} {rs} s k = record { at = λ m h e. go h (f m) (held m.trace) e (s.at m) }
    where
      go :
          (h : List Resource) (o : Outcome Machine A) (old : List Resource)
          → old ≡ rs ++ h
          → Stays old o
          → Leaves h (after o g)
      go h (done a t) old e s = (k a).at t h (s ∙ e)
      go h (failed t) old e s = absurd s
      go h (hung t) old e s = tt
      go h (fault t) old e s = tt

  pub Steady->>= :
      {f : Run Machine A} {g : A → Run Machine B}
      → Steady f
      → ((a : A) → Steady (g a))
      → Steady (f >>= g)
  Steady->>= {f} {g} s k = record { at = λ m. go (held m.trace) (f m) (s.at m) }
    where
      go : (h : List Resource) (o : Outcome Machine A) → Stays h o → Stays h (after o g)
      go h (done a t) e = rw e at ((k a).at t)
      go h (failed t) e = e
      go h (hung t) e = tt
      go h (fault t) e = tt

-- By whether it has failed.
pub tried-Releases :
    {A B : Type 0} {f : Run Machine A} (g : Option A → Run Machine B) {rs : List Resource}
    → Releases [] f
    → Releases rs (g none)
    → ((a : A) → Releases rs (g (some a)))
    → Releases rs (attempted f >>= g)
tried-Releases {A} {f = f} g {rs} l h k = >>=-Steady (attempted f) (attempted-Steady l) go
  where
    go : (o : Option A) → Releases rs (g o)
    go none = h
    go (some a) = k a

pub tried-Steady :
    {A B : Type 0} {f : Run Machine A} (g : Option A → Run Machine B)
    → Releases [] f
    → Steady (g none)
    → ((a : A) → Steady (g (some a)))
    → Steady (attempted f >>= g)
tried-Steady {A} {f = f} g l h k = Steady->>= {f = attempted f} (attempted-Steady l) go
  where
    go : (o : Option A) → Steady (g o)
    go none = h
    go (some a) = k a

pub answered-Steady :
    {B : Type 0} (kernel : Kernel) (c : Call) (g : Answer → Run Machine B)
    → Keeping c
    → ((a : Answer) → gained c a ≡ [])
    → ((n : ℕ) (bytes : Bytes) → Steady (g (ok n bytes)))
    → ((e : ℕ) → Steady (g (err e)))
    → Steady (extern kernel c >>= g)
answered-Steady kernel c g keeping plain h k =
    Steady->>= {f = extern kernel c} (plain-Steady kernel c keeping plain) go
  where
    go : (a : Answer) → Steady (g a)
    go (ok n bytes) = h n bytes
    go (err e) = k e
