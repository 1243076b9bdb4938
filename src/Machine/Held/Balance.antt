-- ===== src/Machine/Held/Balance.antt =====
-- Functions that give back what they hold: rules by which they are put together.
use cominit.Base.{
  ℕ, Bool, true, false, List, [], ◌∷◌, ◌++◌, Option, none, some, ◌≡◌, sym, if◌then◌else◌,
  append_assoc,
}
use cominit.Base.Run.{
  Run, Outcome, done, failed, hung, fault, after, ◌>>=◌, ◌>>◌, pure, fail, guard, state, or_fail,
  get,
}
use cominit.Machine.{Machine, RfsMeta, Call, Answer, err, set_meta}
use cominit.Machine.Held.{Resource, gained, lost, without_all, held, without-head}

-- What is held where a function has come back, with a result or a failure.
abbrev pub Leaves : {A : Type 0} → List Resource → Outcome Machine A → Type 0
Leaves h (done a t) = held t.trace ≡ h
Leaves h (failed t) = held t.trace ≡ h
Leaves h (hung t) = Unit
Leaves h (fault t) = Unit

-- A function that gives back what stands in front of the rest, and all that it gets itself.
pub record Releases {A : Type 0} (rs : List Resource) (f : Run Machine A) : Type 0 where
  pub at : (m : Machine) (h : List Resource) → held m.trace ≡ rs ++ h → Leaves h (f m)

-- A step at the end of a function, whatever its outcome is.
pub record Gives {A : Type 0} (rs : List Resource) (f : Run Machine A) : Type 0 where
  pub at : (m : Machine) (h : List Resource) → held m.trace ≡ rs ++ h → held (state (f m)).trace ≡ h

abbrev pub Stays : {A : Type 0} → List Resource → Outcome Machine A → Type 0
Stays h (done a t) = held t.trace ≡ h
Stays h (failed t) = ⊥
Stays h (hung t) = Unit
Stays h (fault t) = Unit

-- A function that does not fail and leaves what is held as it was.
pub record Steady {A : Type 0} (f : Run Machine A) : Type 0 where
  pub at : (m : Machine) → Stays (held m.trace) (f m)

-- The calls that take nothing back, and those that get nothing when they fail.
abbrev pub Keeping : Call → Type 0
Keeping c = lost c ≡ []

abbrev pub Clean : Call → Type 0
Clean c = (e : ℕ) → gained c (err e) ≡ []

abbrev pub Taking : Call → Resource → Type 0
Taking c r = ((a : Answer) → gained c a ≡ []) × (lost c ≡ r ∷ [])

pub held-Keeping :
    (c : Call) (a : Answer) (m : Machine) (rs h : List Resource)
    → Keeping c
    → held m.trace ≡ rs ++ h
    → held ((c, a) ∷ m.trace) ≡ (gained c a ++ rs) ++ h
unfolding held
held-Keeping c a m rs h k e = rw (k, e, without_all) (sym (append_assoc (gained c a) rs h))

pub held-Taking :
    (c : Call) (a : Answer) (r : Resource) (m : Machine) (rs h : List Resource)
    → Taking c r
    → held m.trace ≡ (r ∷ rs) ++ h
    → held ((c, a) ∷ m.trace) ≡ rs ++ h
unfolding held
held-Taking c a r m rs h (none_gained, taken) e =
    rw (none_gained a, taken, e, without_all) (without-head r (rs ++ h))

module _ {A : Type 0} where
  pub pure-Releases : (a : A) → Releases [] (pure a)
  pure-Releases a = record { at = λ m h e. e }

  pub fail-Releases : Releases {A = A} [] fail
  fail-Releases = record { at = λ m h e. e }

  pub hung-Releases : (rs : List Resource) → Releases {A = A} rs (λ m. hung m)
  hung-Releases rs = record { at = λ m h e. tt }

  pub fault-Releases : (rs : List Resource) → Releases {A = A} rs (λ m. fault m)
  fault-Releases rs = record { at = λ m h e. tt }

  pub or_fail-Releases : (o : Option A) → Releases [] (or_fail o)
  or_fail-Releases none = record { at = λ m h e. e }
  or_fail-Releases (some a) = record { at = λ m h e. e }

  pub if-Releases :
      (b : Bool) {rs : List Resource} {f g : Run Machine A}
      → Releases rs f
      → Releases rs g
      → Releases rs (if b then f else g)
  if-Releases true h k = h
  if-Releases false h k = k

  pub Gives-Releases : (rs : List Resource) {f : Run Machine A} → Gives rs f → Releases rs f
  Gives-Releases rs {f} g = record { at = λ m h e. go h (f m) (g.at m h e) }
    where
      go : (h : List Resource) (o : Outcome Machine A) → held (state o).trace ≡ h → Leaves h o
      go h (done a t) e = e
      go h (failed t) e = e
      go h (hung t) e = tt
      go h (fault t) e = tt

pub guard-Releases : (b : Bool) → Releases [] (guard b)
guard-Releases true = record { at = λ m h e. e }
guard-Releases false = record { at = λ m h e. e }

pub set_meta-Releases : (f : RfsMeta → RfsMeta) → Releases [] (set_meta f)
set_meta-Releases f = record { at = λ m h e. e }

pub after-Leaves :
    {A B : Type 0} (h : List Resource) (o : Outcome Machine A) (g : A → Run Machine B)
    → Leaves h o
    → ((a : A) → Releases [] (g a))
    → Leaves h (after o g)
after-Leaves h (done a t) g l k = (k a).at t h l
after-Leaves h (failed t) g l k = l
after-Leaves h (hung t) g l k = tt
after-Leaves h (fault t) g l k = tt

module _ {A B : Type 0} where
  pub >>=-Releases :
      {f : Run Machine A} {g : A → Run Machine B}
      → Releases [] f
      → ((a : A) → Releases [] (g a))
      → Releases [] (f >>= g)
  >>=-Releases {f} {g} l k = record { at = λ m h e. after-Leaves h (f m) g (l.at m h e) k }

  pub >>-Releases :
      {f : Run Machine A} {g : Run Machine B} → Releases [] f → Releases [] g → Releases [] (f >> g)
  >>-Releases {f} {g} l k = record {
    at = λ m h e. after-Leaves h (f m) (λ a. g) (l.at m h e) (λ a. k);
  }

pub get-Releases :
    {B : Type 0} {g : Machine → Run Machine B}
    → ((m : Machine) → Releases [] (g m))
    → Releases [] (get >>= g)
get-Releases k = record { at = λ m h e. (k m).at m h e }
