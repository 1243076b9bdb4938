-- ===== src/Machine/Halts.antt =====
-- Functions that come back, whatever the calls answer: neither a loop that has run out of rounds nor a
-- process that has ended. A fault counts as an end.
use cominit.Base.{
  ℕ, zero, suc, List, Bytes, Bool, true, false, Option, none, some, if◌then◌else◌, ◌≡◌, refl,
}
use cominit.Base.Run.{
  Run, Outcome, done, failed, hung, fault, after, ◌>>=◌, ◌>>◌, pure, fail, guard, recovered,
  on_fail, or_fail, get, attempted, as_option, finally, closed,
}
use cominit.Machine.{
  Machine, Kernel, RfsMeta, Trace, Call, Answer, ok, err, fork, extern, call, call_out, value,
  written, set_meta,
}

abbrev pub Comes : {A : Type 0} → Outcome Machine A → Type 0
Comes (done a t) = Unit
Comes (failed t) = Unit
Comes (hung t) = ⊥
Comes (fault t) = Unit

pub record Halts {A : Type 0} (f : Run Machine A) : Type 0 where
  pub at : (m : Machine) → Comes (f m)

pub Comes-hung : {A : Type 0} (o : Outcome Machine A) (t : Machine) → Comes o → ¬ (o ≡ hung t)
Comes-hung (done a u) t c h = cc
Comes-hung (failed u) t c h = cc
Comes-hung (hung u) t c h = c
Comes-hung (fault u) t c h = cc

module _ {A : Type 0} where
  pub pure-Halts : (a : A) → Halts (pure a)
  pure-Halts a = record { at = λ m. tt }

  pub fail-Halts : Halts {A = A} fail
  fail-Halts = record { at = λ m. tt }

  pub or_fail-Halts : (o : Option A) → Halts (or_fail o)
  or_fail-Halts none = record { at = λ m. tt }
  or_fail-Halts (some a) = record { at = λ m. tt }

  pub if-Halts : (b : Bool) {f g : Run Machine A} → Halts f → Halts g → Halts (if b then f else g)
  if-Halts true h k = h
  if-Halts false h k = k

pub guard-Halts : (b : Bool) → Halts (guard b)
guard-Halts true = record { at = λ m. tt }
guard-Halts false = record { at = λ m. tt }

pub get-Halts : Halts get
get-Halts = record { at = λ m. tt }

pub set_meta-Halts : (f : RfsMeta → RfsMeta) → Halts (set_meta f)
set_meta-Halts f = record { at = λ m. tt }

pub after-Comes :
    {A B : Type 0} (o : Outcome Machine A) (g : A → Run Machine B)
    → Comes o
    → ((a : A) (u : Machine) → o ≡ done a u → Comes (g a u))
    → Comes (after o g)
after-Comes (done a u) g c k = k a u refl
after-Comes (failed u) g c k = tt
after-Comes (hung u) g c k = c
after-Comes (fault u) g c k = tt

module _ {A B : Type 0} where
  pub >>=-Halts :
      {f : Run Machine A} {g : A → Run Machine B}
      → Halts f
      → ((a : A) → Halts (g a))
      → Halts (f >>= g)
  >>=-Halts {f} {g} h k = record { at = λ m. after-Comes (f m) g (h.at m) λ a u e. (k a).at u }

  pub >>-Halts : {f : Run Machine A} {g : Run Machine B} → Halts f → Halts g → Halts (f >> g)
  >>-Halts {f} {g} h k = record { at = λ m. after-Comes (f m) (λ a. g) (h.at m) λ a u e. k.at u }

  pub recovered-Comes :
      (cleanup : Run Machine B) (o : Outcome Machine A) → Comes o → Comes (recovered cleanup o)
  recovered-Comes cleanup (done a u) c = tt
  recovered-Comes cleanup (failed u) c = tt
  recovered-Comes cleanup (hung u) c = c
  recovered-Comes cleanup (fault u) c = tt

  pub on_fail-Halts :
      (cleanup : Run Machine B) {f : Run Machine A} → Halts f → Halts (on_fail cleanup f)
  on_fail-Halts cleanup {f} h = record { at = λ m. recovered-Comes cleanup (f m) (h.at m) }

module _ (kernel : Kernel) (c : Call) where
  pub extern-Halts : Halts (extern kernel c)
  extern-Halts = record { at = λ m. tt }

  pub call-Halts : Halts (call kernel c)
  call-Halts = >>=-Halts {f = extern kernel c} extern-Halts λ a. or_fail-Halts (value a)

  pub call_out-Halts : Halts (call_out kernel c)
  call_out-Halts = >>=-Halts {f = extern kernel c} extern-Halts λ a. or_fail-Halts (written a)

pub attempted-Halts : {B : Type 0} {f : Run Machine B} → Halts f → Halts (attempted f)
attempted-Halts {B} {f} h = record { at = λ m. go (f m) (h.at m) }
  where
    go : (o : Outcome Machine B) → Comes o → Comes (as_option o)
    go (done a u) c = tt
    go (failed u) c = tt
    go (hung u) c = c
    go (fault u) c = tt

module _ {A : Type 0} where
  pub fault-Halts : Halts {A = A} (λ m. fault m)
  fault-Halts = record { at = λ m. tt }

  pub finally-Halts :
      {B : Type 0} (cleanup : Run Machine B) {f : Run Machine A}
      → Halts f
      → Halts (finally cleanup f)
  finally-Halts cleanup {f} h = record { at = λ m. go (f m) (h.at m) }
    where
      go : (o : Outcome Machine A) → Comes o → Comes (closed cleanup o)
      go (done a u) c = tt
      go (failed u) c = tt
      go (hung u) c = c
      go (fault u) c = tt

  -- By the two answers.
  pub answered-Halts :
      (kernel : Kernel) (c : Call) (g : Answer → Run Machine A)
      → ((n : ℕ) (bytes : Bytes) → Halts (g (ok n bytes)))
      → ((e : ℕ) → Halts (g (err e)))
      → Halts (extern kernel c >>= g)
  answered-Halts kernel c g h k = >>=-Halts {f = extern kernel c} (extern-Halts kernel c) go
    where
      go : (a : Answer) → Halts (g a)
      go (ok n bytes) = h n bytes
      go (err e) = k e

  -- By whether it has failed.
  pub tried-Halts :
      {B : Type 0} {f : Run Machine B} (g : Option B → Run Machine A)
      → Halts f
      → Halts (g none)
      → ((b : B) → Halts (g (some b)))
      → Halts (attempted f >>= g)
  tried-Halts {B} {f} g l h k = >>=-Halts {f = attempted f} (attempted-Halts l) go
    where
      go : (o : Option B) → Halts (g o)
      go none = h
      go (some b) = k b

-- The process that goes on after a fork is the one that is followed.
abbrev pub Parents : Kernel → Type 0
Parents kernel =
    (t : Trace) (path : Bytes) (argv : List Bytes) (bytes : Bytes)
    → ¬ (kernel t (fork path argv) ≡ ok 0 bytes)

pub forked-Halts :
    {B : Type 0} (kernel : Kernel) (path : Bytes) (argv : List Bytes) (g : Answer → Run Machine B)
    → Parents kernel
    → ((pid : ℕ) (bytes : Bytes) → Halts (g (ok (suc pid) bytes)))
    → ((e : ℕ) → Halts (g (err e)))
    → Halts (extern kernel (fork path argv) >>= g)
forked-Halts kernel path argv g parents h k = record {
  at = λ m. go (kernel m.trace (fork path argv)) (parents m.trace path argv) _;
}
  where
    go : (a : Answer) → ((bytes : Bytes) → ¬ (a ≡ ok 0 bytes)) → (m : Machine) → Comes (g a m)
    go (ok zero bytes) never m = absurd (never bytes refl)
    go (ok (suc pid) bytes) never m = (h pid bytes).at m
    go (err e) never m = (k e).at m

pub ruleset halts = (
  answered-Halts, tried-Halts, attempted-Halts, finally-Halts, fault-Halts, pure-Halts, fail-Halts,
  or_fail-Halts, guard-Halts, get-Halts, set_meta-Halts, on_fail-Halts, if-Halts, extern-Halts,
  call-Halts, call_out-Halts, >>=-Halts, >>-Halts,
)
