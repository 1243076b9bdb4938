-- ===== src/Machine/Frame.antt =====
-- What a function may do to the machine, as a relation between the machine before and after it that
-- goes through all its calls and all its outcomes.
pub mod Added
use cominit.Base.{
  ℕ, zero, suc, Bool, true, false, Option, none, some, [], ◌∷◌, ◌++◌, ◌≡◌, refl, sym, ap, ◌∙◌,
  append_assoc, Bytes, if◌then◌else◌, All, All-append,
}
use cominit.Base.Run.{
  Run, Outcome, done, failed, hung, fault, after, ◌>>=◌, ◌>>◌, pure, fail, guard, state, recovered,
  on_fail, or_fail, attempted, as_option, closed, finally, get,
}
use cominit.Machine.{
  Machine, Kernel, Call, Answer, Trace, ok, err, fork, mount, unlink, rmdir, munlock, free_secret,
  extern, call, call_out, value, written,
}

-- A relation with the calls that it allows.
pub record Frame : Type 1 where
  pub rel : Machine → Machine → Type 0
  pub same : (m : Machine) → rel m m
  pub through : (l m n : Machine) → rel l m → rel m n → rel l n
  pub allows : Call → Bool
  pub called :
      (c : Call) (a : Answer) (m : Machine)
      → allows c ≡ true
      → rel m (record m { trace = (c, a) ∷ m.trace })

-- From any machine, whatever the outcome is.
pub record Respects {A : Type 0} (frame : Frame) (f : Run Machine A) : Type 0 where
  pub at : (m : Machine) → frame.rel m (state (f m))

-- Calls that neither start a program, nor mount something, nor remove a file, nor give a buffer for a key
-- back.
abbrev pub is_quiet : Call → Bool
is_quiet (fork path argv) = false
is_quiet (mount source target fs_type flags) = false
is_quiet (unlink path) = false
is_quiet (rmdir path) = false
is_quiet (munlock buf) = false
is_quiet (free_secret buf) = false
is_quiet _ = true

abbrev pub Quiet : Frame → Type 0
Quiet frame = (c : Call) → is_quiet c ≡ true → frame.allows c ≡ true

abbrev pub GivesBack : Frame → Type 0
GivesBack frame =
    (buf : Bytes) → (frame.allows (munlock buf) ≡ true) × (frame.allows (free_secret buf) ≡ true)

module _ (frame : Frame) where
  pub pure-Respects : {A : Type 0} (a : A) → Respects frame (pure a)
  pure-Respects a = record { at = λ m. frame.same m }

  pub fail-Respects : {A : Type 0} → Respects {A = A} frame fail
  fail-Respects = record { at = λ m. frame.same m }

  pub hung-Respects : {A : Type 0} → Respects {A = A} frame (λ m. hung m)
  hung-Respects = record { at = λ m. frame.same m }

  pub fault-Respects : {A : Type 0} → Respects {A = A} frame (λ m. fault m)
  fault-Respects = record { at = λ m. frame.same m }

  pub guard-Respects : (b : Bool) → Respects frame (guard b)
  guard-Respects true = record { at = λ m. frame.same m }
  guard-Respects false = record { at = λ m. frame.same m }

  pub or_fail-Respects : {A : Type 0} (o : Option A) → Respects frame (or_fail o)
  or_fail-Respects none = record { at = λ m. frame.same m }
  or_fail-Respects (some a) = record { at = λ m. frame.same m }

  pub get-Respects : Respects frame get
  get-Respects = record { at = λ m. frame.same m }

  after-rel :
      {A B : Type 0} (l : Machine) (o : Outcome Machine A) (f : A → Run Machine B)
      → frame.rel l (state o)
      → ((a : A) → Respects frame (f a))
      → frame.rel l (state (after o f))
  after-rel l (done a m) f h k = frame.through l m _ h ((k a).at m)
  after-rel l (failed m) f h k = h
  after-rel l (hung m) f h k = h
  after-rel l (fault m) f h k = h

  pub >>=-Respects :
      {A B : Type 0} {f : Run Machine A} {g : A → Run Machine B}
      → Respects frame f
      → ((a : A) → Respects frame (g a))
      → Respects frame (f >>= g)
  >>=-Respects {f = f} {g} h k = record { at = λ m. after-rel m (f m) g (h.at m) k }

  -- A step whose results are known to be of a kind.
  pub >>=-Respects-when :
      {A B : Type 0} (P : A → Type 0) (f : Run Machine A) {g : A → Run Machine B}
      → Respects frame f
      → ((m t : Machine) (a : A) → f m ≡ done a t → P a)
      → ((a : A) → P a → Respects frame (g a))
      → Respects frame (f >>= g)
  >>=-Respects-when {A} {B} P f {g} h p k = record { at = λ m. go m (f m) (h.at m) (p m) }
    where
      go :
          (l : Machine) (o : Outcome Machine A)
          → frame.rel l (state o)
          → ((t : Machine) (a : A) → o ≡ done a t → P a)
          → frame.rel l (state (after o g))
      go l (done a m) r p = frame.through l m _ r ((k a (p m a refl)).at m)
      go l (failed m) r p = r
      go l (hung m) r p = r
      go l (fault m) r p = r

  pub >>-Respects :
      {A B : Type 0} {f : Run Machine A} {g : Run Machine B}
      → Respects frame f
      → Respects frame g
      → Respects frame (f >> g)
  >>-Respects {f = f} {g} h k = record { at = λ m. after-rel m (f m) (λ a. g) (h.at m) (λ a. k) }

  as_option-rel :
      {A : Type 0} (l : Machine) (o : Outcome Machine A)
      → frame.rel l (state o)
      → frame.rel l (state (as_option o))
  as_option-rel l (done a m) h = h
  as_option-rel l (failed m) h = h
  as_option-rel l (hung m) h = h
  as_option-rel l (fault m) h = h

  pub attempted-Respects :
      {A : Type 0} {f : Run Machine A} → Respects frame f → Respects frame (attempted f)
  attempted-Respects {f = f} h = record { at = λ m. as_option-rel m (f m) (h.at m) }

  recovered-rel :
      {A B : Type 0} (l : Machine) (cleanup : Run Machine B) (o : Outcome Machine A)
      → Respects frame cleanup
      → frame.rel l (state o)
      → frame.rel l (state (recovered cleanup o))
  recovered-rel l cleanup (done a m) c h = h
  recovered-rel l cleanup (failed m) c h = frame.through l m _ h (c.at m)
  recovered-rel l cleanup (hung m) c h = h
  recovered-rel l cleanup (fault m) c h = h

  pub on_fail-Respects :
      {A B : Type 0} {cleanup : Run Machine B} {f : Run Machine A}
      → Respects frame cleanup
      → Respects frame f
      → Respects frame (on_fail cleanup f)
  on_fail-Respects {cleanup = cleanup} {f} c h = record {
    at = λ m. recovered-rel m cleanup (f m) c (h.at m);
  }

  closed-rel :
      {A B : Type 0} (l : Machine) (cleanup : Run Machine B) (o : Outcome Machine A)
      → Respects frame cleanup
      → frame.rel l (state o)
      → frame.rel l (state (closed cleanup o))
  closed-rel l cleanup (done a m) c h = frame.through l m _ h (c.at m)
  closed-rel l cleanup (failed m) c h = frame.through l m _ h (c.at m)
  closed-rel l cleanup (hung m) c h = h
  closed-rel l cleanup (fault m) c h = h

  pub finally-Respects :
      {A B : Type 0} {cleanup : Run Machine B} {f : Run Machine A}
      → Respects frame cleanup
      → Respects frame f
      → Respects frame (finally cleanup f)
  finally-Respects {cleanup = cleanup} {f} c h = record {
    at = λ m. closed-rel m cleanup (f m) c (h.at m);
  }

  pub if-Respects :
      {A : Type 0} (b : Bool) {f g : Run Machine A}
      → Respects frame f
      → Respects frame g
      → Respects frame (if b then f else g)
  if-Respects true h k = h
  if-Respects false h k = k

  module _ (kernel : Kernel) (c : Call) (allowed : frame.allows c ≡ true) where
    pub extern-Respects : Respects frame (extern kernel c)
    extern-Respects = record { at = λ m. frame.called c (kernel m.trace c) m allowed }

    pub call-Respects : Respects frame (call kernel c)
    call-Respects =
        >>=-Respects {f = extern kernel c} extern-Respects (λ a. or_fail-Respects (value a))

    pub call_out-Respects : Respects frame (call_out kernel c)
    call_out-Respects =
        >>=-Respects {f = extern kernel c} extern-Respects (λ a. or_fail-Respects (written a))

  -- By the two answers.
  pub answered-Respects :
      {B : Type 0} (g : Answer → Run Machine B) (kernel : Kernel) (c : Call)
      → frame.allows c ≡ true
      → ((n : ℕ) (bytes : Bytes) → Respects frame (g (ok n bytes)))
      → ((e : ℕ) → Respects frame (g (err e)))
      → Respects frame (extern kernel c >>= g)
  answered-Respects g kernel c allowed h k =
      >>=-Respects {f = extern kernel c} (extern-Respects kernel c allowed) go
    where
      go : (a : Answer) → Respects frame (g a)
      go (ok n bytes) = h n bytes
      go (err e) = k e

  -- By the two sides of a fork, and its error.
  pub forked-Respects :
      {B : Type 0} (g : Answer → Run Machine B) (kernel : Kernel) (c : Call)
      → frame.allows c ≡ true
      → ((bytes : Bytes) → Respects frame (g (ok 0 bytes)))
      → ((n : ℕ) (bytes : Bytes) → Respects frame (g (ok (suc n) bytes)))
      → ((e : ℕ) → Respects frame (g (err e)))
      → Respects frame (extern kernel c >>= g)
  forked-Respects {B} g kernel c allowed h i k = answered-Respects g kernel c allowed go k
    where
      go : (n : ℕ) (bytes : Bytes) → Respects frame (g (ok n bytes))
      go zero bytes = h bytes
      go (suc n) bytes = i n bytes

  -- By whether it has failed.
  pub tried-Respects :
      {A B : Type 0} {f : Run Machine A} (g : Option A → Run Machine B)
      → Respects frame f
      → Respects frame (g none)
      → ((a : A) → Respects frame (g (some a)))
      → Respects frame (attempted f >>= g)
  tried-Respects {A} {f = f} g r h k = >>=-Respects {f = attempted f} (attempted-Respects r) go
    where
      go : (o : Option A) → Respects frame (g o)
      go none = h
      go (some a) = k a

pub ruleset respects = (
  answered-Respects, tried-Respects, pure-Respects, fail-Respects, hung-Respects, fault-Respects,
  guard-Respects, or_fail-Respects, get-Respects, >>=-Respects, >>-Respects, attempted-Respects,
  on_fail-Respects, finally-Respects, if-Respects, extern-Respects, call-Respects,
  call_out-Respects,
)

-- Of functions that make no call, except by their parts.
pub ruleset parses = (or_fail-Respects, guard-Respects, get-Respects, >>-Respects, >>=-Respects)
