-- ===== src/Machine/Follows.antt =====
-- Runs that follow a diagram of phases: its edges start a program, or are silent.
use cominit.Base.{
  ℕ, true, none, some, List, Bytes, [], ◌∷◌, ◌++◌, ◌≡◌, refl, sym, ap, ◌∙◌, append_assoc,
}
use cominit.Base.Run.{
  Run, Outcome, done, failed, hung, fault, after, state, ◌>>=◌, pure, attempted, as_option,
}
use cominit.Machine.{
  Machine, Kernel, Call, Answer, Trace, ok, err, fork, mount, munlock, free_secret, extern,
}
use cominit.Machine.Frame.{Respects, is_quiet, extern-Respects}
use cominit.Machine.Frame.Added.{adds}
use cominit.Machine.Returns.{Returns, Present}
use cominit.Machine.Way.{
  Diagram, Way, here, starting, joined, preceded, is_start, started, starts_nothing, started-append,
  started-none, started-one,
}

-- What is known of an outcome: the programs that were started are those of a way to a phase, which a
-- result determines.
pub record Ran {A : Type 0} (d : Diagram) (p : d.Phase) (Q : A → d.Phase → Type 0) (m : Machine)
    (o : Outcome Machine A) : Type 0 where
  pub events : Trace
  pub phase : d.Phase
  pub new : (state o).trace ≡ events ++ m.trace
  pub way : Way d p (started events) phase
  pub meets : (a : A) (t : Machine) → o ≡ done a t → Q a phase

pub record Follows {A : Type 0} (d : Diagram) (p : d.Phase) (Q : A → d.Phase → Type 0)
    (f : Run Machine A) : Type 0 where
  pub at : (m : Machine) → Ran d p Q m (f m)

module _ (d : Diagram) where
  Ran-after :
      {A B : Type 0} (p : d.Phase) (Q : A → d.Phase → Type 0) (R : B → d.Phase → Type 0)
      (l : Machine) (o : Outcome Machine A) (g : A → Run Machine B)
      → Ran d p Q l o
      → ((a : A) (q : d.Phase) → Q a q → Follows d q R (g a))
      → Ran d p R l (after o g)
  Ran-after p Q R l (done a m) g r h =
      let next = (h a r.phase (r.meets a m refl)).at m in
      record {
        events = next.events ++ r.events;
        phase = next.phase;
        new =
            next.new
            ∙ ap (λ t. next.events ++ t) r.new
            ∙ sym (append_assoc next.events r.events l.trace);
        way = rw (started-append next.events r.events) (joined r.way next.way);
        meets = next.meets;
      }
  Ran-after p Q R l (failed m) g r h = record {
    events = r.events;
    phase = r.phase;
    new = r.new;
    way = r.way;
    meets = λ b t e. cc;
  }
  Ran-after p Q R l (hung m) g r h = record {
    events = r.events;
    phase = r.phase;
    new = r.new;
    way = r.way;
    meets = λ b t e. cc;
  }
  Ran-after p Q R l (fault m) g r h = record {
    events = r.events;
    phase = r.phase;
    new = r.new;
    way = r.way;
    meets = λ b t e. cc;
  }

  pub >>=-Follows :
      {A B : Type 0} (p : d.Phase) (Q : A → d.Phase → Type 0) (R : B → d.Phase → Type 0)
      (f : Run Machine A) (g : A → Run Machine B)
      → Follows d p Q f
      → ((a : A) (q : d.Phase) → Q a q → Follows d q R (g a))
      → Follows d p R (f >>= g)
  >>=-Follows p Q R f g h k = record { at = λ m. Ran-after p Q R m (f m) g (h.at m) k }

  -- A silent edge before a step.
  pub silent-Follows :
      {A : Type 0} (p q : d.Phase) (Q : A → d.Phase → Type 0) (f : Run Machine A)
      → d.Silent p q
      → Follows d q Q f
      → Follows d p Q f
  silent-Follows p q Q f edge h = record {
    at = λ m.
        let r = h.at m in
        record {
          events = r.events;
          phase = r.phase;
          new = r.new;
          way = preceded edge r.way;
          meets = r.meets;
        };
  }

  -- A step that starts no program stays at its phase.
  pub quiet-Follows :
      {A : Type 0} (p : d.Phase) (P : A → Type 0) (Q : A → d.Phase → Type 0) (f : Run Machine A)
      → Respects (adds starts_nothing) f
      → Returns P f
      → ((a : A) → P a → Q a p)
      → Follows d p Q f
  quiet-Follows p P Q f quiet returns h = record {
    at = λ m.
        let (es, e, hidden) = quiet.at m in
        record {
          events = es;
          phase = p;
          new = e;
          way = rw (started-none es hidden) here;
          meets = λ a t k. h a (returns.at m t a k);
        };
  }

  Ran-as_option :
      {A : Type 0} (p : d.Phase) (Q : A → d.Phase → Type 0) (l : Machine) (o : Outcome Machine A)
      → Ran d p Q l o
      → Ran d p (λ x q. Present (λ a. Q a q) x) l (as_option o)
  Ran-as_option {A} p Q l (done a m) r = record {
    events = r.events;
    phase = r.phase;
    new = r.new;
    way = r.way;
    meets = λ x t e. let same : x ≡ some a = cc in rw same (r.meets a m refl);
  }
  Ran-as_option p Q l (failed m) r = record {
    events = r.events;
    phase = r.phase;
    new = r.new;
    way = r.way;
    meets = λ x t e. let same : x ≡ none = cc in rw same tt;
  }
  Ran-as_option p Q l (hung m) r = record {
    events = r.events;
    phase = r.phase;
    new = r.new;
    way = r.way;
    meets = λ x t e. cc;
  }
  Ran-as_option p Q l (fault m) r = record {
    events = r.events;
    phase = r.phase;
    new = r.new;
    way = r.way;
    meets = λ x t e. cc;
  }

  pub attempted-Follows :
      {A : Type 0} (p : d.Phase) (Q : A → d.Phase → Type 0) (f : Run Machine A)
      → Follows d p Q f
      → Follows d p (λ x q. Present (λ a. Q a q) x) (attempted f)
  attempted-Follows p Q f h = record { at = λ m. Ran-as_option p Q m (f m) (h.at m) }

  -- The call that starts a program.
  pub start-Follows :
      (p q : d.Phase) (kernel : Kernel) (c : Call)
      → is_start c ≡ true
      → d.Starts p c q
      → Follows d p (λ _ r. r ≡ q) (extern kernel c)
  start-Follows p q kernel c h edge = record {
    at = λ m. record {
      events = (c, kernel m.trace c) ∷ [];
      phase = q;
      new = refl;
      way = rw (started-one c (kernel m.trace c) h) (starting here edge);
      meets = λ a t e. refl;
    };
  }

  pub pure-Follows :
      {A : Type 0} (p : d.Phase) (Q : A → d.Phase → Type 0) (a : A) → Q a p → Follows d p Q (pure a)
  unfolding started
  pure-Follows p Q a h = record {
    at = λ m. record {
      events = [];
      phase = p;
      new = refl;
      way = here;
      meets = λ b t e. let same : b ≡ a = cc in rw same h;
    };
  }

  -- Steps that start no program, and a step that leads to a known phase.
  pub quietly :
      {A B : Type 0} (p : d.Phase) (R : B → d.Phase → Type 0) (P : A → Type 0) (f : Run Machine A)
      (g : A → Run Machine B)
      → Respects (adds starts_nothing) f
      → Returns P f
      → ((a : A) → P a → Follows d p R (g a))
      → Follows d p R (f >>= g)
  quietly p R P f g quiet returns h =
      >>=-Follows p (λ a q. P a × (q ≡ p)) R f g
        (quiet-Follows p P _ f quiet returns (λ a k. (k, refl))) λ a q (k, e). rw e (h a k)

  pub leads :
      {A B : Type 0} (p q : d.Phase) (R : B → d.Phase → Type 0) (f : Run Machine A)
      (g : A → Run Machine B)
      → Follows d p (λ _ r. r ≡ q) f
      → ((a : A) → Follows d q R (g a))
      → Follows d p R (f >>= g)
  leads p q R f g h k = >>=-Follows p (λ _ r. r ≡ q) R f g h λ a r e. rw e (k a)

  -- By the answers of a call that starts no program.
  pub answered-Follows :
      {B : Type 0} (p : d.Phase) (R : B → d.Phase → Type 0) (kernel : Kernel) (c : Call)
      (g : Answer → Run Machine B)
      → starts_nothing c ≡ true
      → ((n : ℕ) (bytes : Bytes) → Follows d p R (g (ok n bytes)))
      → ((e : ℕ) → Follows d p R (g (err e)))
      → Follows d p R (extern kernel c >>= g)
  answered-Follows {B} p R kernel c g hidden h k =
      quietly p R (λ _. Unit) (extern kernel c) g
        (extern-Respects (adds starts_nothing) kernel c hidden) (record { at = λ m t a e. tt })
        λ a u. go a
    where
      go : (a : Answer) → Follows d p R (g a)
      go (ok n bytes) = h n bytes
      go (err e) = k e

pub any-Returns : {A : Type 0} (f : Run Machine A) → Returns (λ _. Unit {0}) f
any-Returns f = record { at = λ m t a e. tt }

pub quiet-starts_nothing : (c : Call) → is_quiet c ≡ true → starts_nothing c ≡ true
unfolding is_start
quiet-starts_nothing (fork path argv) h = cc
quiet-starts_nothing _ h = refl

pub starts : (path : Bytes) (argv : List Bytes) → is_start (fork path argv) ≡ true
unfolding is_start
starts path argv = refl

pub gives-starts_nothing :
    (buf : Bytes)
    → (starts_nothing (munlock buf) ≡ true) × (starts_nothing (free_secret buf) ≡ true)
unfolding is_start
gives-starts_nothing buf = (refl, refl)

pub quiet_mount :
    (source target fs_type : Bytes) (flags : ℕ)
    → starts_nothing (mount source target fs_type flags) ≡ true
unfolding is_start
quiet_mount source target fs_type flags = refl
