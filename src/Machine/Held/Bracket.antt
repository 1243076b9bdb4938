-- ===== src/Machine/Held/Bracket.antt =====
-- The rules for steps that give everything back, and the rules that a search tries.
use cominit.Base.{List, [], ◌++◌, ◌≡◌}
use cominit.Base.Run.{
  Run, Outcome, done, failed, hung, fault, after, ◌>>=◌, state, recovered, on_fail, closed, finally,
}
use cominit.Machine.{Machine}
use cominit.Machine.Held.{Resource, held}
use cominit.Machine.Held.Balance.{
  Leaves, Releases, Gives, Stays, Steady, Keeping, Clean, Taking, held-Keeping, held-Taking,
  after-Leaves, pure-Releases, fail-Releases, hung-Releases, fault-Releases, or_fail-Releases,
  if-Releases, guard-Releases, set_meta-Releases, >>=-Releases, >>-Releases, get-Releases,
}
use cominit.Machine.Held.Calls.{
  answered-Releases, forked-Releases, extern-Releases, Taking-Releases, call-Releases,
  call_out-Releases, Taking-Gives, last-Releases, plain-Steady, plain-Gives, plain-Releases,
  plain_call-Releases, plain_call_out-Releases, Taking->>, plain->>,
}
use cominit.Machine.Held.Steady.{
  pure-Steady, hung-Steady, fault-Steady, if-Steady, attempted-Steady, Steady-Releases, >>=-Steady,
  Steady->>=, tried-Releases, tried-Steady, answered-Steady,
}

module _ {A B : Type 0} where
  -- The step that gives everything back, and what follows it.
  pub Gives->>= :
      {f : Run Machine A} {g : A → Run Machine B} {rs : List Resource}
      → Gives rs f
      → ((a : A) → Releases [] (g a))
      → Releases rs (f >>= g)
  Gives->>= {f} {g} c k = record { at = λ m h e. go h (f m) (c.at m h e) }
    where
      go :
          (h : List Resource) (o : Outcome Machine A)
          → held (state o).trace ≡ h
          → Leaves h (after o g)
      go h (done a t) e = (k a).at t h e
      go h (failed t) e = e
      go h (hung t) e = tt
      go h (fault t) e = tt

  pub finally-Releases :
      {cleanup : Run Machine B} {f : Run Machine A} {rs : List Resource}
      → Gives rs cleanup
      → Releases [] f
      → Releases rs (finally cleanup f)
  finally-Releases {cleanup} {f} {rs} c k = record { at = λ m h e. go h (f m) (k.at m _ e) }
    where
      go :
          (h : List Resource) (o : Outcome Machine A)
          → Leaves (rs ++ h) o
          → Leaves h (closed cleanup o)
      go h (done a t) e = c.at t h e
      go h (failed t) e = c.at t h e
      go h (hung t) e = tt
      go h (fault t) e = tt

  pub on_fail-Releases :
      {C : Type 0} {cleanup : Run Machine B} {f : Run Machine A} {g : A → Run Machine C}
      {rs : List Resource}
      → Gives rs cleanup
      → Releases [] f
      → ((a : A) → Releases rs (g a))
      → Releases rs (on_fail cleanup f >>= g)
  on_fail-Releases {C} {cleanup} {f} {g} {rs} c k l = record {
    at = λ m h e. go h (f m) (k.at m _ e);
  }
    where
      go :
          (h : List Resource) (o : Outcome Machine A)
          → Leaves (rs ++ h) o
          → Leaves h (after (recovered cleanup o) g)
      go h (done a t) e = (l a).at t h e
      go h (failed t) e = c.at t h e
      go h (hung t) e = tt
      go h (fault t) e = tt

-- The rules that a search tries; those for a step that may hold something stand last.
pub ruleset releases = (
  pure-Releases, fail-Releases, hung-Releases, fault-Releases, guard-Releases, or_fail-Releases,
  set_meta-Releases, get-Releases, if-Releases, tried-Releases, on_fail-Releases, finally-Releases,
  Taking-Gives, Taking->>, plain-Gives, plain->>, Taking-Releases, last-Releases, call-Releases,
  call_out-Releases, answered-Releases, extern-Releases, plain-Releases, plain_call-Releases,
  plain_call_out-Releases, >>=-Releases, >>-Releases,
)

pub ruleset steadies = (
  answered-Steady, tried-Steady, >>=-Steady, Steady->>=, pure-Steady, hung-Steady, fault-Steady,
  if-Steady, attempted-Steady, plain-Steady,
)
