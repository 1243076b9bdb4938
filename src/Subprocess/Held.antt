-- ===== src/Subprocess/Held.antt =====
-- The process that goes on after a fork gives the pipe back; the other one does not come back.
use cominit.Base.{
  ℕ, zero, suc, List, [], ◌∷◌, Bytes, Bool, true, false, leb, length, if◌then◌else◌, get_or, refl,
}
use cominit.Base.Run.{Run, Outcome, done, failed, hung, fault, ◌>>=◌, ◌>>◌, guard}
use cominit.Machine.{Machine, Kernel, Call, fork, close_fd, Answer, ok, err, extern}
use cominit.Machine.Held.{descriptor, Resource}
use cominit.Machine.Held.Balance.{Leaves, Releases, fault-Releases, guard-Releases, >>-Releases}
use cominit.Machine.Held.Bracket.{releases, Gives->>=}
use cominit.Machine.Held.Calls.{forked-Releases, call_out-Releases}
use cominit.Machine.Held.Neutral.{neutral-Releases, neutral-Simple}
use cominit.Subprocess.{
  in_data, replace_child, subprocess_spawn, read_from_pipe, write_to_child,
  subprocess_spawn_and_write,
}
use cominit.Subprocess.Quiet.{replace_child-Respects, wait_for_child-Respects}

abbrev Gone : {A : Type 0} → Outcome Machine A → Type 0
Gone (done a t) = ⊥
Gone (failed t) = ⊥
Gone (hung t) = Unit
Gone (fault t) = ⊥

record Ends {A : Type 0} (f : Run Machine A) : Type 0 where
  at : (m : Machine) → Gone (f m)

module _ {A : Type 0} where
  hung-Ends : Ends {A = A} (λ m. hung m)
  hung-Ends = record { at = λ m. tt }

  answered-Ends :
      (kernel : Kernel) (c : Call) (g : Answer → Run Machine A)
      → ((n : ℕ) (bytes : Bytes) → Ends (g (ok n bytes)))
      → ((e : ℕ) → Ends (g (err e)))
      → Ends (extern kernel c >>= g)
  answered-Ends kernel c g h k = record { at = λ m. (go (kernel m.trace c)).at _ }
    where
      go : (a : Answer) → Ends (g a)
      go (ok n bytes) = h n bytes
      go (err e) = k e

  Ends-Releases : {f : Run Machine A} (rs : List Resource) → Ends f → Releases rs f
  Ends-Releases {f} rs k = record { at = λ m h e. go h (f m) (k.at m) }
    where
      go : (h : List Resource) (o : Outcome Machine A) → Gone o → Leaves h o
      go h (done a t) g = absurd g
      go h (failed t) g = absurd g
      go h (hung t) g = tt
      go h (fault t) g = absurd g

module _ (kernel : Kernel) where
  read_from_pipe-Ends :
      (read_end write_end : ℕ) (path : Bytes) (argv : List Bytes)
      → Ends (read_from_pipe kernel read_end write_end path argv)
  unfolding read_from_pipe replace_child
  read_from_pipe-Ends read_end write_end path argv = search (answered-Ends, hung-Ends) depth 20

  in_data-Releases :
      (data_bytes : Bytes) (size : ℕ) {B : Type 0} {g : Run Machine B} {rs : List Resource}
      → Releases rs g
      → Releases rs (in_data data_bytes size >> g)
  in_data-Releases data_bytes size {B} {g} {rs} k = go (leb size (length data_bytes))
    where
      go : (b : Bool) → Releases rs ((λ m. if b then done tt m else fault m) >> g)
      go true = record { at = k.at }
      go false = fault-Releases rs

  write_to_child-Releases :
      (read_end write_end pid : ℕ) (data_bytes : Bytes) (size : ℕ)
      → Releases
          (descriptor read_end ∷ descriptor write_end ∷ [])
          (write_to_child kernel read_end write_end pid data_bytes size)
  unfolding write_to_child
  write_to_child-Releases read_end write_end pid data_bytes size =
      search (in_data-Releases, releases, neutral-Releases, neutral-Simple, wait_for_child-Respects)
        depth 20

  pub subprocess_spawn-Releases :
      (path : Bytes) (argv : List Bytes) → Releases [] (subprocess_spawn kernel path argv)
  unfolding subprocess_spawn
  subprocess_spawn-Releases path argv =
      search
        (
          releases, neutral-Releases, neutral-Simple, replace_child-Respects,
          wait_for_child-Respects,
        )
        depth 20

  pub subprocess_spawn_and_write-Releases :
      (path : Bytes) (argv : List Bytes) (data_bytes : Bytes) (size : ℕ)
      → Releases [] (subprocess_spawn_and_write kernel path argv data_bytes size)
  unfolding subprocess_spawn_and_write
  subprocess_spawn_and_write-Releases path argv data_bytes size =
      >>-Releases (guard-Releases _) (
        call_out-Releases kernel _ _ refl (λ e. refl)
          λ read_end rest. go read_end (get_or rest 0 0))
    where
      go :
          (read_end write_end : ℕ)
          → Releases (descriptor read_end ∷ descriptor write_end ∷ []) (
              extern kernel (fork path argv) >>= λ child. elim child [
                | ok zero bytes ↦ read_from_pipe kernel read_end write_end path argv
                | ok (suc pid) bytes ↦
                    write_to_child kernel read_end write_end (suc pid) data_bytes size
                | err e ↦ close_fd kernel read_end >> close_fd kernel write_end >> guard false
              ])
      go read_end write_end =
          search
            (
              forked-Releases, Gives->>=, releases, Ends-Releases, read_from_pipe-Ends,
              write_to_child-Releases,
            )
            depth 20
