-- ===== src/Subprocess/Start.antt =====
-- The functions of src/subprocess.c start the program that they are given, and no other.
use cominit.Base.{ℕ, zero, suc, get_or, ltb, ◌==◌, false, if◌then◌else◌, List, Bytes, ◌≡◌, refl}
use cominit.Base.Run.{Run, ◌>>◌, guard, or_fail}
use cominit.Machine.{
  Machine, Kernel, Answer, ok, err, fork, pipe, value, call, call_out, close_fd, extern,
}
use cominit.Machine.Follows.{
  Follows, quietly, leads, quiet-Follows, start-Follows, any-Returns, quiet-starts_nothing, starts,
}
use cominit.Machine.Way.{Diagram, starts_nothing}
use cominit.Machine.Held.Neutral.{Quiet-Simple}
use cominit.Machine.Frame.{Respects, respects, or_fail-Respects, guard-Respects, call_out-Respects}
use cominit.Machine.Frame.Added.{adds}
use cominit.Subprocess.{
  replace_child, wait_for_child, subprocess_spawn, subprocess_spawn_and_write, read_from_pipe,
  write_to_child,
}
use cominit.Subprocess.Quiet.{
  replace_child-Respects, wait_for_child-Respects, read_from_pipe-Respects, write_to_child-Respects,
}

-- What the parent and the child do behind the fork.
abbrev pub on_both_sides :
    Kernel → Bytes → List Bytes → Bytes → ℕ → ℕ → ℕ → Answer → Run Machine (Unit {0})
on_both_sides kernel path argv data_bytes data_size read_end write_end child = elim child [
  | ok zero bytes ↦ read_from_pipe kernel read_end write_end path argv
  | ok (suc pid) bytes ↦ write_to_child kernel read_end write_end (suc pid) data_bytes data_size
  | err e ↦ close_fd kernel read_end >> close_fd kernel write_end >> guard false
]

module _ (kernel : Kernel) (path : Bytes) (argv : List Bytes) where
  on_both_sides-Respects :
      (data_bytes : Bytes) (data_size read_end write_end : ℕ) (child : Answer)
      → Respects
          (adds starts_nothing)
          (on_both_sides kernel path argv data_bytes data_size read_end write_end child)
  on_both_sides-Respects data_bytes data_size read_end write_end (ok zero bytes) =
      search (read_from_pipe-Respects, quiet-starts_nothing)
  on_both_sides-Respects data_bytes data_size read_end write_end (ok (suc pid) bytes) =
      search (write_to_child-Respects, quiet-starts_nothing)
  on_both_sides-Respects data_bytes data_size read_end write_end (err e) =
      search (respects, quiet-starts_nothing) depth 10

  module _ (d : Diagram) (p q : d.Phase) (edge : d.Starts p (fork path argv) q) where
    forked : Follows d p (λ _ r. r ≡ q) (extern kernel (fork path argv))
    forked = start-Follows d p q kernel (fork path argv) (starts path argv) edge

    stays :
        {A : Type 0} (f : Run Machine A)
        → Respects (adds starts_nothing) f
        → Follows d q (λ _ r. r ≡ q) f
    stays f h = quiet-Follows d q (λ _. Unit) (λ _ r. r ≡ q) f h (any-Returns f) (λ a u. refl)

    forked_once : Follows d p (λ _ r. r ≡ q) (call kernel (fork path argv))
    forked_once =
        leads d p q (λ _ r. r ≡ q) (extern kernel (fork path argv)) (λ a. or_fail (value a)) forked
          λ a. stays (or_fail (value a)) (or_fail-Respects (adds starts_nothing) (value a))

    pub subprocess_spawn-Follows : Follows d p (λ _ r. r ≡ q) (subprocess_spawn kernel path argv)
    unfolding subprocess_spawn
    subprocess_spawn-Follows =
        leads d p q (λ _ r. r ≡ q) (call kernel (fork path argv))
          (λ pid. if pid == 0 then replace_child kernel path argv else wait_for_child kernel pid)
          forked_once
          λ pid. stays _ (
            search (
              respects, Quiet-Simple, replace_child-Respects, wait_for_child-Respects,
              quiet-starts_nothing,
            ))

    pub subprocess_spawn_and_write-Follows :
        (data_bytes : Bytes) (data_size : ℕ)
        → Follows d p
            (λ _ r. r ≡ q)
            (subprocess_spawn_and_write kernel path argv data_bytes data_size)
    unfolding subprocess_spawn_and_write
    subprocess_spawn_and_write-Follows data_bytes data_size =
        quietly d p (λ _ r. r ≡ q) (λ _. Unit) (guard (ltb 0 data_size)) _
          (guard-Respects (adds starts_nothing) _) (any-Returns _)
          λ u v.
            quietly d p (λ _ r. r ≡ q) (λ _. Unit) (call_out kernel pipe) _
              (call_out-Respects (adds starts_nothing) kernel pipe (quiet-starts_nothing pipe refl))
              (any-Returns _)
              λ ends v.
                leads d p q (λ _ r. r ≡ q) (extern kernel (fork path argv))
                  (on_both_sides kernel path argv data_bytes data_size (ends.0)
                    (get_or (ends.1) 0 0))
                  forked
                  λ child. stays _ (
                    on_both_sides-Respects data_bytes data_size (ends.0) (get_or (ends.1) 0 0)
                      child)
