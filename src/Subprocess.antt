-- ===== src/Subprocess.antt =====
-- src/subprocess.c: programs that run in a child process. `fork` comes back in two processes; a run
-- of the model follows one of them, by the answer 0 the child, which does not come back to the caller.
pub mod Held
pub mod Halts
pub mod Child
pub mod Quiet
pub mod Start
use cominit.Base.{
  ℕ, zero, suc, ◌/◌, ◌%◌, Bool, true, false, ◌&&◌, ◌==◌, ltb, leb, if◌then◌else◌, List, Bytes, [],
  ◌∷◌, get_or, length, take,
}
use cominit.Base.Run.{Run, done, hung, fault, ◌>>=◌, ◌>>◌, pure, guard, state}
use cominit.Machine.{
  Machine, Kernel, Answer, ok, err, fork, waitpid, pipe, dup2, exit, execve, write, extern, call,
  call_out, close_fd,
}

-- `WIFEXITED(status) && WEXITSTATUS(status) == 0`; the status is -1 if waitpid has not written it.
unfoldable pub has_succeeded : Answer → Bool
has_succeeded (ok status bytes) = status % 128 == 0 && status / 256 % 256 == 0
has_succeeded (err e) = false

-- The kernel reads `size` bytes of the data.
abbrev pub in_data : Bytes → ℕ → Run Machine (Unit {0})
in_data data_bytes size m = if leb size (length data_bytes) then done tt m else fault m

module _ (kernel : Kernel) where
  abbrev pub ends : {A : Type 0} → Run Machine A
  ends m = hung m

  unfoldable pub replace_child : {A : Type 0} → Bytes → List Bytes → Run Machine A
  replace_child path argv = extern kernel (execve path argv) >>= λ a. elim a [
    | ok n bytes ↦ ends
    | err e ↦ extern kernel (exit 1) >> ends
  ]

  unfoldable pub wait_for_child : ℕ → Run Machine (Unit {0})
  unfolding has_succeeded
  wait_for_child pid = extern kernel (waitpid pid) >>= λ a. guard (has_succeeded a)

  -- cominitSubprocessSpawn
  unfoldable pub subprocess_spawn : Bytes → List Bytes → Run Machine (Unit {0})
  unfolding replace_child wait_for_child
  subprocess_spawn path argv = do
    pid ← call kernel (fork path argv)
    if pid == 0 then replace_child path argv else wait_for_child pid

  -- The standard input is the pipe; EX_OSERR is 71.
  unfoldable pub read_from_pipe : ℕ → ℕ → Bytes → List Bytes → Run Machine (Unit {0})
  unfolding replace_child
  read_from_pipe read_end write_end path argv = do
    close_fd kernel write_end
    a ← extern kernel (dup2 read_end 0)
    elim a [
      | ok n bytes ↦ close_fd kernel read_end >> replace_child path argv
      | err e ↦ extern kernel (exit 71) >> ends
    ]

  unfoldable pub write_to_child : ℕ → ℕ → ℕ → Bytes → ℕ → Run Machine (Unit {0})
  unfolding wait_for_child
  write_to_child read_end write_end pid data_bytes data_size = do
    close_fd kernel read_end
    in_data data_bytes data_size
    written ← extern kernel (write write_end (take data_size data_bytes))
    close_fd kernel write_end
    elim written [ ok n bytes ↦ wait_for_child pid | err e ↦ guard false ]

  -- cominitSubprocessSpawnAndWrite
  unfoldable pub subprocess_spawn_and_write :
      Bytes → List Bytes → Bytes → ℕ → Run Machine (Unit {0})
  unfolding read_from_pipe write_to_child
  subprocess_spawn_and_write path argv data_bytes data_size = do
    guard (ltb 0 data_size)
    (read_end, rest) ← call_out kernel pipe
    let write_end = get_or rest 0 0
    child ← extern kernel (fork path argv)
    elim child [
      | ok zero bytes ↦ read_from_pipe read_end write_end path argv
      | ok (suc pid) bytes ↦ write_to_child read_end write_end (suc pid) data_bytes data_size
      | err e ↦ close_fd kernel read_end >> close_fd kernel write_end >> guard false
    ]
