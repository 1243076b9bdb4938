-- ===== src/Subprocess/Quiet.antt =====
-- A program that is started (src/subprocess.c) as a part of a run that does no more than a frame
-- allows.
use cominit.Base.{ℕ, Bool, true, false, leb, if◌then◌else◌, List, Bytes, ◌≡◌, length}
use cominit.Base.Run.{done, fault, state}
use cominit.Machine.{Machine, Kernel, fork}
use cominit.Machine.Held.Neutral.{Simple, Quiet-Simple}
use cominit.Machine.Frame.{Frame, Respects, Quiet, respects, forked-Respects}
use cominit.Subprocess.{
  in_data, replace_child, wait_for_child, subprocess_spawn, read_from_pipe, write_to_child,
  subprocess_spawn_and_write,
}

module _ (frame : Frame) (simple : Simple frame) (kernel : Kernel) where
  pub replace_child-Respects :
      {A : Type 0} (path : Bytes) (argv : List Bytes)
      → Respects frame (replace_child kernel {A = A} path argv)
  unfolding replace_child
  replace_child-Respects path argv = search respects depth 20

  pub wait_for_child-Respects : (pid : ℕ) → Respects frame (wait_for_child kernel pid)
  unfolding wait_for_child
  wait_for_child-Respects pid = search respects depth 20

  pub in_data-Respects : (data_bytes : Bytes) (size : ℕ) → Respects frame (in_data data_bytes size)
  in_data-Respects data_bytes size = record { at = λ m. go (leb size (length data_bytes)) m }
    where
      go : (b : Bool) (m : Machine) → frame.rel m (state (if b then done tt m else fault m))
      go true m = frame.same m
      go false m = frame.same m

module _ (frame : Frame) (quiet : Quiet frame) (kernel : Kernel) where
  pub read_from_pipe-Respects :
      (read_end write_end : ℕ) (path : Bytes) (argv : List Bytes)
      → Respects frame (read_from_pipe kernel read_end write_end path argv)
  unfolding read_from_pipe
  read_from_pipe-Respects read_end write_end path argv =
      search (respects, Quiet-Simple, replace_child-Respects) depth 20

  pub write_to_child-Respects :
      (read_end write_end pid : ℕ) (data_bytes : Bytes) (size : ℕ)
      → Respects frame (write_to_child kernel read_end write_end pid data_bytes size)
  unfolding write_to_child
  write_to_child-Respects read_end write_end pid data_bytes size =
      search (respects, Quiet-Simple, in_data-Respects, wait_for_child-Respects) depth 20

  module _ (path : Bytes) (argv : List Bytes) (allowed : frame.allows (fork path argv) ≡ true) where
    pub subprocess_spawn-Respects : Respects frame (subprocess_spawn kernel path argv)
    unfolding subprocess_spawn
    subprocess_spawn-Respects =
        search (respects, Quiet-Simple, replace_child-Respects, wait_for_child-Respects) depth 20

    pub subprocess_spawn_and_write-Respects :
        (data_bytes : Bytes) (size : ℕ)
        → Respects frame (subprocess_spawn_and_write kernel path argv data_bytes size)
    unfolding subprocess_spawn_and_write
    subprocess_spawn_and_write-Respects data_bytes size =
        search (forked-Respects, respects, read_from_pipe-Respects, write_to_child-Respects) depth
          20
