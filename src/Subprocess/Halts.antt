-- ===== src/Subprocess/Halts.antt =====
-- The process that goes on after a fork comes to the end of its calls.
use cominit.Base.{
  ℕ, zero, suc, List, Bytes, Bool, true, false, leb, length, if◌then◌else◌, get_or, ◌==◌, ◌≡◌, refl,
  arith,
}
use cominit.Base.Run.{done, fault, ◌>>=◌, ◌>>◌, guard, or_fail}
use cominit.Cryptsetup.{
  cryptsetup_create_luks_volume, cryptsetup_open_luks_volume, cryptsetup_add_token,
}
use cominit.Machine.{Machine, Kernel, fork, close_fd, Answer, ok, err, extern, value}
use cominit.Machine.Halts.{
  Comes, Halts, Parents, halts, forked-Halts, call_out-Halts, guard-Halts, >>=-Halts, >>-Halts,
}
use cominit.Subprocess.{
  in_data, replace_child, wait_for_child, subprocess_spawn, read_from_pipe, write_to_child,
  subprocess_spawn_and_write,
}

in_data-Halts : (data_bytes : Bytes) (size : ℕ) → Halts (in_data data_bytes size)
in_data-Halts data_bytes size = record { at = λ m. go (leb size (length data_bytes)) m }
  where
    go : (b : Bool) (m : Machine) → Comes (if b then done tt m else fault m)
    go true m = tt
    go false m = tt

module _ (kernel : Kernel) where
  wait_for_child-Halts : (pid : ℕ) → Halts (wait_for_child kernel pid)
  unfolding wait_for_child
  wait_for_child-Halts pid = search halts depth 20

  write_to_child-Halts :
      (read_end write_end pid : ℕ) (data_bytes : Bytes) (size : ℕ)
      → Halts (write_to_child kernel read_end write_end pid data_bytes size)
  unfolding write_to_child
  write_to_child-Halts read_end write_end pid data_bytes size =
      search (halts, in_data-Halts, wait_for_child-Halts) depth 30 fits 4000

  module _ (parents : Parents kernel) where
    pub subprocess_spawn-Halts :
        (path : Bytes) (argv : List Bytes) → Halts (subprocess_spawn kernel path argv)
    unfolding subprocess_spawn
    subprocess_spawn-Halts path argv = record {
      at = λ m. go (kernel m.trace (fork path argv)) (parents m.trace path argv) _;
    }
      where
        go :
            (a : Answer)
            → ((bytes : Bytes) → ¬ (a ≡ ok 0 bytes))
            → (m : Machine)
            → Comes (
                (or_fail (value a) >>= λ pid.
                if pid == 0 then replace_child kernel path argv else wait_for_child kernel pid)
                  m)
        go (ok zero bytes) never m = absurd (never bytes refl)
        go (ok (suc pid) bytes) never m =
            let parent : suc pid == 0 ≡ false = ground arith in
            rw parent ((wait_for_child-Halts (suc pid)).at m)
        go (err e) never m = tt

    subprocess_spawn_and_write-Halts :
        (path : Bytes) (argv : List Bytes) (data_bytes : Bytes) (size : ℕ)
        → Halts (subprocess_spawn_and_write kernel path argv data_bytes size)
    unfolding subprocess_spawn_and_write
    subprocess_spawn_and_write-Halts path argv data_bytes size =
        >>-Halts (guard-Halts _)
          (>>=-Halts (call_out-Halts kernel _) λ p. go (p.0) (get_or (p.1) 0 0))
      where
        go :
            (read_end write_end : ℕ)
            → Halts (
                extern kernel (fork path argv) >>= λ child. elim child [
                  | ok zero bytes ↦ read_from_pipe kernel read_end write_end path argv
                  | ok (suc pid) bytes ↦
                      write_to_child kernel read_end write_end (suc pid) data_bytes size
                  | err e ↦ close_fd kernel read_end >> close_fd kernel write_end >> guard false
                ])
        go read_end write_end = search (forked-Halts, write_to_child-Halts, halts) depth 20

    module _ (dir dev_crypt : Bytes) where
      pub cryptsetup_create_luks_volume-Halts :
          (passphrase : Bytes) (size : ℕ)
          → Halts (cryptsetup_create_luks_volume kernel dir dev_crypt passphrase size)
      unfolding cryptsetup_create_luks_volume
      cryptsetup_create_luks_volume-Halts passphrase size =
          >>-Halts (guard-Halts _) (subprocess_spawn_and_write-Halts dir _ passphrase size)

      pub cryptsetup_open_luks_volume-Halts :
          Halts (cryptsetup_open_luks_volume kernel dir dev_crypt)
      unfolding cryptsetup_open_luks_volume
      cryptsetup_open_luks_volume-Halts = subprocess_spawn-Halts dir _

      pub cryptsetup_add_token-Halts : Halts (cryptsetup_add_token kernel dir dev_crypt)
      unfolding cryptsetup_add_token
      cryptsetup_add_token-Halts = subprocess_spawn-Halts dir _
