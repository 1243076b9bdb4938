-- ===== src/Subprocess/Child.antt =====
-- When cominitSubprocessSpawn succeeds.
use cominit.Base.{
  ℕ, zero, suc, ◌/◌, ◌%◌, Bool, true, false, ◌==◌, List, Bytes, ◌∷◌, ◌≡◌, refl, sym, arith,
  if◌then◌else◌,
}
use cominit.Base.Run.{done, guard}
use cominit.Machine.{Machine, Kernel, Answer, ok, err, fork, waitpid, log, call-eq-done}
use cominit.Machine.Returns.{Returns, answered-Returns, >>=-Returns, hung-Returns}
use cominit.Subprocess.{has_succeeded, replace_child, wait_for_child, subprocess_spawn}

-- The parent's side: the child that was started has exited, by itself and with the code 0, and nothing
-- else was asked of the kernel.
pub record Spawned (kernel : Kernel) (path : Bytes) (argv : List Bytes) (m t : Machine)
    : Type 0 where
  pub pid : ℕ
  pub status : ℕ
  pub forked_bytes : Bytes
  pub waited_bytes : Bytes
  pub forked : kernel m.trace (fork path argv) ≡ ok (suc pid) forked_bytes
  pub waited :
      kernel (log (fork path argv) (suc pid) forked_bytes m).trace (waitpid (suc pid))
      ≡ ok status waited_bytes
  pub by_itself : status % 128 ≡ 0
  pub code : status / 256 % 256 ≡ 0
  pub ended :
      t
      ≡ log (waitpid (suc pid)) status waited_bytes (log (fork path argv) (suc pid) forked_bytes m)

-- What waitpid must have answered.
record Exited (kernel : Kernel) (pid : ℕ) (m t : Machine) : Type 0 where
  status : ℕ
  bytes : Bytes
  answer : kernel m.trace (waitpid pid) ≡ ok status bytes
  by_itself : status % 128 ≡ 0
  code : status / 256 % 256 ≡ 0
  ended : t ≡ log (waitpid pid) status bytes m

guard_last-eq-done :
    (b : Bool) (m : Machine) {t : Machine} → guard b m ≡ done tt t → (b ≡ true) × (m ≡ t)
guard_last-eq-done true m h = (refl, cc)
guard_last-eq-done false m h = cc

succeeded-exit :
    (status : ℕ) (bytes : Bytes)
    → has_succeeded (ok status bytes) ≡ true
    → (status % 128 ≡ 0) × (status / 256 % 256 ≡ 0)
unfolding has_succeeded
succeeded-exit status bytes h = ground arith

exit-succeeded :
    (status : ℕ) (bytes : Bytes)
    → status % 128 ≡ 0
    → status / 256 % 256 ≡ 0
    → has_succeeded (ok status bytes) ≡ true
unfolding has_succeeded
exit-succeeded status bytes h k = ground arith

module _ (kernel : Kernel) where
  replace_child-never :
      (path : Bytes) (argv : List Bytes)
      → Returns {A = Unit {0}} (λ _. ⊥) (replace_child kernel path argv)
  unfolding replace_child
  replace_child-never path argv = search (answered-Returns, >>=-Returns, hung-Returns) depth 10

  wait_for_child-Exited :
      (pid : ℕ) (m t : Machine) → wait_for_child kernel pid m ≡ done tt t → Exited kernel pid m t
  unfolding wait_for_child
  wait_for_child-Exited pid m t h = go (kernel m.trace (waitpid pid)) refl h
    where
      go :
          (a : Answer)
          → kernel m.trace (waitpid pid) ≡ a
          → guard (has_succeeded a) (record m { trace = (waitpid pid, a) ∷ m.trace }) ≡ done tt t
          → Exited kernel pid m t
      go (err e) answer h = cc
      go (ok status bytes) answer h =
          let (good, same) = guard_last-eq-done _ _ h in
          record {
            status = status;
            bytes = bytes;
            answer = answer;
            by_itself = (succeeded-exit status bytes good).0;
            code = (succeeded-exit status bytes good).1;
            ended = sym same;
          }

not_zero : (pid : ℕ) → (suc pid == 0) ≡ false
not_zero pid = ground arith

module _ (kernel : Kernel) (path : Bytes) (argv : List Bytes) (m t : Machine) where
  by_side :
      (pid : ℕ) (bytes : Bytes)
      → kernel m.trace (fork path argv) ≡ ok pid bytes
      → (if pid == 0 then replace_child kernel path argv else wait_for_child kernel pid)
          (log (fork path argv) pid bytes m)
        ≡ done tt t
      → Spawned kernel path argv m t
  by_side zero bytes forked h = absurd ((replace_child-never kernel path argv).at _ _ _ h)
  by_side (suc pid) bytes forked h =
      let waits = rw (not_zero pid) at h in
      let exited = wait_for_child-Exited kernel (suc pid) _ t waits in
      record {
        pid = pid;
        status = exited.status;
        forked_bytes = bytes;
        waited_bytes = exited.bytes;
        forked = forked;
        waited = exited.answer;
        by_itself = exited.by_itself;
        code = exited.code;
        ended = exited.ended;
      }

  spawned : subprocess_spawn kernel path argv m ≡ done tt t → Spawned kernel path argv m t
  unfolding subprocess_spawn
  spawned h =
      let (pid, bytes, forked, h1) = call-eq-done kernel (fork path argv) _ m h in
      by_side pid bytes forked h1

  spawns : Spawned kernel path argv m t → subprocess_spawn kernel path argv m ≡ done tt t
  unfolding subprocess_spawn wait_for_child
  spawns s =
      rw
        (
          s.forked,
          not_zero s.pid,
          s.waited,
          exit-succeeded s.status s.waited_bytes s.by_itself s.code,
          s.ended,
        )
        refl

-- cominitSubprocessSpawn succeeds in the parent, and nowhere else, just when the child that it has
-- started exits by itself with the code 0.
pub subprocess_spawn-Spawned :
    (kernel : Kernel) (path : Bytes) (argv : List Bytes) (m t : Machine)
    → (subprocess_spawn kernel path argv m ≡ done tt t → Spawned kernel path argv m t)
      × (Spawned kernel path argv m t → subprocess_spawn kernel path argv m ≡ done tt t)
subprocess_spawn-Spawned kernel path argv m t =
    (spawned kernel path argv m t, spawns kernel path argv m t)
