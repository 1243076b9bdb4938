-- ===== src/Boot/Waiting.antt =====
-- The wait for the rootfs comes to its end.
use cominit.Base.{ℕ, zero, suc, ◌*◌, ◌<◌, Bytes}
use cominit.Base.Run.{Run, Outcome, done, failed, hung, fault, ◌>>=◌}
use cominit.Automount.Search.{discover_rootfs}
use cominit.Automount.Search.Halts.{DirectoryEnds, discover_rootfs-Halts}
use cominit.Boot.{
  Build, ignored, try, retried, micro_sleep, wait_for_rootfs, root_wait_interval_millis,
}
use cominit.Machine.{Machine, Kernel}
use cominit.Machine.Halts.{Comes, Halts, halts, >>=-Halts}

pub ignored-Comes : {A : Type 0} (o : Outcome Machine A) → Comes o → Comes (ignored o)
ignored-Comes (done a t) c = tt
ignored-Comes (failed t) c = tt
ignored-Comes (hung t) c = c
ignored-Comes (fault t) c = tt

pub retried-Comes :
    {A : Type 0} (o : Outcome Machine A) {again : Run Machine A}
    → Comes o
    → Halts again
    → Comes (retried o again)
retried-Comes (done a t) c k = tt
retried-Comes (failed t) c k = k.at t
retried-Comes (hung t) c k = c
retried-Comes (fault t) c k = tt

module _ (kernel : Kernel) (build : Build) (entries : ℕ) where
  micro_sleep-Halts : (micros : ℕ) → Halts (micro_sleep kernel build micros)
  unfolding micro_sleep
  micro_sleep-Halts micros = search halts depth 20

  pub wait_for_rootfs-Halts :
      DirectoryEnds kernel entries
      → entries < build.scan_rounds
      → (tries : ℕ) (dev_node : Bytes) → Halts (wait_for_rootfs kernel build tries dev_node)
  unfolding wait_for_rootfs
  wait_for_rootfs-Halts ends enough zero dev_node = record {
    at = (discover_rootfs-Halts kernel entries ends build.scan_rounds dev_node enough).at;
  }
  wait_for_rootfs-Halts ends enough (suc tries) dev_node =
      let sleeps = micro_sleep-Halts (root_wait_interval_millis * 1000) in
      let again : Halts (
          try (micro_sleep kernel build (root_wait_interval_millis * 1000)) >>= λ _.
          wait_for_rootfs kernel build tries dev_node) =
        >>=-Halts (record { at = λ m. ignored-Comes _ (sleeps.at m) })
          λ _. wait_for_rootfs-Halts ends enough tries dev_node in
      record {
        at = λ m.
            retried-Comes (discover_rootfs kernel build.scan_rounds dev_node m)
              ((discover_rootfs-Halts kernel entries ends build.scan_rounds dev_node enough).at m)
              again;
      }
