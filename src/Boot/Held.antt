-- ===== src/Boot/Held.antt =====
-- The parts of main, and the boot in a build that does not emulate an HSM, give back what they get.
use cominit.Base.{ℕ, zero, suc, ◌*◌, Bool, Option, none, some, List, Bytes, [], ◌≡◌}
use cominit.Base.Run.{Run, Outcome, done, failed, hung, fault}
use cominit.Automount.Disk.{GptDisk}
use cominit.Automount.Held.{
  find_partition_on_disk-Releases, find_partition-Releases, discover_rootfs-Releases,
}
use cominit.Automount.Search.{discover_rootfs}
use cominit.Boot.{
  Build, ignored, try, retried, enroll_keys, micro_sleep, wait_for_rootfs, set_up_selinux,
  mount_verified_rootfs, start_rootfs, boot, root_wait_interval_millis,
}
use cominit.Boot.Protect.{
  TpmBuild, look_for_storage, find_secure_storage, extend_if_enabled, protect_if_enabled,
  use_ready_tpm, run_tpm, protect_storage, attach_storage,
}
use cominit.Boot.Selinux.{write_policy, load_selinux_policy, set_selinux_mode}
use cominit.Cli.{CliArgs}
use cominit.Machine.{Machine, Kernel}
use cominit.Machine.Held.{Resource}
use cominit.Machine.Held.Balance.{Leaves, Releases, >>=-Releases, >>-Releases, set_meta-Releases}
use cominit.Machine.Held.Bracket.{releases}
use cominit.Machine.Held.Calls.{plain-Releases}
use cominit.Machine.Held.Neutral.{neutral-Releases, neutral-Simple}
use cominit.Meta.Load.Held.{load_verify_metadata-Releases}
use cominit.Minsetup.Held.{
  setup_rootfs-Releases, setup_sysfiles-Releases, setup_sys_selinuxfiles-Releases,
  cleanup_sysfiles-Releases, cleanup_selinuxfiles-Releases, switch_into_rootfs-Releases,
}
use cominit.Tpm.Held.{
  tpm_extend_pcr-Releases, tpm_protect_data-Releases, tpm_mount_secure_storage-Releases,
}
use cominit.Tpm.Quiet.{init_tpm-Respects, delete_tpm-Respects}
use cominit.Tpm.Seal.{Tss}

pub ignored-Leaves :
    {A : Type 0} (h : List Resource) (o : Outcome Machine A) → Leaves h o → Leaves h (ignored o)
ignored-Leaves h (done a t) l = l
ignored-Leaves h (failed t) l = l
ignored-Leaves h (hung t) l = l
ignored-Leaves h (fault t) l = l

try-Releases : {A : Type 0} {f : Run Machine A} → Releases [] f → Releases [] (try f)
try-Releases k = record { at = λ m h e. ignored-Leaves h _ (k.at m h e) }

pub retried-Leaves :
    {A : Type 0} (h : List Resource) (o : Outcome Machine A) {again : Run Machine A}
    → Leaves h o
    → Releases [] again
    → Leaves h (retried o again)
retried-Leaves h (done a t) l k = l
retried-Leaves h (failed t) l k = k.at t h l
retried-Leaves h (hung t) l k = l
retried-Leaves h (fault t) l k = l

module _ (kernel : Kernel) where
  write_policy-Releases : (data_bytes : Bytes) → Releases [] (write_policy kernel data_bytes)
  unfolding write_policy
  write_policy-Releases data_bytes = search releases depth 20

  load_selinux_policy-Releases : (path : Bytes) → Releases [] (load_selinux_policy kernel path)
  unfolding load_selinux_policy
  load_selinux_policy-Releases path = search (releases, write_policy-Releases) depth 20

  set_selinux_mode-Releases : (value : ℕ) → Releases [] (set_selinux_mode kernel value)
  unfolding set_selinux_mode
  set_selinux_mode-Releases value = search releases depth 20

  look_for_storage-Releases :
      (rounds : ℕ) (disk : Option GptDisk) → Releases [] (look_for_storage kernel rounds disk)
  unfolding look_for_storage
  look_for_storage-Releases rounds none = search (releases, find_partition-Releases) depth 20
  look_for_storage-Releases rounds (some disk) =
      search (releases, find_partition-Releases, find_partition_on_disk-Releases) depth 20

  find_secure_storage-Releases :
      (rounds : ℕ) (disk : Option GptDisk) (ctx : CliArgs)
      → Releases [] (find_secure_storage kernel rounds disk ctx)
  unfolding find_secure_storage
  find_secure_storage-Releases rounds disk ctx =
      search (releases, look_for_storage-Releases) depth 20

  use_ready_tpm-Releases :
      (tss : Tss) (ctx : CliArgs) (ready : Bool) → Releases [] (use_ready_tpm kernel tss ctx ready)
  unfolding use_ready_tpm extend_if_enabled protect_if_enabled
  use_ready_tpm-Releases tss ctx ready =
      search (releases, tpm_extend_pcr-Releases, tpm_protect_data-Releases) depth 20

  run_tpm-Releases : (tpm : TpmBuild) (ctx : CliArgs) → Releases [] (run_tpm kernel tpm ctx)
  unfolding run_tpm
  run_tpm-Releases tpm ctx =
      search
        (
          releases, neutral-Releases, neutral-Simple, init_tpm-Respects, use_ready_tpm-Releases,
          delete_tpm-Respects,
        )
        depth 20

  protect_storage-Releases :
      (tpm : Option TpmBuild) (rounds : ℕ) (disk : Option GptDisk) (ctx : CliArgs)
      → Releases [] (protect_storage kernel tpm rounds disk ctx)
  unfolding protect_storage
  protect_storage-Releases none rounds disk ctx = search releases
  protect_storage-Releases (some tpm) rounds disk ctx =
      search (releases, find_secure_storage-Releases, run_tpm-Releases) depth 20

  attach_storage-Releases :
      (tpm : Option TpmBuild) (ctx : CliArgs) → Releases [] (attach_storage kernel tpm ctx)
  unfolding attach_storage
  attach_storage-Releases none ctx = search releases
  attach_storage-Releases (some tpm) ctx =
      search (releases, tpm_mount_secure_storage-Releases) depth 20

  module _ (build : Build) where
    micro_sleep-Releases : (micros : ℕ) → Releases [] (micro_sleep kernel build micros)
    unfolding micro_sleep
    micro_sleep-Releases micros = search releases depth 20

    pub wait_for_rootfs-Releases :
        (tries : ℕ) (dev : Bytes) → Releases [] (wait_for_rootfs kernel build tries dev)
    unfolding wait_for_rootfs
    wait_for_rootfs-Releases zero dev = record {
      at = (discover_rootfs-Releases kernel build.scan_rounds dev).at;
    }
    wait_for_rootfs-Releases (suc tries) dev =
        let slept =
          >>=-Releases (try-Releases (micro_sleep-Releases (root_wait_interval_millis * 1000)))
            λ _. wait_for_rootfs-Releases tries dev in
        record {
          at = λ m h e.
              retried-Leaves h (discover_rootfs kernel build.scan_rounds dev m)
                ((discover_rootfs-Releases kernel build.scan_rounds dev).at m h e) slept;
        }

    set_up_selinux-Releases : (enforce : Bool) → Releases [] (set_up_selinux kernel build enforce)
    unfolding set_up_selinux
    set_up_selinux-Releases enforce =
        search
          (
            releases, try-Releases, setup_sys_selinuxfiles-Releases, load_selinux_policy-Releases,
            set_selinux_mode-Releases,
          )
          depth 20

    pub mount_verified_rootfs-Releases :
        (ctx : CliArgs) (disk : Option GptDisk)
        → Releases [] (mount_verified_rootfs kernel build ctx disk)
    unfolding mount_verified_rootfs
    mount_verified_rootfs-Releases ctx disk =
        search
          (
            releases, load_verify_metadata-Releases, protect_storage-Releases,
            setup_rootfs-Releases, attach_storage-Releases,
          )
          depth 20

    pub start_rootfs-Releases : (ctx : CliArgs) → Releases [] (start_rootfs kernel build ctx)
    unfolding start_rootfs
    start_rootfs-Releases ctx =
        search
          (
            releases, try-Releases, set_up_selinux-Releases, cleanup_selinuxfiles-Releases,
            cleanup_sysfiles-Releases, switch_into_rootfs-Releases,
          )
          depth 20

    enroll_keys-Releases :
        (hsm : Option (Bytes × Bytes)) → hsm ≡ none → Releases [] (enroll_keys kernel build hsm)
    unfolding enroll_keys
    enroll_keys-Releases none h = search releases
    enroll_keys-Releases (some (key_dir, key_descs)) h = cc

    pub boot-Releases :
        build.fake_hsm ≡ none → (ctx : CliArgs) → Releases [] (boot kernel build ctx)
    unfolding boot
    boot-Releases no_hsm ctx =
        search
          (
            plain-Releases, set_meta-Releases, >>-Releases, >>=-Releases, setup_sysfiles-Releases,
            enroll_keys-Releases, wait_for_rootfs-Releases, mount_verified_rootfs-Releases,
            start_rootfs-Releases,
          )
          depth 20
