-- ===== src/Boot/Halts.antt =====
-- The parts of main, and the boot, come to their end.
use cominit.Base.{ℕ, ◌<◌, ◌≤◌, Bool, Option, none, some, Bytes}
use cominit.Base.Run.{Run}
use cominit.Automount.Disk.{GptDisk}
use cominit.Automount.Search.Halts.{
  DirectoryEnds, find_partition_on_disk-Halts, find_partition-Halts,
}
use cominit.Automount.Search.{find_partition}
use cominit.Meta.Load.{load_verify_metadata}
use cominit.Tpm.Protect.{tpm_protect_data}
use cominit.Boot.{
  wait_for_rootfs, Build, try, enroll_keys, set_up_selinux, mount_verified_rootfs, start_rootfs,
  boot, root_wait_tries,
}
use cominit.Boot.Protect.{
  TpmBuild, look_for_storage, find_secure_storage, extend_if_enabled, protect_if_enabled,
  use_ready_tpm, run_tpm, protect_storage, attach_storage,
}
use cominit.Boot.Selinux.{write_policy, load_selinux_policy, set_selinux_mode}
use cominit.Boot.Waiting.{ignored-Comes, wait_for_rootfs-Halts}
use cominit.Cli.{CliArgs}
use cominit.Keyring.Enroll.{keyring_init_fake_hsm-Safe}
use cominit.Machine.{Machine, Kernel, part_meta_data_size}
use cominit.Machine.Halts.{Halts, Parents, halts}
use cominit.Meta.Load.Halts.{Safe-Comes, load_verify_metadata-Halts}
use cominit.Meta.Load.Reading.{ReadsFit, ReadsSome}
use cominit.Minsetup.Halts.{
  setup_rootfs-Halts, setup_sysfiles-Halts, setup_sys_selinuxfiles-Halts, cleanup_sysfiles-Halts,
  cleanup_selinuxfiles-Halts, switch_into_rootfs-Halts,
}
use cominit.Tpm.Halts.{
  init_tpm-Halts, delete_tpm-Halts, tpm_extend_pcr-Halts, tpm_protect_data-Halts,
  tpm_mount_secure_storage-Halts,
}
use cominit.Tpm.Seal.{Tss}

try-Halts : {A : Type 0} {f : Run Machine A} → Halts f → Halts (try f)
try-Halts h = record { at = λ m. ignored-Comes _ (h.at m) }

-- What has to be known of the calls: a read before the end of the file gets at least one byte and no
-- more than it asks for, the process that goes on after a fork is the one that is followed, and the
-- directory /dev has an end.
pub record Returns (kernel : Kernel) (entries : ℕ) : Type 0 where
  pub fit : ReadsFit kernel
  pub some_bytes : ReadsSome kernel
  pub parents : Parents kernel
  pub ends : DirectoryEnds kernel entries

-- The rounds that the loops on fuel get.
pub record EnoughRounds (build : Build) (entries : ℕ) : Type 0 where
  pub scans : entries < build.scan_rounds
  pub reads : part_meta_data_size ≤ build.read_rounds

module _ (kernel : Kernel) where
  write_policy-Halts : (data_bytes : Bytes) → Halts (write_policy kernel data_bytes)
  unfolding write_policy
  write_policy-Halts data_bytes = search halts depth 20 fits 4000

  load_selinux_policy-Halts : (path : Bytes) → Halts (load_selinux_policy kernel path)
  unfolding load_selinux_policy
  load_selinux_policy-Halts path = search (halts, write_policy-Halts) depth 30 fits 4000

  set_selinux_mode-Halts : (value : ℕ) → Halts (set_selinux_mode kernel value)
  unfolding set_selinux_mode
  set_selinux_mode-Halts value = search halts depth 20 fits 4000

module _ (kernel : Kernel) (entries : ℕ) (returns : Returns kernel entries) where
  found-Halts :
      (guid_type : Bytes) (size rounds : ℕ)
      → entries < rounds
      → Halts (find_partition kernel guid_type size rounds)
  found-Halts guid_type size rounds h =
      find_partition-Halts kernel entries returns.ends guid_type size rounds h

  protected-Halts : (tss : Tss) (ctx : CliArgs) → Halts (tpm_protect_data kernel tss ctx)
  protected-Halts tss ctx = tpm_protect_data-Halts kernel tss returns.parents ctx

  look_for_storage-Halts :
      (rounds : ℕ) (disk : Option GptDisk)
      → entries < rounds
      → Halts (look_for_storage kernel rounds disk)
  unfolding look_for_storage
  look_for_storage-Halts rounds none h = search (halts, found-Halts) depth 20 fits 4000
  look_for_storage-Halts rounds (some disk) h =
      search (halts, found-Halts, find_partition_on_disk-Halts) depth 20 fits 4000

  find_secure_storage-Halts :
      (rounds : ℕ) (disk : Option GptDisk) (ctx : CliArgs)
      → entries < rounds
      → Halts (find_secure_storage kernel rounds disk ctx)
  unfolding find_secure_storage
  find_secure_storage-Halts rounds disk ctx h =
      search (halts, look_for_storage-Halts) depth 20 fits 4000

  use_ready_tpm-Halts :
      (tss : Tss) (ctx : CliArgs) (ready : Bool) → Halts (use_ready_tpm kernel tss ctx ready)
  unfolding use_ready_tpm extend_if_enabled protect_if_enabled
  use_ready_tpm-Halts tss ctx ready =
      search (halts, tpm_extend_pcr-Halts, protected-Halts) depth 20 fits 4000

  run_tpm-Halts : (tpm : TpmBuild) (ctx : CliArgs) → Halts (run_tpm kernel tpm ctx)
  unfolding run_tpm
  run_tpm-Halts tpm ctx =
      search (halts, init_tpm-Halts, use_ready_tpm-Halts, delete_tpm-Halts) depth 20 fits 4000

  protect_storage-Halts :
      (tpm : Option TpmBuild) (rounds : ℕ) (disk : Option GptDisk) (ctx : CliArgs)
      → entries < rounds
      → Halts (protect_storage kernel tpm rounds disk ctx)
  unfolding protect_storage
  protect_storage-Halts none rounds disk ctx h = search halts
  protect_storage-Halts (some tpm) rounds disk ctx h =
      search (halts, find_secure_storage-Halts, run_tpm-Halts) depth 20 fits 4000

  attach_storage-Halts :
      (tpm : Option TpmBuild) (ctx : CliArgs) → Halts (attach_storage kernel tpm ctx)
  unfolding attach_storage
  attach_storage-Halts none ctx = search halts
  attach_storage-Halts (some tpm) ctx =
      search (halts, tpm_mount_secure_storage-Halts) depth 20 fits 4000

  module _ (build : Build) (enough : EnoughRounds build entries) where
    enroll_keys-Halts : (hsm : Option (Bytes × Bytes)) → Halts (enroll_keys kernel build hsm)
    unfolding enroll_keys
    enroll_keys-Halts none = search halts
    enroll_keys-Halts (some (key_dir, key_descs)) = try-Halts (record {
      at = λ m. Safe-Comes _ _ (keyring_init_fake_hsm-Safe kernel key_dir key_descs m);
    })

    loaded-Halts : (keyfile : Bytes) → Halts (load_verify_metadata kernel build.read_rounds keyfile)
    loaded-Halts keyfile =
        load_verify_metadata-Halts kernel returns.fit returns.some_bytes build.read_rounds keyfile
          enough.reads

    storage-Halts :
        (disk : Option GptDisk) (ctx : CliArgs)
        → Halts (protect_storage kernel build.tpm build.scan_rounds disk ctx)
    storage-Halts disk ctx = protect_storage-Halts build.tpm build.scan_rounds disk ctx enough.scans

    waited-Halts : (dev : Bytes) → Halts (wait_for_rootfs kernel build root_wait_tries dev)
    waited-Halts dev =
        wait_for_rootfs-Halts kernel build entries returns.ends enough.scans root_wait_tries dev

    set_up_selinux-Halts : (enforce : Bool) → Halts (set_up_selinux kernel build enforce)
    unfolding set_up_selinux
    set_up_selinux-Halts enforce =
        search
          (
            halts, try-Halts, setup_sys_selinuxfiles-Halts, load_selinux_policy-Halts,
            set_selinux_mode-Halts,
          )
          depth 20 fits 4000

    mount_verified_rootfs-Halts :
        (ctx : CliArgs) (disk : Option GptDisk)
        → Halts (mount_verified_rootfs kernel build ctx disk)
    unfolding mount_verified_rootfs
    mount_verified_rootfs-Halts ctx disk =
        search (halts, loaded-Halts, storage-Halts, setup_rootfs-Halts, attach_storage-Halts) depth
          20 fits 4000

    start_rootfs-Halts : (ctx : CliArgs) → Halts (start_rootfs kernel build ctx)
    unfolding start_rootfs
    start_rootfs-Halts ctx =
        search
          (
            halts, try-Halts, set_up_selinux-Halts, cleanup_selinuxfiles-Halts,
            cleanup_sysfiles-Halts, switch_into_rootfs-Halts,
          )
          depth 20 fits 4000

    pub boot-Halts : (ctx : CliArgs) → Halts (boot kernel build ctx)
    unfolding boot
    boot-Halts ctx =
        search
          (
            halts, setup_sysfiles-Halts, enroll_keys-Halts, waited-Halts,
            mount_verified_rootfs-Halts, start_rootfs-Halts,
          )
          depth 20 fits 4000
