-- ===== src/Boot.antt =====
-- main of src/cominit.c. The paths of the SELinux policies are set in the
-- build, and whether the TPM is used.
pub mod Held
pub mod Selinux
pub mod Protect
pub mod Unverified
pub mod Order
pub mod Main
pub mod Waiting
pub mod Halts
use cominit.Base.{
  ℕ, zero, suc, ◌+◌, ◌*◌, ◌/◌, ◌%◌, Bool, true, false, ◌==◌, if◌then◌else◌, [], ◌∷◌, Option, none,
  some, List, Bytes, codes, get_or,
}
use cominit.Base.Run.{Run, Outcome, done, failed, hung, fault, ◌>>=◌, ◌>>◌, pure, fail, get, guard}
use cominit.Machine.{
  Machine, Kernel, Answer, clock_gettime, clock_nanosleep, setsid, umask, execve, zero_meta, extern,
  call, call_out, set_meta,
}
use cominit.Automount.Disk.{GptDisk}
use cominit.Automount.Search.{discover_rootfs}
use cominit.Boot.Protect.{TpmBuild, rootfs_key_location, protect_storage, attach_storage}
use cominit.Boot.Selinux.{load_selinux_policy, set_selinux_mode}
use cominit.Cli.{CliArgs, initial_args, parse_args}
use cominit.Keyring.{keyring_init_fake_hsm}
use cominit.Meta.Load.{load_verify_metadata}
use cominit.Minsetup.{
  setup_sysfiles, setup_sys_selinuxfiles, cleanup_sysfiles, cleanup_selinuxfiles, setup_rootfs,
  switch_into_rootfs,
}

abbrev pub root_wait_tries : ℕ
root_wait_tries = 10

abbrev pub root_wait_interval_millis : ℕ
root_wait_interval_millis = 500

-- A step whose failure is only printed.
abbrev pub ignored : {A : Type 0} → Outcome Machine A → Outcome Machine (Unit {0})
ignored (done a m) = done tt m
ignored (failed m) = done tt m
ignored (hung m) = hung m
ignored (fault m) = fault m

abbrev pub try : {A : Type 0} → Run Machine A → Run Machine (Unit {0})
try step m = ignored (step m)

-- `while (m() == false) { … }`: what follows a failed try.
abbrev pub retried : {A : Type 0} → Outcome Machine A → Run Machine A → Outcome Machine A
retried (done a m) again = done a m
retried (failed m) again = again m
retried (hung m) again = hung m
retried (fault m) again = fault m

-- `rfsMeta.crypt & COMINIT_CRYPTOPT_CRYPT`
unfoldable pub wants_crypt : ℕ → Bool
wants_crypt crypt = (crypt / 4) % 2 == 1

-- Seconds and nanoseconds of the time to wake up.
unfoldable pub wake_up : ℕ → ℕ → ℕ → ℕ × ℕ
wake_up micros sec nsec =
    let total = micros % 1000000 * 1000 + nsec in
    (sec + micros / 1000000 + total / 1000000000, total % 1000000000)

-- The settings of the build, and the rounds that the loops on fuel get.
pub record Build : Type 0 where
  pub initrd_selinux_policy_path : Bytes
  pub rootfs_selinux_policy_path : Bytes
  -- The directory and the descriptions of the keys, if it emulates an HSM.
  pub fake_hsm : Option (Bytes × Bytes)
  -- The TPM, if it is used.
  pub tpm : Option TpmBuild
  pub scan_rounds : ℕ
  pub read_rounds : ℕ

module _ (kernel : Kernel) (build : Build) where
  unfoldable pub enroll_keys : Option (Bytes × Bytes) → Run Machine (Unit {0})
  enroll_keys none = pure tt
  enroll_keys (some (key_dir, key_descs)) = try (keyring_init_fake_hsm kernel key_dir key_descs)

  -- clock_nanosleep(2) returns 0 or a positive error number, never -1: the loop has one round and
  -- the check behind it finds no error.
  unfoldable pub micro_sleep : ℕ → Run Machine Answer
  unfolding wake_up
  micro_sleep micros = do
    (sec, rest) ← call_out kernel clock_gettime
    let target = wake_up micros sec (get_or rest 0 0)
    extern kernel (clock_nanosleep (target.0) (target.1))

  -- The loop of the discovery, with the tries that are left after a failure.
  unfoldable pub wait_for_rootfs : ℕ → Bytes → Run Machine (Option GptDisk)
  unfolding micro_sleep
  wait_for_rootfs zero dev_node m = discover_rootfs kernel build.scan_rounds dev_node m
  wait_for_rootfs (suc tries) dev_node m =
      let again = wait_for_rootfs tries dev_node in
      retried (discover_rootfs kernel build.scan_rounds dev_node m)
        (try (micro_sleep (root_wait_interval_millis * 1000)) >>= λ _. again)

  unfoldable pub set_up_selinux : Bool → Run Machine (Unit {0})
  set_up_selinux enforce = do
    setup_sys_selinuxfiles kernel
    try (load_selinux_policy kernel build.initrd_selinux_policy_path)
    try (load_selinux_policy kernel build.rootfs_selinux_policy_path)
    if enforce then try (set_selinux_mode kernel 1) else pure tt

  -- From the metadata to the mounted rootfs and its secure storage, for the disk of the rootfs if it
  -- was found on one.
  unfoldable pub mount_verified_rootfs : CliArgs → Option GptDisk → Run Machine (Unit {0})
  unfolding wants_crypt
  mount_verified_rootfs ctx disk = do
    load_verify_metadata kernel build.read_rounds rootfs_key_location
    m ← get
    guard (if wants_crypt m.meta.crypt then false else true)
    protected ← protect_storage kernel build.tpm build.scan_rounds disk ctx
    setup_rootfs kernel
    attach_storage kernel build.tpm protected

  -- From the mounted rootfs to its init; an execve that returns has failed.
  unfoldable pub start_rootfs : CliArgs → Run Machine ℕ
  unfolding set_up_selinux
  start_rootfs ctx = do
    if ctx.enable_selinux then try (set_up_selinux ctx.enable_enforce_mode) else pure tt
    if ctx.enable_selinux then try (cleanup_selinuxfiles kernel) else pure tt
    try (cleanup_sysfiles kernel)
    switch_into_rootfs kernel
    call kernel (execve (codes "/sbin/init") (codes "/sbin/init" ∷ []))

  -- `failed` is the jump to the rescue shell, `done` that the rootfs has taken over.
  unfoldable pub boot : CliArgs → Run Machine ℕ
  unfolding enroll_keys wait_for_rootfs mount_verified_rootfs start_rootfs
  boot ctx = do
    extern kernel setsid
    extern kernel (umask 0)
    setup_sysfiles kernel
    enroll_keys build.fake_hsm
    set_meta (λ _. zero_meta)
    disk ← wait_for_rootfs root_wait_tries ctx.dev_node_root_fs
    mount_verified_rootfs ctx disk
    start_rootfs ctx

  -- `done` is that another program has taken over.
  unfoldable pub main_run : CliArgs → Run Machine ℕ
  unfolding boot
  main_run ctx m =
      retried (boot ctx m) (call kernel (execve (codes "/bin/sh") (codes "/bin/sh" ∷ [])))

  -- The version and the usage end in EXIT_FAILURE, as a rescue shell that does not start.
  abbrev pub run_parsed : Option CliArgs → Run Machine ℕ
  run_parsed none = fail
  run_parsed (some ctx) = main_run ctx

  unfoldable pub main : ℕ → List Bytes → Run Machine ℕ
  unfolding main_run
  main pcr_count argv = run_parsed (parse_args pcr_count argv initial_args)
