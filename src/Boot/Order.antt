-- ===== src/Boot/Order.antt =====
-- On the order of main, and the time that cominitMicroSleep computes.
use cominit.Base.{
  ◌/◌, ◌%◌, ◌≢◌, ==_iff, ℕ, ◌+◌, ◌*◌, ◌<◌, true, false, ◌≡◌, refl, sym, ap, ◌∙◌, arith,
  if◌then◌else◌, Option, some,
}
use cominit.Base.Run.{Outcome, done, state, >>=-eq-done, guard-eq-done}
use cominit.Machine.{Machine, Kernel, zero_meta}
use cominit.Automount.Disk.{GptDisk}
use cominit.Boot.{
  Build, wants_crypt, wake_up, enroll_keys, wait_for_rootfs, mount_verified_rootfs, start_rootfs,
  boot, root_wait_tries,
}
use cominit.Cli.Tpm.{use_tpm}
use cominit.Boot.Protect.Started.{StartsTpm, built-StartsTpm}
use cominit.Boot.Protect.{TpmBuild, rootfs_key_location, protect_storage, attach_storage}
use cominit.Boot.Protect.Order.{protect_storage-meta}
use cominit.Cli.{CliArgs}
use cominit.Meta.Load.{load_verify_metadata}
use cominit.Meta.Load.Reading.{ReadsFit}
use cominit.Meta.Load.Verified.{Loaded, load_verify_metadata-Loaded}
use cominit.Minsetup.{setup_sysfiles, setup_rootfs}
use cominit.Minsetup.Rootfs.{IsMounted, setup_rootfs-IsMounted}

-- The wake-up time of cominitMicroSleep is the current time and the microseconds, in nanoseconds, and
-- its nanoseconds are less than a second.
pub wake_up-exact :
    (micros sec nsec : ℕ)
    → ((wake_up micros sec nsec).1 < 1000000000)
      × ((wake_up micros sec nsec).0 * 1000000000 + (wake_up micros sec nsec).1
          ≡ sec * 1000000000 + nsec + micros * 1000)
unfolding wake_up
wake_up-exact micros sec nsec = (omega arith, omega arith)

-- A boot that reached the init of the rootfs: where it began to load the metadata, what was loaded
-- there, with the key of the initramfs, what main did with the TPM, which left the loaded metadata as it
-- is, and what was then mounted, for metadata without dm-crypt.
pub record Booted (kernel : Kernel) (build : Build) (ctx : CliArgs) (t : Machine) : Type 0 where
  pub ready : Machine
  pub found : Machine
  pub loaded : Machine
  pub protected : Machine
  pub mounted : Machine
  pub ended : Machine
  pub disk : Option GptDisk
  pub with_storage : CliArgs
  pub n_exec : ℕ
  pub blank : ready.meta ≡ zero_meta
  pub discovered :
      wait_for_rootfs kernel build root_wait_tries ctx.dev_node_root_fs ready ≡ done disk found
  pub verified : Loaded kernel build.read_rounds rootfs_key_location found loaded
  pub no_crypt : loaded.meta.crypt / 4 % 2 ≢ 1
  pub protects :
      protect_storage kernel build.tpm build.scan_rounds disk ctx loaded
      ≡ done with_storage protected
  pub starts_tpm :
      (tpm : TpmBuild)
      → build.tpm ≡ some tpm
      → use_tpm with_storage ≡ true
      → StartsTpm loaded protected
  pub same_meta : protected.meta ≡ loaded.meta
  pub mounts : IsMounted protected mounted
  pub attaches : attach_storage kernel build.tpm with_storage mounted ≡ done tt ended
  pub started : start_rootfs kernel build ctx ended ≡ done n_exec t

accepted : (crypt : ℕ) → (if wants_crypt crypt then false else true) ≡ true → crypt / 4 % 2 ≢ 1
unfolding wants_crypt
accepted crypt h e = cc (rw ((==_iff (crypt / 4 % 2) 1).1 e) at h)

-- If read(2) reports the bytes that it wrote, a boot that hands over to the init of the rootfs has
-- discovered a partition with an empty structure, loaded and verified the metadata of that partition
-- with the key of the initramfs, come through what main does with the TPM without a change to this
-- metadata, and mounted the rootfs just as this metadata, which does not ask for dm-crypt, says; only then
-- it went on to the storage, the switch and the init.
pub boot-Booted :
    (kernel : Kernel) (build : Build) (ctx : CliArgs) (m t : Machine) {n : ℕ}
    → ReadsFit kernel
    → boot kernel build ctx m ≡ done n t
    → Booted kernel build ctx t
unfolding boot mount_verified_rootfs
boot-Booted kernel build ctx m t {n} fit h =
    let (_, u, _, h1) = >>=-eq-done (setup_sysfiles kernel) _ _ h in
    let (_, v, _, h1) = >>=-eq-done (enroll_keys kernel build build.fake_hsm) _ u h1 in
    let ready = record v { meta = zero_meta } in
    let (disk, found, discovered, h2) =
      >>=-eq-done (wait_for_rootfs kernel build root_wait_tries ctx.dev_node_root_fs) _ ready h1 in
    let (_, ended, whole, started) =
      >>=-eq-done (mount_verified_rootfs kernel build ctx disk) _ found h2 in
    let (_, loaded, load, h3) =
      >>=-eq-done (load_verify_metadata kernel build.read_rounds rootfs_key_location) _ found
        whole in
    let (no_crypt, h4) =
      guard-eq-done (if wants_crypt loaded.meta.crypt then false else true) _ loaded h3 in
    let (with_storage, protected, protects, h5) =
      >>=-eq-done (protect_storage kernel build.tpm build.scan_rounds disk ctx) _ loaded h4 in
    let (_, mounted, mounts, attaches) = >>=-eq-done (setup_rootfs kernel) _ protected h5 in
    record {
      ready = ready;
      found = found;
      loaded = loaded;
      protected = protected;
      mounted = mounted;
      ended = ended;
      disk = disk;
      with_storage = with_storage;
      n_exec = n;
      blank = refl;
      discovered = discovered;
      verified =
          load_verify_metadata-Loaded kernel build.read_rounds rootfs_key_location found loaded fit
            load;
      no_crypt = accepted loaded.meta.crypt no_crypt;
      protects = protects;
      starts_tpm = λ tpm has_tpm used.
          built-StartsTpm kernel build.tpm tpm build.scan_rounds disk ctx with_storage loaded
            protected protects has_tpm used;
      same_meta =
          sym (ap (λ (o : Outcome Machine CliArgs). (state o).meta) protects)
          ∙ protect_storage-meta kernel build.tpm build.scan_rounds disk ctx loaded;
      mounts = setup_rootfs-IsMounted kernel protected mounted mounts;
      attaches = attaches;
      started = started;
    }
