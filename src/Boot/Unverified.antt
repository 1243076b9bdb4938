-- ===== src/Boot/Unverified.antt =====
-- On a boot whose metadata is never verified.
use cominit.Base.{
  ℕ, zero, suc, false, ◌*◌, Bool, true, not, Option, none, some, Bytes, [], ◌∷◌, codes, length, ◌≡◌,
  refl,
}
use cominit.Base.Run.{Run, Outcome, done, failed, hung, fault, state, ◌>>=◌, ◌>>◌, >>=-eq-done}
use cominit.Automount.Disk.{GptDisk}
use cominit.Automount.Quiet.{find_partition-Respects}
use cominit.Automount.Search.{discover_rootfs}
use cominit.Boot.{
  Build, ignored, try, retried, enroll_keys, micro_sleep, wait_for_rootfs, mount_verified_rootfs,
  start_rootfs, boot, root_wait_tries, root_wait_interval_millis,
}
use cominit.Boot.Protect.{rootfs_key_location}
use cominit.Cli.{CliArgs}
use cominit.Keyring.{keyring_init_fake_hsm, fake_hsm_loop, enroll_key, keyring_add_user_key}
use cominit.Libc.Str.{starts_with, strtok}
use cominit.Machine.{Machine, Kernel, RfsMeta, Call, mount, unlink, rmdir, set_meta, zero_meta}
use cominit.Machine.Frame.{Respects, respects, is_quiet, >>-Respects, >>=-Respects-when}
use cominit.Machine.Frame.Added.{Adds, adds}
use cominit.Meta.Load.{load_verify_metadata}
use cominit.Meta.Load.Quiet.{load_verify_metadata-Respects}
use cominit.Minsetup.{setup_sysfiles, attempt}

-- A call that does not mount something at the place of the rootfs or below it, and removes nothing.
unfoldable pub spares_newroot : Call → Bool
spares_newroot (mount source target fs_type flags) = not (starts_with (codes "/newroot") target)
spares_newroot (unlink path) = false
spares_newroot (rmdir path) = false
spares_newroot _ = true

pub quiet-spares : (c : Call) → is_quiet c ≡ true → spares_newroot c ≡ true
unfolding spares_newroot
quiet-spares (mount source target fs_type flags) h = cc
quiet-spares (unlink path) h = cc
quiet-spares (rmdir path) h = cc
quiet-spares _ h = refl

reads : (m t : Machine) → t.trace ≡ m.trace → Adds spares_newroot m t
reads m t h = ([], h, tt)

sets : (f : RfsMeta → RfsMeta) → Respects (adds spares_newroot) (set_meta f)
sets f = record { at = λ m. reads m (record m { meta = f m.meta }) refl }

ignored-rel :
    {A : Type 0} (l : Machine) (o : Outcome Machine A)
    → Adds spares_newroot l (state o)
    → Adds spares_newroot l (state (ignored o))
ignored-rel l (done a m) h = h
ignored-rel l (failed m) h = h
ignored-rel l (hung m) h = h
ignored-rel l (fault m) h = h

try-Respects :
    {A : Type 0} (f : Run Machine A)
    → Respects (adds spares_newroot) f
    → Respects (adds spares_newroot) (try f)
try-Respects f h = record { at = λ m. ignored-rel m (f m) (h.at m) }

retried-rel :
    {A : Type 0} (l : Machine) (o : Outcome Machine A) (again : Run Machine A)
    → Adds spares_newroot l (state o)
    → Respects (adds spares_newroot) again
    → Adds spares_newroot l (state (retried o again))
retried-rel l (done a m) again h k = h
retried-rel l (failed m) again h k = (adds spares_newroot).through l m (state (again m)) h (k.at m)
retried-rel l (hung m) again h k = h
retried-rel l (fault m) again h k = h

dev_spared :
    (source fs_type : Bytes) (flags : ℕ)
    → spares_newroot (mount source (codes "/dev") fs_type flags) ≡ true
unfolding spares_newroot starts_with
dev_spared source fs_type flags = refl

proc_spared :
    (source fs_type : Bytes) (flags : ℕ)
    → spares_newroot (mount source (codes "/proc") fs_type flags) ≡ true
unfolding spares_newroot starts_with
proc_spared source fs_type flags = refl

module _ (kernel : Kernel) (build : Build) where
  setup_sysfiles-Respects : Respects (adds spares_newroot) (setup_sysfiles kernel)
  unfolding setup_sysfiles attempt
  setup_sysfiles-Respects = search (respects, quiet-spares, dev_spared, proc_spared) depth 20

  enroll_key-Respects :
      (key_dir desc : Bytes) → Respects (adds spares_newroot) (enroll_key kernel key_dir desc)
  unfolding enroll_key keyring_add_user_key
  enroll_key-Respects key_dir desc = search (respects, quiet-spares) depth 20

  fake_hsm_loop-Respects :
      (fuel : ℕ) (key_dir s : Bytes)
      → Respects (adds spares_newroot) (fake_hsm_loop kernel fuel key_dir s)
  unfolding fake_hsm_loop
  fake_hsm_loop-Respects zero key_dir s = search respects
  fake_hsm_loop-Respects (suc fuel) key_dir s =
      go (fake_hsm_loop-Respects fuel key_dir) (strtok b' ' s)
    where
      go :
          ((s : Bytes) → Respects (adds spares_newroot) (fake_hsm_loop kernel fuel key_dir s))
          → (token : Option (Bytes × Bytes))
          → Respects (adds spares_newroot) (λ m. elim token [
            | none ↦ done tt m
            | some (desc, rest) ↦
                (enroll_key kernel key_dir desc >>= λ _. fake_hsm_loop kernel fuel key_dir rest) m
          ])
      go again none = search respects
      go again (some (desc, rest)) = search (respects, enroll_key-Respects, again) depth 20

  enroll_keys-Respects :
      (hsm : Option (Bytes × Bytes)) → Respects (adds spares_newroot) (enroll_keys kernel build hsm)
  unfolding enroll_keys keyring_init_fake_hsm
  enroll_keys-Respects none = search respects
  enroll_keys-Respects (some (key_dir, key_descs)) =
      try-Respects _ (fake_hsm_loop-Respects (suc (length key_descs)) key_dir key_descs)

  discover_rootfs-Respects :
      (rounds : ℕ) (dev : Bytes)
      → Respects (adds spares_newroot) (discover_rootfs kernel rounds dev)
  unfolding discover_rootfs
  discover_rootfs-Respects rounds [] =
      search (respects, find_partition-Respects, sets, quiet-spares) depth 20
  discover_rootfs-Respects rounds (c ∷ dev) = search (respects, sets, quiet-spares) depth 20

  micro_sleep-Respects :
      (micros : ℕ) → Respects (adds spares_newroot) (micro_sleep kernel build micros)
  unfolding micro_sleep
  micro_sleep-Respects micros = search (respects, quiet-spares) depth 20

  wait_for_rootfs-Respects :
      (tries : ℕ) (dev : Bytes)
      → Respects (adds spares_newroot) (wait_for_rootfs kernel build tries dev)
  unfolding wait_for_rootfs
  wait_for_rootfs-Respects zero dev = record {
    at = (discover_rootfs-Respects build.scan_rounds dev).at;
  }
  wait_for_rootfs-Respects (suc tries) dev =
      let again = wait_for_rootfs-Respects tries dev in
      let slept =
        >>-Respects (adds spares_newroot)
          (try-Respects _ (micro_sleep-Respects (root_wait_interval_millis * 1000))) again in
      record {
        at = λ m.
            retried-rel m (discover_rootfs kernel build.scan_rounds dev m) _
              ((discover_rootfs-Respects build.scan_rounds dev).at m) slept;
      }

  module _
      (unverified : (u t : Machine)
        → ¬ (load_verify_metadata kernel build.read_rounds rootfs_key_location u ≡ done tt t)) where
    mount_verified_rootfs-Respects :
        (ctx : CliArgs) (disk : Option GptDisk)
        → Respects (adds spares_newroot) (mount_verified_rootfs kernel build ctx disk)
    unfolding mount_verified_rootfs
    mount_verified_rootfs-Respects ctx disk =
        >>=-Respects-when (adds spares_newroot) (λ _. ⊥)
          (load_verify_metadata kernel build.read_rounds rootfs_key_location)
          (load_verify_metadata-Respects (adds spares_newroot) quiet-spares kernel reads
            build.read_rounds rootfs_key_location)
          (λ m t a. unverified m t) λ a h. absurd h

    not_mounted :
        (ctx : CliArgs) (disk : Option GptDisk) (m t : Machine)
        → ¬ (mount_verified_rootfs kernel build ctx disk m ≡ done tt t)
    unfolding mount_verified_rootfs
    not_mounted ctx disk m t h =
        let (_, u, e, _) =
          >>=-eq-done (load_verify_metadata kernel build.read_rounds rootfs_key_location) _ m h in
        unverified m u e

    rest-Respects :
        (ctx : CliArgs) (disk : Option GptDisk)
        → Respects
            (adds spares_newroot)
            (mount_verified_rootfs kernel build ctx disk >> start_rootfs kernel build ctx)
    rest-Respects ctx disk =
        >>=-Respects-when (adds spares_newroot) (λ _. ⊥)
          (mount_verified_rootfs kernel build ctx disk) (mount_verified_rootfs-Respects ctx disk)
          (λ m t a. not_mounted ctx disk m t) λ a h. absurd h

    -- If no metadata passes the load and the verification with the key of the initramfs, a boot mounts nothing
    -- at /newroot or below it and removes no file of the initramfs, however it ends, and it does not hand
    -- over to the init of the rootfs.
    pub boot-unverified :
        (ctx : CliArgs) (m : Machine)
        → Adds spares_newroot m (state (boot kernel build ctx m))
          × ((n : ℕ) (t : Machine) → ¬ (boot kernel build ctx m ≡ done n t))
    unfolding boot
    boot-unverified ctx m = (
      whole.at m,
      λ n t h.
          let (_, u, _, h1) = >>=-eq-done (setup_sysfiles kernel) _ _ h in
          let (_, v, _, h2) = >>=-eq-done (enroll_keys kernel build build.fake_hsm) _ u h1 in
          let ready = record v { meta = zero_meta } in
          let (disk, found, _, h3) =
            >>=-eq-done (wait_for_rootfs kernel build root_wait_tries ctx.dev_node_root_fs) _ ready
              h2 in
          let (_, ended, e, _) =
            >>=-eq-done (mount_verified_rootfs kernel build ctx disk) _ found h3 in
          not_mounted ctx disk found ended e,
    )
      where
        whole : Respects (adds spares_newroot) (boot kernel build ctx)
        whole =
            search
              (
                respects, quiet-spares, sets, setup_sysfiles-Respects, enroll_keys-Respects,
                wait_for_rootfs-Respects, rest-Respects,
              )
              depth 20
