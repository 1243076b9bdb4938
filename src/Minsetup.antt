-- ===== src/Minsetup.antt =====
-- src/minsetup.c: the mounts of the initramfs, of the rootfs, and the switch into it. The walk of nftw is
-- a parameter: the entries that it reports are answers.
pub mod Held
pub mod Halts
pub mod Rootfs
pub mod Switch
use cominit.Base.{
  ℕ, zero, suc, ◌+◌, Bool, true, false, not, ◌&&◌, ◌||◌, ltb, ◌==◌, if◌then◌else◌, Bytes, [], ◌∷◌,
  codes, equal,
}
use cominit.Base.Run.{Run, ◌>>=◌, ◌>>◌, pure, get, guard}
use cominit.Machine.{
  RfsMeta, Machine, Kernel, Call, Answer, ok, err, umask, mkdir, mount, umount_detach, nftw,
  nftw_entry, unlink, rmdir, chdir, chroot, cryptopt_none, extern, call,
}
use cominit.Dmctl.{setup_dm_device}

-- `errno` and the flags of `mount`.
abbrev pub eexist : ℕ
eexist = 17

abbrev pub ebusy : ℕ
ebusy = 16

abbrev pub ms_rdonly : ℕ
ms_rdonly = 1

abbrev pub ms_nosuid : ℕ
ms_nosuid = 2

abbrev pub ms_nodev : ℕ
ms_nodev = 4

abbrev pub ms_noexec : ℕ
ms_noexec = 8

abbrev pub ms_move : ℕ
ms_move = 8192

-- The type flags of nftw: a file, a directory whose entries were reported before, and a symbolic link.
abbrev pub ftw_f : ℕ
ftw_f = 0

abbrev pub ftw_sl : ℕ
ftw_sl = 4

abbrev pub ftw_dp : ℕ
ftw_dp = 5

abbrev pub reported : Answer → ℕ
reported (ok n bytes) = n
reported (err e) = 0

-- The call succeeded, or failed with the one error that is no failure.
unfoldable pub is_tolerated : ℕ → Answer → Bool
is_tolerated errno (ok n bytes) = true
is_tolerated errno (err e) = e == errno

-- A squashfs that may be written is refused.
unfoldable pub is_mountable : RfsMeta → Bool
is_mountable meta = not (not meta.ro && equal meta.fs_type (codes "squashfs"))

abbrev pub mount_flags : Bool → ℕ
mount_flags ro = if ro then ms_rdonly else 0

module _ (kernel : Kernel) where
  unfoldable pub attempt : Call → ℕ → Run Machine (Unit {0})
  unfolding is_tolerated
  attempt c errno = extern kernel c >>= λ a. guard (is_tolerated errno a)

  unfoldable pub setup_sysfiles : Run Machine (Unit {0})
  unfolding attempt
  setup_sysfiles = do
    extern kernel (umask 0)
    attempt (mkdir (codes "/dev") 493) eexist
    attempt (mount (codes "none") (codes "/dev") (codes "devtmpfs") (ms_noexec + ms_nosuid)) ebusy
    attempt (mkdir (codes "/proc") 365) eexist
    attempt (mount (codes "none") (codes "/proc") (codes "proc") (ms_nodev + ms_noexec + ms_nosuid))
        ebusy
    extern kernel (umask 18)
    pure tt

  unfoldable pub setup_sys_selinuxfiles : Run Machine (Unit {0})
  unfolding attempt
  setup_sys_selinuxfiles = do
    attempt (mkdir (codes "/sys") 493) eexist
    attempt (mkdir (codes "/sys/fs") 493) eexist
    attempt (mkdir (codes "/sys/fs/selinux") 493) eexist
    attempt
        (mount (codes "none") (codes "/sys/fs/selinux") (codes "selinuxfs")
          (ms_nodev + ms_noexec + ms_nosuid))
        ebusy

  unfoldable pub cleanup_sysfiles : Run Machine ℕ
  cleanup_sysfiles = call kernel (umount_detach (codes "/dev"))

  unfoldable pub cleanup_selinuxfiles : Run Machine ℕ
  cleanup_selinuxfiles = call kernel (umount_detach (codes "/sys/fs/selinux"))

  -- `crypt != COMINIT_CRYPTOPT_NONE && cominitSetupDmDevice(rfsMeta) == -1`
  unfoldable pub setup_mapping : ℕ → Run Machine (Unit {0})
  setup_mapping crypt = if crypt == cryptopt_none then pure tt else setup_dm_device kernel

  unfoldable pub mount_newroot : Run Machine ℕ
  mount_newroot = do
    m ← get
    call kernel (mount m.meta.device_path (codes "/newroot") m.meta.fs_type (mount_flags m.meta.ro))

  unfoldable pub setup_rootfs : Run Machine ℕ
  unfolding is_mountable setup_mapping attempt mount_newroot
  setup_rootfs = do
    m ← get
    guard (is_mountable m.meta)
    setup_mapping m.meta.crypt
    attempt (mkdir (codes "/newroot") 493) eexist
    mount_newroot

  -- The callback of the walk, which always goes on.
  unfoldable pub nftw_remove : Bytes → ℕ → ℕ → Run Machine ℕ
  nftw_remove fpath tflag level =
      if tflag == ftw_f || tflag == ftw_sl
      then (extern kernel (unlink fpath) >> pure 0)
      else if tflag == ftw_dp && ltb 0 level
      then (extern kernel (rmdir fpath) >> pure 0)
      else pure 0

  -- nftw calls it with each entry that it reports.
  unfoldable pub report : Answer → Run Machine ℕ
  unfolding nftw_remove
  report (ok tflag (level ∷ fpath)) = nftw_remove fpath tflag level
  report (ok tflag []) = pure 0
  report (err e) = pure 0

  unfoldable pub nftw_loop : ℕ → Run Machine (Unit {0})
  unfolding report
  nftw_loop zero = pure tt
  nftw_loop (suc left) =
      let rest = nftw_loop left in extern kernel nftw_entry >>= λ a. report a >>= λ _. rest

  -- How many entries there are; the walk that ends with -1 is only printed.
  unfoldable pub walk_initramfs : Run Machine (Unit {0})
  unfolding nftw_loop
  walk_initramfs = extern kernel (nftw (codes "/")) >>= λ a. nftw_loop (reported a)

  unfoldable pub switch_into_rootfs : Run Machine ℕ
  unfolding walk_initramfs
  switch_into_rootfs = do
    walk_initramfs
    call kernel (chdir (codes "/newroot"))
    call kernel (mount (codes "/newroot") (codes "/") [] ms_move)
    call kernel (chroot (codes "."))
    call kernel (chdir (codes "/"))
