-- ===== src/Minsetup/Halts.antt =====
-- The mounts, the mapping of the rootfs and the switch into it come to their end.
use cominit.Base.{ℕ, zero, suc, Bytes, [], ◌∷◌, codes}
use cominit.Dmctl.{
  create_new_dm_device, load_dm_table, start_dm_device, map_device, setup_dm_device,
}
use cominit.Machine.{RfsMeta, Kernel, Call, Answer, ok, err, nftw}
use cominit.Machine.Halts.{Halts, halts, >>=-Halts, extern-Halts}
use cominit.Minsetup.{
  reported, attempt, setup_sysfiles, setup_sys_selinuxfiles, cleanup_sysfiles, cleanup_selinuxfiles,
  setup_mapping, mount_newroot, setup_rootfs, nftw_remove, report, nftw_loop, walk_initramfs,
  switch_into_rootfs,
}

module _ (kernel : Kernel) where
  attempt-Halts : (c : Call) (errno : ℕ) → Halts (attempt kernel c errno)
  unfolding attempt
  attempt-Halts c errno = search halts

  pub setup_sysfiles-Halts : Halts (setup_sysfiles kernel)
  unfolding setup_sysfiles
  setup_sysfiles-Halts = search (halts, attempt-Halts) depth 30 fits 4000

  pub setup_sys_selinuxfiles-Halts : Halts (setup_sys_selinuxfiles kernel)
  unfolding setup_sys_selinuxfiles
  setup_sys_selinuxfiles-Halts = search (halts, attempt-Halts) depth 30 fits 4000

  pub cleanup_sysfiles-Halts : Halts (cleanup_sysfiles kernel)
  unfolding cleanup_sysfiles
  cleanup_sysfiles-Halts = search halts

  pub cleanup_selinuxfiles-Halts : Halts (cleanup_selinuxfiles kernel)
  unfolding cleanup_selinuxfiles
  cleanup_selinuxfiles-Halts = search halts

  map_device-Halts :
      (fd : ℕ) (meta : RfsMeta) (target : Bytes) → Halts (map_device kernel fd meta target)
  unfolding map_device create_new_dm_device load_dm_table start_dm_device
  map_device-Halts fd meta target = search halts depth 30 fits 4000

  setup_dm_device-Halts : Halts (setup_dm_device kernel)
  unfolding setup_dm_device
  setup_dm_device-Halts = search (halts, map_device-Halts) depth 30 fits 4000

  setup_mapping-Halts : (crypt : ℕ) → Halts (setup_mapping kernel crypt)
  unfolding setup_mapping
  setup_mapping-Halts crypt = search (halts, setup_dm_device-Halts)

  pub setup_rootfs-Halts : Halts (setup_rootfs kernel)
  unfolding setup_rootfs mount_newroot
  setup_rootfs-Halts = search (halts, setup_mapping-Halts, attempt-Halts) depth 30 fits 4000

  nftw_remove-Halts :
      (fpath : Bytes) (tflag level : ℕ) → Halts (nftw_remove kernel fpath tflag level)
  unfolding nftw_remove
  nftw_remove-Halts fpath tflag level = search halts depth 20

  report-Halts : (a : Answer) → Halts (report kernel a)
  unfolding report
  report-Halts (ok tflag (level ∷ fpath)) = nftw_remove-Halts fpath tflag level
  report-Halts (ok tflag []) = search halts
  report-Halts (err e) = search halts

  nftw_loop-Halts : (left : ℕ) → Halts (nftw_loop kernel left)
  unfolding nftw_loop
  nftw_loop-Halts zero = search halts
  nftw_loop-Halts (suc left) =
      >>=-Halts (extern-Halts kernel _) λ a. >>=-Halts (report-Halts a) λ _. nftw_loop-Halts left

  walk_initramfs-Halts : Halts (walk_initramfs kernel)
  unfolding walk_initramfs
  walk_initramfs-Halts =
      >>=-Halts (extern-Halts kernel (nftw (codes "/"))) λ a. nftw_loop-Halts (reported a)

  pub switch_into_rootfs-Halts : Halts (switch_into_rootfs kernel)
  unfolding switch_into_rootfs
  switch_into_rootfs-Halts = search (halts, walk_initramfs-Halts) depth 20
