-- ===== src/Minsetup/Held.antt =====
-- cominitSetupDmDevice and the mounts give back what they get.
use cominit.Base.{ℕ, zero, suc, [], ◌∷◌, Bytes, refl}
use cominit.Dmctl.{
  setup_dm_device, map_device, create_new_dm_device, load_dm_table, start_dm_device,
}
use cominit.Machine.{Kernel, RfsMeta, Answer, ok, err, nftw_entry}
use cominit.Machine.Held.Balance.{Releases, >>=-Releases}
use cominit.Machine.Held.Bracket.{releases}
use cominit.Machine.Held.Calls.{extern-Releases}
use cominit.Minsetup.{
  setup_sysfiles, setup_sys_selinuxfiles, cleanup_sysfiles, cleanup_selinuxfiles, attempt,
  setup_mapping, mount_newroot, setup_rootfs, nftw_remove, report, nftw_loop, walk_initramfs,
  switch_into_rootfs,
}

module _ (kernel : Kernel) where
  map_device-Releases :
      (fd : ℕ) (meta : RfsMeta) (target : Bytes) → Releases [] (map_device kernel fd meta target)
  unfolding map_device create_new_dm_device load_dm_table start_dm_device
  map_device-Releases fd meta target = search releases depth 20

  setup_dm_device-Releases : Releases [] (setup_dm_device kernel)
  unfolding setup_dm_device
  setup_dm_device-Releases = search (releases, map_device-Releases) depth 20

  setup_mapping-Releases : (crypt : ℕ) → Releases [] (setup_mapping kernel crypt)
  unfolding setup_mapping
  setup_mapping-Releases crypt = search (releases, setup_dm_device-Releases) depth 20

  pub setup_rootfs-Releases : Releases [] (setup_rootfs kernel)
  unfolding setup_rootfs attempt mount_newroot
  setup_rootfs-Releases = search (releases, setup_mapping-Releases) depth 20

  pub setup_sysfiles-Releases : Releases [] (setup_sysfiles kernel)
  unfolding setup_sysfiles attempt
  setup_sysfiles-Releases = search releases depth 20

  pub setup_sys_selinuxfiles-Releases : Releases [] (setup_sys_selinuxfiles kernel)
  unfolding setup_sys_selinuxfiles attempt
  setup_sys_selinuxfiles-Releases = search releases depth 20

  pub cleanup_sysfiles-Releases : Releases [] (cleanup_sysfiles kernel)
  unfolding cleanup_sysfiles
  cleanup_sysfiles-Releases = search releases

  pub cleanup_selinuxfiles-Releases : Releases [] (cleanup_selinuxfiles kernel)
  unfolding cleanup_selinuxfiles
  cleanup_selinuxfiles-Releases = search releases

  nftw_remove-Releases :
      (fpath : Bytes) (tflag level : ℕ) → Releases [] (nftw_remove kernel fpath tflag level)
  unfolding nftw_remove
  nftw_remove-Releases fpath tflag level = search releases depth 20

  report-Releases : (a : Answer) → Releases [] (report kernel a)
  unfolding report
  report-Releases (ok tflag []) = search releases
  report-Releases (ok tflag (level ∷ fpath)) = nftw_remove-Releases fpath tflag level
  report-Releases (err e) = search releases

  nftw_loop-Releases : (left : ℕ) → Releases [] (nftw_loop kernel left)
  unfolding nftw_loop
  nftw_loop-Releases zero = search releases
  nftw_loop-Releases (suc left) =
      extern-Releases kernel nftw_entry refl
        λ a. >>=-Releases (report-Releases a) λ _. nftw_loop-Releases left

  pub switch_into_rootfs-Releases : Releases [] (switch_into_rootfs kernel)
  unfolding switch_into_rootfs walk_initramfs
  switch_into_rootfs-Releases = search (releases, nftw_loop-Releases) depth 20
