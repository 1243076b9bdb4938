-- ===== src/Tests/Rootfs.antt =====
-- A rootfs on dm-verity, and the theorems on its setup.
use cominit.Base.{ℕ, ◌∷◌, [], ◌≡◌, refl, true, some, Bytes, codes}
use cominit.Base.Run.{done, state}
use cominit.Machine.{
  RfsMeta, Machine, Kernel, ok, err, open_file, dm_create, mkdir, mount, chdir, chroot, nftw,
  nftw_entry, unlink, rmdir, log, zero_meta,
}
use cominit.Dmctl.{
  target_type, setup_dm_device, map_device, create_new_dm_device, load_dm_table, start_dm_device,
}
use cominit.Dmctl.Setup.{IsMapped, setup_dm_device-IsMapped}
use cominit.Minsetup.{
  setup_rootfs, is_mountable, setup_mapping, attempt, is_tolerated, mount_newroot,
  switch_into_rootfs, walk_initramfs, nftw_loop, report, nftw_remove, ms_move, ftw_f, ftw_dp,
}
use cominit.Minsetup.Rootfs.{IsMounted, setup_rootfs-IsMounted}
use cominit.Minsetup.Switch.{Sweep, switch_into_rootfs-calls}

abbrev verity_meta : RfsMeta
verity_meta = record zero_meta {
  device_path = codes "/dev/sda2";
  fs_type = codes "squashfs";
  ro = true;
  crypt = 1;
  dm_verint_data_size_bytes = 409600;
  dm_table_verint = codes "1 /dev/sda2 /dev/sda2 4096 4096 100 1 sha256 ab cd";
}

abbrev before : Machine
before = record { meta = verity_meta; trace = [] }

-- A kernel on which /newroot is there already.
abbrev willing : Kernel
willing trace (mkdir path mode) = err 17
willing trace (open_file path) = ok 4 []
willing trace (dm_create fd name) = ok 65024 []
willing trace _ = ok 0 []

abbrev mapped : Machine
mapped = state (setup_dm_device willing before)

setup_dm_device-done : setup_dm_device willing before ≡ done tt mapped
unfolding setup_dm_device map_device create_new_dm_device load_dm_table start_dm_device target_type
setup_dm_device-done = refl

setup_dm_device-IsMapped_example : IsMapped before mapped
setup_dm_device-IsMapped_example =
    setup_dm_device-IsMapped willing before mapped setup_dm_device-done

verity_target : target_type before.meta ≡ some (codes "verity")
unfolding target_type
verity_target = refl

abbrev mounted : Machine
mounted = state (setup_rootfs willing before)

setup_rootfs-done : setup_rootfs willing before ≡ done 0 mounted
unfolding setup_rootfs is_mountable setup_mapping attempt is_tolerated mount_newroot setup_dm_device
    map_device create_new_dm_device load_dm_table start_dm_device target_type
setup_rootfs-done = refl

setup_rootfs-IsMounted_example : IsMounted before mounted
setup_rootfs-IsMounted_example = setup_rootfs-IsMounted willing before mounted setup_rootfs-done

-- It reports the file /init, the directory /etc and the root.
abbrev sweeping : Kernel
sweeping trace (nftw root) = ok 3 []
sweeping ((nftw root, a) ∷ trace) nftw_entry = ok ftw_f (1 ∷ codes "/init")
sweeping ((unlink path, a) ∷ trace) nftw_entry = ok ftw_dp (1 ∷ codes "/etc")
sweeping ((rmdir path, a) ∷ trace) nftw_entry = ok ftw_dp (0 ∷ codes "/")
sweeping trace _ = ok 0 []

abbrev switched : Machine
switched = state (switch_into_rootfs sweeping before)

switch_into_rootfs-done : switch_into_rootfs sweeping before ≡ done 0 switched
unfolding switch_into_rootfs walk_initramfs nftw_loop report nftw_remove
switch_into_rootfs-done = refl

switch_into_rootfs-calls_example :
    (walked : Machine) × Sweep before.trace walked.trace
    × (walked.meta ≡ before.meta)
    × (n1 : ℕ) × (b1 : Bytes) × (n2 : ℕ) × (b2 : Bytes) × (n3 : ℕ) × (b3 : Bytes) × (b4 : Bytes)
    × (switched
        ≡ log (chdir (codes "/")) 0 b4 (
            log (chroot (codes ".")) n3 b3 (
              log
                (mount (codes "/newroot") (codes "/") [] ms_move)
                n2
                b2
                (log (chdir (codes "/newroot")) n1 b1 walked))))
switch_into_rootfs-calls_example =
    switch_into_rootfs-calls sweeping before switched switch_into_rootfs-done
