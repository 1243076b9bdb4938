-- ===== src/Dmctl.antt =====
-- src/dmctl.c: cominitSetupDmDevice.
pub mod Setup
use cominit.Base.{
  ℕ, ◌-◌, ◌/◌, Bool, true, false, not, ◌==◌, if◌then◌else◌, Option, none, some, Bytes, codes, take,
}
use cominit.Base.Run.{Run, ◌>>=◌, ◌>>◌, pure, get, or_fail, on_fail}
use cominit.Machine.{
  RfsMeta, Machine, Kernel, open_file, dm_create, dm_load, dm_resume, mknod, cryptopt_verity,
  cryptopt_integrity, dm_table_size_max, set_meta, call, close_fd,
}

-- COMINIT_ROOTFS_DM_NAME
abbrev pub rootfs_dm_name : Bytes
rootfs_dm_name = codes "rootfs"

abbrev pub control_node : Bytes
control_node = codes "/dev/mapper/control"

abbrev pub mapped_path : Bytes
mapped_path = codes "/dev/mapper/rootfs"

-- A verity device that may be written is refused.
unfoldable pub target_type : RfsMeta → Option Bytes
target_type meta =
    if meta.crypt == cryptopt_verity
    then (if meta.ro then some (codes "verity") else none)
    else if meta.crypt == cryptopt_integrity
    then some (codes "integrity")
    else none

unfoldable pub set_device_path : Bytes → RfsMeta → RfsMeta
set_device_path path meta = record meta { device_path = path }

module _ (kernel : Kernel) where
  unfoldable pub create_new_dm_device : ℕ → Bytes → Run Machine ℕ
  create_new_dm_device dm_ctl_fd name = call kernel (dm_create dm_ctl_fd name)

  -- The table is cut at the size of `dmTbl`, its length counted in sectors.
  unfoldable pub load_dm_table : ℕ → ℕ → RfsMeta → Bytes → Run Machine ℕ
  load_dm_table dm_ctl_fd dev_id meta dm_tgt_str = call kernel (
      dm_load dm_ctl_fd dev_id meta.ro (meta.dm_verint_data_size_bytes / 512) dm_tgt_str
        (take (dm_table_size_max - 1) meta.dm_table_verint))

  unfoldable pub start_dm_device : ℕ → ℕ → Run Machine ℕ
  start_dm_device dm_ctl_fd dev_id = call kernel (dm_resume dm_ctl_fd dev_id)

  -- What is done while the control node is open.
  unfoldable pub map_device : ℕ → RfsMeta → Bytes → Run Machine ℕ
  unfolding create_new_dm_device load_dm_table start_dm_device set_device_path
  map_device dm_ctl_fd meta dm_tgt_str = do
    dev_id ← create_new_dm_device dm_ctl_fd rootfs_dm_name
    load_dm_table dm_ctl_fd dev_id meta dm_tgt_str
    start_dm_device dm_ctl_fd dev_id
    set_meta (set_device_path mapped_path)
    call kernel (mknod mapped_path (not meta.ro) dev_id)

  unfoldable pub setup_dm_device : Run Machine (Unit {0})
  unfolding map_device target_type
  setup_dm_device = do
    m ← get
    dm_tgt_str ← or_fail (target_type m.meta)
    dm_ctl_fd ← call kernel (open_file control_node)
    on_fail (close_fd kernel dm_ctl_fd) (map_device dm_ctl_fd m.meta dm_tgt_str)
    close_fd kernel dm_ctl_fd
    pure tt
