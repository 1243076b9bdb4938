-- ===== src/Automount/Search.antt =====
-- cominitAutomountFindPartition, and cominitDiscoverRootfs of src/cominit.c.
pub mod Found
pub mod Halts
use cominit.Base.{
  ℕ, zero, suc, ◌/◌, ◌%◌, Bool, true, false, not, ◌&&◌, ◌||◌, ltb, ◌==◌, if◌then◌else◌, Option,
  none, some, Bytes, [], ◌∷◌, ◌++◌, codes, length,
}
use cominit.Base.Run.{
  Run, Outcome, done, failed, hung, fault, ◌>>=◌, ◌>>◌, pure, fail, guard, on_fail,
}
use cominit.Machine.{
  Machine, Kernel, RfsMeta, Answer, ok, err, opendir, readdir, closedir, lstat, stat,
  rootfs_dev_path_max, extern, call, set_meta, value,
}
use cominit.Automount.Node.{is_blacklisted_name}
use cominit.Automount.Disk.{GptDisk, find_gpt, find_partition_on_disk}

-- `name[0] == '.'`
unfoldable pub is_hidden : Bytes → Bool
is_hidden [] = false
is_hidden (c ∷ name) = c == b'.'

-- S_ISBLK
unfoldable pub is_block : ℕ → Bool
is_block mode = mode / 4096 % 16 == 6

-- The next entry's name; `readdir` returns NULL at the end, and on an error.
unfoldable pub next_name : Answer → Option Bytes
next_name (ok zero name) = none
next_name (ok (suc n) name) = some name
next_name (err e) = none

-- `if (m() == EXIT_SUCCESS) break; else …`
abbrev pub otherwise : {A : Type 0} → Outcome Machine A → Run Machine A → Outcome Machine A
otherwise (done a m) rest = done a m
otherwise (failed m) rest = rest m
otherwise (hung m) rest = hung m
otherwise (fault m) rest = fault m

module _ (kernel : Kernel) (guid_type : Bytes) (size : ℕ) where
  -- One device: is it a disk with a table that has the partition? A symbolic link is no block device.
  unfoldable pub probe : Bytes → Run Machine (GptDisk × Bytes)
  unfolding is_hidden is_block
  probe name = do
    let device = codes "/dev/" ++ name
    guard (not (is_hidden name) && not (is_blacklisted_name name))
    mode ← call kernel (lstat device)
    guard (is_block mode)
    disk_to_probe ← find_gpt kernel device
    partition_name ← find_partition_on_disk kernel disk_to_probe guid_type size
    pure (disk_to_probe, partition_name)

  -- The body of the loop, and what comes after it.
  abbrev pub visit : Option Bytes → Run Machine (GptDisk × Bytes) → Run Machine (GptDisk × Bytes)
  visit none rest m = failed m
  visit (some name) rest m = otherwise (probe name m) rest

  -- `while ((deviceEntry = readdir(d)))`, with the rounds as fuel
  unfoldable pub scan_devices : ℕ → Run Machine (GptDisk × Bytes)
  unfolding next_name
  scan_devices zero m = hung m
  scan_devices (suc rounds) m =
      let rest = scan_devices rounds in (extern kernel readdir >>= λ a. visit (next_name a) rest) m

  unfoldable pub find_partition : ℕ → Run Machine (GptDisk × Bytes)
  unfolding scan_devices
  find_partition rounds = do
    guard (ltb 0 size)
    call kernel (opendir (codes "/dev"))
    found ← on_fail (extern kernel closedir) (scan_devices rounds)
    extern kernel closedir
    pure found

-- COMINIT_ROOTFS_GUID_TYPE
abbrev pub rootfs_guid_type : Bytes
rootfs_guid_type = codes "b921b045-1df0-41c3-af44-4c6f280d3fae"

unfoldable pub set_root_device : Bytes → RfsMeta → RfsMeta
set_root_device path meta = record meta { device_path = path }

-- The partition of the command line if there is one, else the one that is found; the disk is set in
-- the second case.
unfoldable pub discover_rootfs : Kernel → ℕ → Bytes → Run Machine (Option GptDisk)
unfolding find_partition set_root_device
discover_rootfs kernel rounds [] =
    find_partition kernel rootfs_guid_type rootfs_dev_path_max rounds >>= λ p.
    set_meta (set_root_device (p.1)) >> pure (some (p.0))
discover_rootfs kernel rounds (c ∷ dev_node) =
    call kernel (stat (c ∷ dev_node)) >> set_meta (set_root_device (c ∷ dev_node)) >> pure none
