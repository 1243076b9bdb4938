-- ===== src/Automount/Disk.antt =====
-- cominitAutomountFindGpt and cominitAutomountFindPartitionOnDisk. The fields of the header are read
-- as on a little-endian machine.
pub mod Entries
use cominit.Base.{
  ℕ, zero, suc, ◌+◌, ◌*◌, ◌%◌, ◌^◌, Bool, true, false, not, ◌&&◌, ltb, leb, ◌==◌, if◌then◌else◌,
  Bytes, [], ◌∷◌, codes, length, take,
}
use cominit.Base.Run.{Run, Outcome, done, fault, ◌>>=◌, ◌>>◌, pure, fail, guard, on_fail}
use cominit.Libc.Str.{starts_with}
use cominit.Common.{common_get_part_size}
use cominit.Machine.{
  Machine, Kernel, open_file, get_size, get_block_size, pread, malloc, free, rootfs_dev_path_max,
  extern, call, call_out, close_fd,
}
use cominit.Automount.Guid.{le32, format_guid, equal_case}
use cominit.Automount.Node.{build_partition_node}

-- cominitGPTDisk_t, with the bytes of the header.
pub record GptDisk : Type 0 where
  pub disk_name : Bytes
  pub block_size : ℕ
  pub hdr : Bytes

-- `sizeof(cominitGPTHeader_t)`
abbrev pub gpt_header_size : ℕ
gpt_header_size = 92

abbrev pub gpt_header_default_entry_size : ℕ
gpt_header_default_entry_size = 128

unfoldable pub partition_entries_lba : Bytes → ℕ
partition_entries_lba hdr = le32 hdr 72 + 2 ^ 32 * le32 hdr 76

unfoldable pub partition_entry_count : Bytes → ℕ
partition_entry_count hdr = le32 hdr 80

unfoldable pub partition_entry_size : Bytes → ℕ
partition_entry_size hdr = le32 hdr 84

-- In 64 bits.
unfoldable pub entry_offset : GptDisk → ℕ → ℕ
unfolding partition_entries_lba partition_entry_size
entry_offset disk entry_index =
    (partition_entries_lba disk.hdr * disk.block_size % 2 ^ 64
      + entry_index * partition_entry_size disk.hdr)
    % 2 ^ 64

unfoldable pub all_zero : Bytes → Bool
all_zero [] = true
all_zero (x ∷ xs) = x == 0 && all_zero xs

-- An entry in use whose type is the one looked for.
unfoldable pub has_type : Bytes → Bytes → Bool
unfolding all_zero
has_type guid_type entry =
    not (all_zero (take 16 entry)) && equal_case (format_guid entry) guid_type

-- A string that fills its array has no NUL.
unfoldable pub terminated : Bytes → Run Machine (Unit {0})
terminated name m = if ltb (length name) rootfs_dev_path_max then done tt m else fault m

unfoldable pub node_for : GptDisk → ℕ → ℕ → Run Machine Bytes
node_for disk idx size =
    let node = build_partition_node disk.disk_name idx size in guard (node.0) >> pure (node.1)

module _ (kernel : Kernel) where
  -- cominitAutomountGetBlockSize, by BLKSSZGET
  abbrev pub automount_get_block_size : ℕ → Run Machine ℕ
  automount_get_block_size fd = call kernel (get_block_size fd)

  -- `pread(…) != size` fails.
  unfoldable pub read_exactly : ℕ → ℕ → ℕ → Run Machine Bytes
  read_exactly fd size offset = do
    p ← call_out kernel (pread fd size offset)
    guard (p.0 == size)
    pure (p.1)

  unfoldable pub read_gpt : ℕ → Bytes → Run Machine GptDisk
  unfolding read_exactly starts_with
  read_gpt fd block_device = do
    block_size ← automount_get_block_size fd
    hdr ← read_exactly fd gpt_header_size block_size
    guard (starts_with (codes "EFI PART") hdr)
    pure (record {
      disk_name = take rootfs_dev_path_max block_device;
      block_size = block_size;
      hdr = hdr;
    })

  unfoldable pub find_gpt : Bytes → Run Machine GptDisk
  unfolding read_gpt
  find_gpt block_device = do
    fd ← call kernel (open_file block_device)
    gpt_disk ← on_fail (close_fd kernel fd) (read_gpt fd block_device)
    close_fd kernel fd
    pure gpt_disk

  -- The loop, with the entries that are left and the index.
  unfoldable pub scan_entries : GptDisk → ℕ → ℕ → Bytes → ℕ → ℕ → ℕ → Run Machine Bytes
  unfolding read_exactly has_type node_for
  scan_entries disk fd disk_size guid_type size zero idx = fail
  scan_entries disk fd disk_size guid_type size (suc left) idx =
      let rest = scan_entries disk fd disk_size guid_type size left (suc idx) in
      let offset = entry_offset disk idx in
      guard (leb offset disk_size)
      >> read_exactly fd (partition_entry_size disk.hdr) offset
      >>= λ entry. if has_type guid_type entry then node_for disk (idx + 1) size else rest

  -- From the size of the disk on.
  unfoldable pub search_disk : GptDisk → ℕ → Bytes → ℕ → Run Machine Bytes
  unfolding scan_entries partition_entry_count
  search_disk disk fd guid_type size = do
    let entry_size = partition_entry_size disk.hdr
    disk_size ← common_get_part_size kernel fd
    guard (leb gpt_header_default_entry_size entry_size && leb entry_size disk_size)
    call kernel (malloc entry_size)
    name ←
        on_fail (extern kernel free)
          (scan_entries disk fd disk_size guid_type size (partition_entry_count disk.hdr) 0)
    extern kernel free
    pure name

  unfoldable pub find_partition_on_disk : GptDisk → Bytes → ℕ → Run Machine Bytes
  unfolding search_disk terminated
  find_partition_on_disk disk guid_type size = do
    guard (ltb 0 (length disk.disk_name) && ltb 0 size)
    terminated disk.disk_name
    fd ← call kernel (open_file disk.disk_name)
    name ← on_fail (close_fd kernel fd) (search_disk disk fd guid_type size)
    close_fd kernel fd
    pure name
