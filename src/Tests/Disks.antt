-- ===== src/Tests/Disks.antt =====
-- A disk with a GPT, and the theorems on the search at it.
use cominit.Base.{
  ap, ℕ, zero, suc, ◌+◌, ◌≤◌, ◌<◌, ◌∷◌, [], ◌++◌, ◌==◌, if◌then◌else◌, ◌≡◌, refl, arith, false,
  Bytes, codes, replicate, length,
}
use cominit.Base.Run.{done, state}
use cominit.Machine.{Machine, Kernel, ok, pread, get_block_size, get_size, readdir, lstat}
use cominit.Automount.Guid.{format_guid, equal_case, le16, le32}
use cominit.Automount.Node.{
  partition_node, ends_with_digit, build_partition_node, is_blacklisted_name,
}
use cominit.Automount.Disk.Entries.{
  IsNode, behind_other, IsOfType, IsOfType-has_type, ends_with_digit-append,
}
use cominit.Automount.Disk.{
  GptDisk, has_type, all_zero, entry_offset, partition_entry_size, partition_entry_count,
  partition_entries_lba, scan_entries, find_gpt, read_gpt, read_exactly, search_disk,
  find_partition_on_disk, terminated, node_for,
}
use cominit.Automount.Disk.Entries.{scan_entries-first}
use cominit.Automount.Search.{
  rootfs_guid_type, find_partition, scan_devices, probe, next_name, is_hidden, is_block,
}
use cominit.Automount.Search.Found.{IsFound, find_partition-IsFound}
use cominit.Libc.Printf.{hex, decimal}
use cominit.Libc.Str.{starts_with}
use cominit.Tests.{start}

-- The bytes of the rootfs type, and an entry with them.
abbrev rootfs_entry : Bytes
rootfs_entry =
    0x45
    ∷ 0xB0
    ∷ 0x21
    ∷ 0xB9
    ∷ 0xF0
    ∷ 0x1D
    ∷ 0xC3
    ∷ 0x41
    ∷ 0xAF
    ∷ 0x44
    ∷ 0x4C
    ∷ 0x6F
    ∷ 0x28
    ∷ 0x0D
    ∷ 0x3F
    ∷ 0xAE
    ∷ replicate 112 0

-- Table at block 2, four entries of 128 bytes.
abbrev header : Bytes
header =
    codes "EFI PART"
    ++ (replicate 64 0
        ++ (2 ∷ 0 ∷ 0 ∷ 0 ∷ 0 ∷ 0 ∷ 0 ∷ 0 ∷ 4 ∷ 0 ∷ 0 ∷ 0 ∷ 128 ∷ 0 ∷ 0 ∷ 0 ∷ replicate 4 0))

abbrev sda : GptDisk
sda = record { disk_name = codes "/dev/sda"; block_size = 512; hdr = header }

-- The second entry is the rootfs; every name that is listed is `sda`.
abbrev entry_at : ℕ → Bytes
entry_at offset = if offset == 1152 then rootfs_entry else replicate 128 0

abbrev one_disk : Kernel
one_disk trace (get_block_size fd) = ok 512 []
one_disk trace (get_size fd) = ok 1000000 []
one_disk trace (pread fd size offset) = ok size (if offset == 512 then header else entry_at offset)
one_disk trace readdir = ok 1 (codes "sda")
one_disk trace (lstat path) = ok 24576 []
one_disk trace _ = ok 3 []

abbrev found : Machine
found = state (find_partition one_disk rootfs_guid_type 256 5 start)

find_partition-done :
    find_partition one_disk rootfs_guid_type 256 5 start ≡ done (sda, codes "/dev/sda2") found
unfolding find_partition scan_devices probe next_name is_hidden is_block is_blacklisted_name
    starts_with find_gpt read_gpt read_exactly find_partition_on_disk search_disk terminated
    scan_entries partition_entry_count has_type all_zero format_guid equal_case node_for
    build_partition_node partition_node ends_with_digit entry_offset partition_entries_lba
    partition_entry_size hex decimal le32 le16
find_partition-done = refl

find_partition-IsFound_example : IsFound one_disk rootfs_guid_type 256 sda (codes "/dev/sda2")
find_partition-IsFound_example =
    find_partition-IsFound one_disk rootfs_guid_type 256 5 start find_partition-done

-- The disk when it is open, and its table.
abbrev table : Kernel
table trace (pread fd size offset) = ok size (entry_at offset)
table trace _ = ok 3 []

abbrev entry : ℕ → Bytes
entry i = entry_at (entry_offset sda i)

sda-within : (i : ℕ) → i < 4 → entry_offset sda i ≤ 1000000
unfolding entry_offset partition_entries_lba partition_entry_size le32 le16
sda-within i h = omega arith

second : IsOfType rootfs_guid_type (entry 1)
unfolding format_guid equal_case hex entry_offset partition_entries_lba partition_entry_size le32
    le16
second = ((λ e. cc e), refl)

first : has_type rootfs_guid_type (entry 0) ≡ false
unfolding has_type all_zero format_guid equal_case hex entry_offset partition_entries_lba
    partition_entry_size le32 le16
first = refl

abbrev second_node : Bytes
second_node = codes "/dev/sda" ++ decimal 2

no_digit : ends_with_digit (codes "/dev/sda") ≡ false
unfolding ends_with_digit
no_digit = refl

second-IsNode : IsNode (codes "/dev/sda") 2 second_node
second-IsNode = behind_other λ front d same low high.
    cc (ap ends_with_digit same, ends_with_digit-append front d low high, no_digit)

fits : length second_node < 256
unfolding decimal
fits = omega arith

only_first : (j : ℕ) → j < 1 → has_type rootfs_guid_type (entry (0 + j)) ≡ false
only_first zero h = first
only_first (suc j) h = absurd (omega arith)

scan_entries-first_example :
    (t : Machine) × (scan_entries table sda 3 1000000 rootfs_guid_type 256 4 0 start
      ≡ done second_node t)
scan_entries-first_example =
    scan_entries-first table sda 3 1000000 4 rootfs_guid_type 256 entry (λ trace i h. refl)
      sda-within 1 4 0 second_node start (omega arith) (omega arith) second
      (λ j less typed. cc (IsOfType-has_type _ _ typed, only_first j less)) second-IsNode fits
