-- ===== src/Automount/Held.antt =====
-- The search for a partition (src/automount.c) gives back what it gets: the descriptors of the disks, the
-- buffer of an entry, and the directory.
use cominit.Base.{ℕ, zero, suc, List, [], ◌∷◌, Option, none, some, Bytes, refl}
use cominit.Base.Run.{Run, Outcome, done, failed, hung, fault}
use cominit.Automount.Disk.{
  GptDisk, find_gpt, read_gpt, read_exactly, search_disk, find_partition_on_disk,
}
use cominit.Automount.Quiet.{terminated-Respects, scan_entries-Respects}
use cominit.Automount.Search.{
  probe, otherwise, visit, next_name, scan_devices, find_partition, discover_rootfs,
}
use cominit.Machine.{Machine, Kernel}
use cominit.Machine.Held.{Resource}
use cominit.Machine.Held.Balance.{Leaves, Releases}
use cominit.Machine.Held.Bracket.{releases}
use cominit.Machine.Held.Calls.{extern-Releases}
use cominit.Machine.Held.Neutral.{neutral-Releases, neutral-Simple}

module _ (kernel : Kernel) where
  find_gpt-Releases : (device : Bytes) → Releases [] (find_gpt kernel device)
  unfolding find_gpt read_gpt read_exactly
  find_gpt-Releases device = search releases depth 20

  search_disk-Releases :
      (disk : GptDisk) (fd : ℕ) (guid_type : Bytes) (size : ℕ)
      → Releases [] (search_disk kernel disk fd guid_type size)
  unfolding search_disk
  search_disk-Releases disk fd guid_type size =
      search (releases, neutral-Releases, neutral-Simple, scan_entries-Respects) depth 20

  pub find_partition_on_disk-Releases :
      (disk : GptDisk) (guid_type : Bytes) (size : ℕ)
      → Releases [] (find_partition_on_disk kernel disk guid_type size)
  unfolding find_partition_on_disk
  find_partition_on_disk-Releases disk guid_type size =
      search (releases, neutral-Releases, neutral-Simple, terminated-Respects, search_disk-Releases)
        depth 20

  module _ (guid_type : Bytes) (size : ℕ) where
    probe-Releases : (name : Bytes) → Releases [] (probe kernel guid_type size name)
    unfolding probe
    probe-Releases name =
        search (releases, find_gpt-Releases, find_partition_on_disk-Releases) depth 20

    otherwise-Leaves :
        {A : Type 0} (h : List Resource) (o : Outcome Machine A) (rest : Run Machine A)
        → Leaves h o
        → Releases [] rest
        → Leaves h (otherwise o rest)
    otherwise-Leaves h (done a t) rest l k = l
    otherwise-Leaves h (failed t) rest l k = k.at t h l
    otherwise-Leaves h (hung t) rest l k = tt
    otherwise-Leaves h (fault t) rest l k = tt

    visit-Releases :
        (name : Option Bytes) {rest : Run Machine (GptDisk × Bytes)}
        → Releases [] rest
        → Releases [] (visit kernel guid_type size name rest)
    visit-Releases none k = search releases
    visit-Releases (some name) {rest} k = record {
      at = λ m h e.
          otherwise-Leaves h (probe kernel guid_type size name m) rest
            ((probe-Releases name).at m h e) k;
    }

    scan_devices-Releases : (rounds : ℕ) → Releases [] (scan_devices kernel guid_type size rounds)
    unfolding scan_devices
    scan_devices-Releases zero = search releases
    scan_devices-Releases (suc rounds) =
        extern-Releases kernel _ refl
          λ a. visit-Releases (next_name a) (scan_devices-Releases rounds)

    pub find_partition-Releases :
        (rounds : ℕ) → Releases [] (find_partition kernel guid_type size rounds)
    unfolding find_partition
    find_partition-Releases rounds = search (releases, scan_devices-Releases) depth 20

  pub discover_rootfs-Releases :
      (rounds : ℕ) (dev : Bytes) → Releases [] (discover_rootfs kernel rounds dev)
  unfolding discover_rootfs
  discover_rootfs-Releases rounds [] = search (releases, find_partition-Releases) depth 20
  discover_rootfs-Releases rounds (c ∷ dev) = search releases depth 20
