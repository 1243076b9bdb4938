-- ===== src/Automount/Search/Found.antt =====
-- On the results of cominitAutomountFindPartition.
use cominit.Base.{
  ◌||◌, ℕ, zero, suc, ◌/◌, ◌%◌, ◌∷◌, ◌≢◌, take, ==_iff, Bool, true, false, not, ◌&&◌, ◌≡◌, refl, ap,
  Option, none, some, Bytes, ◌++◌, codes, ltb,
}
use cominit.Base.Run.{
  Run, Outcome, done, failed, hung, fault, pure, on_fail, >>=-eq-done, guard-eq-done,
  recovered-eq-done,
}
use cominit.Machine.{
  Machine, Kernel, ok, log, lstat, opendir, readdir, closedir, open_file, close_fd,
  rootfs_dev_path_max, extern, call-eq-done,
}
use cominit.Libc.Str.{starts_with}
use cominit.Automount.Node.{is_blacklisted_name}
use cominit.Automount.Disk.{
  GptDisk, find_gpt, read_gpt, read_exactly, automount_get_block_size, find_partition_on_disk,
}
use cominit.Automount.Search.{
  is_hidden, is_block, next_name, otherwise, visit, probe, scan_devices, find_partition,
}

-- No name of a loop, zram, device mapper, md, optical or ram device.
abbrev pub Allowed : Bytes → Type 0
Allowed name =
    (starts_with (codes "loop") name ≡ false)
    × (starts_with (codes "zram") name ≡ false)
    × (starts_with (codes "dm-") name ≡ false)
    × (starts_with (codes "md") name ≡ false)
    × (starts_with (codes "sr") name ≡ false)
    × (starts_with (codes "ram") name ≡ false)

-- A device of /dev whose table has the partition. The file type S_IFBLK is 6 in the bits from 12 on.
pub record IsFound (kernel : Kernel) (guid_type : Bytes) (size : ℕ) (disk : GptDisk) (node : Bytes)
    : Type 0 where
  pub name : Bytes
  pub mode : ℕ
  pub bytes : Bytes
  pub asked : Machine
  pub probed : Machine
  pub found : Machine
  pub shown : (rest : Bytes) → name ≢ b'.' ∷ rest
  pub allowed : Allowed name
  pub stated : kernel asked.trace (lstat (codes "/dev/" ++ name)) ≡ ok mode bytes
  pub block : mode / 4096 % 16 ≡ 6
  pub signature : starts_with (codes "EFI PART") disk.hdr ≡ true
  pub has_gpt :
      find_gpt kernel (codes "/dev/" ++ name) (log (lstat (codes "/dev/" ++ name)) mode bytes asked)
      ≡ done disk probed
  pub has_partition : find_partition_on_disk kernel disk guid_type size probed ≡ done node found

is_hidden-dot : (name : Bytes) → is_hidden name ≡ false → (rest : Bytes) → name ≢ b'.' ∷ rest
unfolding is_hidden
is_hidden-dot name h rest e = cc (rw e at h)

none_of_six :
    (a b c d e f : Bool)
    → a || b || c || d || e || f ≡ false
    → (a ≡ false) × (b ≡ false) × (c ≡ false) × (d ≡ false) × (e ≡ false) × (f ≡ false)
none_of_six true b c d e f h = cc
none_of_six false true c d e f h = cc
none_of_six false false true d e f h = cc
none_of_six false false false true e f h = cc
none_of_six false false false false true f h = cc
none_of_six false false false false false true h = cc
none_of_six false false false false false false h = (refl, refl, refl, refl, refl, refl)

is_blacklisted_name-Allowed : (name : Bytes) → is_blacklisted_name name ≡ false → Allowed name
unfolding is_blacklisted_name
is_blacklisted_name-Allowed name h =
    none_of_six (starts_with (codes "loop") name) (starts_with (codes "zram") name)
      (starts_with (codes "dm-") name) (starts_with (codes "md") name)
      (starts_with (codes "sr") name) (starts_with (codes "ram") name) h

is_block-type : (mode : ℕ) → is_block mode ≡ true → mode / 4096 % 16 ≡ 6
unfolding is_block
is_block-type mode h = (==_iff (mode / 4096 % 16) 6).0 h

-- The header of a disk that was found begins with the signature.
read_gpt-signature :
    (kernel : Kernel) (fd : ℕ) (device : Bytes) (m t : Machine) (disk : GptDisk)
    → read_gpt kernel fd device m ≡ done disk t
    → starts_with (codes "EFI PART") disk.hdr ≡ true
unfolding read_gpt
read_gpt-signature kernel fd device m t disk h =
    let (size, u, _, h1) = >>=-eq-done (automount_get_block_size kernel fd) _ m h in
    let (hdr, v, _, h2) = >>=-eq-done (read_exactly kernel fd 92 size) _ u h1 in
    let (signed, h3) = guard-eq-done (starts_with (codes "EFI PART") hdr) _ v h2 in
    let same : record { disk_name = take rootfs_dev_path_max device; block_size = size; hdr = hdr }
        ≡ disk =
      cc in
    rw (ap (λ (d : GptDisk). d.hdr) same) at signed

find_gpt-signature :
    (kernel : Kernel) (device : Bytes) (m t : Machine) (disk : GptDisk)
    → find_gpt kernel device m ≡ done disk t
    → starts_with (codes "EFI PART") disk.hdr ≡ true
unfolding find_gpt
find_gpt-signature kernel device m t disk h =
    let (fd, bytes, _, h1) = call-eq-done kernel (open_file device) _ m h in
    let (d, u, h2, h3) =
      >>=-eq-done (on_fail (close_fd kernel fd) (read_gpt kernel fd device)) _ _ h1 in
    let whole = recovered-eq-done (close_fd kernel fd) _ h2 in
    let same : d ≡ disk = cc in read_gpt-signature kernel fd device _ u disk (rw same at whole)

both_not : (a b : Bool) → (not a && not b) ≡ true → (a ≡ false) × (b ≡ false)
both_not true b h = cc
both_not false true h = cc
both_not false false h = (refl, refl)

abbrev pair : GptDisk → Bytes → GptDisk × Bytes
pair a b = (a, b)

both_same :
    {a c : GptDisk} {b d : Bytes} {u t : Machine}
    → pure {A = GptDisk × Bytes} (a, b) u ≡ done (c, d) t
    → (a ≡ c) × (b ≡ d)
both_same {a} {c} {b} {d} h =
    let pairs : pair a b ≡ pair c d = cc in (ap (λ p. p.0) pairs, ap (λ p. p.1) pairs)

module _ (kernel : Kernel) (guid_type : Bytes) (size : ℕ) where
  probe-IsFound :
      (name : Bytes) (m : Machine) {disk : GptDisk} {node : Bytes} {t : Machine}
      → probe kernel guid_type size name m ≡ done (disk, node) t
      → IsFound kernel guid_type size disk node
  unfolding probe
  probe-IsFound name m {disk} {node} {t} h =
      let (good, h1) =
        guard-eq-done (not (is_hidden name) && not (is_blacklisted_name name)) _ m h in
      let (shown, allowed) = both_not (is_hidden name) (is_blacklisted_name name) good in
      let (mode, bytes, stated, h2) = call-eq-done kernel (lstat (codes "/dev/" ++ name)) _ m h1 in
      let (block, h3) = guard-eq-done (is_block mode) _ _ h2 in
      let (disk', u, has_gpt, h4) = >>=-eq-done (find_gpt kernel (codes "/dev/" ++ name)) _ _ h3 in
      let (node', v, has_partition, h5) =
        >>=-eq-done (find_partition_on_disk kernel disk' guid_type size) _ u h4 in
      let (same_disk, same_node) = both_same h5 in
      record {
        name = name;
        mode = mode;
        bytes = bytes;
        asked = m;
        probed = u;
        found = v;
        shown = is_hidden-dot name shown;
        allowed = is_blacklisted_name-Allowed name allowed;
        stated = stated;
        block = is_block-type mode block;
        signature = find_gpt-signature kernel _ _ u disk (rw same_disk at has_gpt);
        has_gpt = rw same_disk at has_gpt;
        has_partition = rw (same_disk, same_node) at has_partition;
      }

  one :
      (name : Bytes) (u : Machine) (o : Outcome Machine (GptDisk × Bytes))
      (rest : Run Machine (GptDisk × Bytes)) {disk : GptDisk} {node : Bytes} {t : Machine}
      → probe kernel guid_type size name u ≡ o
      → ((v : Machine) → rest v ≡ done (disk, node) t → IsFound kernel guid_type size disk node)
      → otherwise o rest ≡ done (disk, node) t
      → IsFound kernel guid_type size disk node
  one name u (done p v) rest e more h = probe-IsFound name u (rw h at e)
  one name u (failed v) rest e more h = more v h
  one name u (hung v) rest e more h = cc
  one name u (fault v) rest e more h = cc

  listed :
      (o : Option Bytes) (rest : Run Machine (GptDisk × Bytes)) (u : Machine) {disk : GptDisk}
      {node : Bytes} {t : Machine}
      → ((v : Machine) → rest v ≡ done (disk, node) t → IsFound kernel guid_type size disk node)
      → visit kernel guid_type size o rest u ≡ done (disk, node) t
      → IsFound kernel guid_type size disk node
  listed none rest u more h = cc
  listed (some name) rest u more h =
      one name u (probe kernel guid_type size name u) rest refl more h

  scan_devices-IsFound :
      (rounds : ℕ) (m : Machine) {disk : GptDisk} {node : Bytes} {t : Machine}
      → scan_devices kernel guid_type size rounds m ≡ done (disk, node) t
      → IsFound kernel guid_type size disk node
  unfolding scan_devices
  scan_devices-IsFound zero m h = cc
  scan_devices-IsFound (suc rounds) m {disk} {node} {t} h =
      listed (next_name (kernel m.trace readdir)) (scan_devices kernel guid_type size rounds) _
        (λ v. scan_devices-IsFound rounds v) h

  -- A partition that cominitAutomountFindPartition returns is on a block device of /dev by
  -- lstat(2) whose name is neither hidden nor one of a loop, zram, device mapper, md, optical or ram device,
  -- and whose header has the signature of a GPT; its node is the one that the
  -- search of that disk's table returned.
  pub find_partition-IsFound :
      (rounds : ℕ) (m : Machine) {disk : GptDisk} {node : Bytes} {t : Machine}
      → find_partition kernel guid_type size rounds m ≡ done (disk, node) t
      → IsFound kernel guid_type size disk node
  unfolding find_partition
  find_partition-IsFound rounds m {disk} {node} {t} h =
      let (_, h1) = guard-eq-done (ltb 0 size) _ m h in
      let (n, bytes, _, h2) = call-eq-done kernel (opendir (codes "/dev")) _ m h1 in
      let (p, u, h3, h4) =
        >>=-eq-done (on_fail (extern kernel closedir) (scan_devices kernel guid_type size rounds)) _
          _ h2 in
      let whole = recovered-eq-done (extern kernel closedir) _ h3 in
      let same : p ≡ (disk, node) = cc in scan_devices-IsFound rounds _ (rw same at whole)
