-- ===== src/Tpm/Blob.antt =====
-- The partition of the sealed blob: cominitMkdir, cominitTpmSetupBlob, cominitTpmSaveBlob and
-- cominitTpmLoadBlob.
pub mod Halts
use cominit.Base.{
  ℕ, zero, suc, ◌-◌, Bool, ◌==◌, ltb, if◌then◌else◌, Option, none, some, is_some, Bytes, [], ◌∷◌,
  ◌++◌, codes, length, take,
}
use cominit.Base.Run.{Run, done, hung, fault, ◌>>=◌, ◌>>◌, pure, guard, attempted, finally}
use cominit.Libc.Str.{strtok}
use cominit.Machine.{
  Machine, Kernel, Answer, ok, err, open_file, mkdir, stat, mount, access, fwrite, fread_bytes,
  umount, extern, call, call_out, close_fd, rootfs_dev_path_max,
}
use cominit.Minsetup.{is_tolerated, eexist, ms_noexec}

-- COMINIT_TPM_MNT_PT and COMINIT_TPM_BLOB_LOCATION in it
abbrev pub tpm_mnt_pt : Bytes
tpm_mnt_pt = codes "/tpm"

abbrev pub blob_path : Bytes
blob_path = codes "/tpm/sealed.blob"

abbrev pub enoent : ℕ
enoent = 2

-- S_IRWXU
abbrev pub s_irwxu : ℕ
s_irwxu = 448

-- cominitBlobState_t
pub data BlobState : Type 0 where
  blob_is_empty blob_exists blob_not_found : BlobState

-- `strcat` to `currentPath`
abbrev pub strcat_slash : Bytes → Bytes → Run Machine Bytes
strcat_slash path token m =
    let longer = path ++ (b'/' ∷ token) in
    if ltb (length longer) rootfs_dev_path_max then done longer m else fault m

module _ (kernel : Kernel) where
  -- The loop, on the unread path; the path that it leaves is also left when a call has failed.
  unfoldable pub mkdir_loop : ℕ → ℕ → Bytes → Bytes → Run Machine Bytes
  unfolding is_tolerated
  mkdir_loop zero mode unread path m = hung m
  mkdir_loop (suc fuel) mode unread path m = elim (strtok b'/' unread) [
    | none ↦ done path m
    | some (token, rest) ↦
        (strcat_slash path token >>= λ longer. extern kernel (mkdir longer mode) >>= λ a.
        if is_tolerated eexist a then mkdir_loop fuel mode rest longer else pure longer)
          m
  ]

  -- `stat(…) != 0 && !S_ISDIR(statbuf.st_mode)`: a failed stat has not written `statbuf`, and what is
  -- then found in it is a parameter.
  unfoldable pub mkdir_all : Bool → Bytes → ℕ → Run Machine (Unit {0})
  unfolding mkdir_loop
  mkdir_all looks_like_dir dir_path mode = do
    let path_buffer = take (rootfs_dev_path_max - 1) dir_path
    current_path ← mkdir_loop (suc (length path_buffer)) mode path_buffer []
    a ← extern kernel (stat current_path)
    elim a [ ok n bytes ↦ pure tt | err e ↦ guard looks_like_dir ]

  -- The partition is mounted, and no blob is there.
  unfoldable pub look_for_blob : Bool → Run Machine BlobState
  look_for_blob looks_like_dir = do
    a ← extern kernel (access blob_path)
    elim a [
      | ok n bytes ↦ pure blob_exists
      | err e ↦
          if e == enoent
          then (attempted (mkdir_all looks_like_dir tpm_mnt_pt s_irwxu) >>= λ made.
              pure (if is_some made then blob_is_empty else blob_not_found))
          else pure blob_not_found
    ]

  unfoldable pub mount_blob : Bool → Bytes → Run Machine BlobState
  unfolding look_for_blob
  mount_blob looks_like_dir dev_node_blob = do
    a ← extern kernel (mount dev_node_blob tpm_mnt_pt (codes "ext4") ms_noexec)
    elim a [ ok n bytes ↦ look_for_blob looks_like_dir | err e ↦ pure blob_not_found ]

  -- cominitTpmSetupBlob
  unfoldable pub tpm_setup_blob : Bool → Bytes → Run Machine BlobState
  unfolding mkdir_all mount_blob
  tpm_setup_blob looks_like_dir [] = pure blob_not_found
  tpm_setup_blob looks_like_dir (c ∷ dev) =
      attempted (mkdir_all looks_like_dir tpm_mnt_pt s_irwxu) >>= λ made.
      if is_some made then mount_blob looks_like_dir (c ∷ dev) else pure blob_not_found

  -- cominitTpmSaveBlob. The results of `fwrite` are not read; a blob that was not made is NULL.
  unfoldable pub tpm_save_blob : Option (Bytes × Bytes) → Run Machine Answer
  tpm_save_blob blob = do
    fp ← call kernel (open_file blob_path)
    elim blob [
      | none ↦ λ m. fault m
      | some (out_public, out_private) ↦
          extern kernel (fwrite fp out_public)
          >> extern kernel (fwrite fp out_private)
          >> close_fd kernel fp
    ]

  unfoldable pub read_blob : ℕ → ℕ → ℕ → Run Machine (Bytes × Bytes)
  read_blob fp public_size private_size = do
    (n, out_public) ← call_out kernel (fread_bytes fp public_size)
    guard (n == public_size)
    (k, out_private) ← call_out kernel (fread_bytes fp private_size)
    guard (k == private_size)
    pure (out_public, out_private)

  -- cominitTpmLoadBlob
  unfoldable pub tpm_load_blob : ℕ → ℕ → Run Machine (Bytes × Bytes)
  unfolding read_blob
  tpm_load_blob public_size private_size = do
    fp ← call kernel (open_file blob_path)
    finally (close_fd kernel fp) (read_blob fp public_size private_size)

  unfoldable pub tpm_unmount_blob : Run Machine Answer
  tpm_unmount_blob = extern kernel (umount tpm_mnt_pt)
