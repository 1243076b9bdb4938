-- ===== src/Tpm/Blob/Halts.antt =====
-- The partition of the sealed blob comes to the end of its calls.
use cominit.Base.{
  ℕ, zero, suc, ◌<◌, ltb, Bool, true, false, if◌then◌else◌, Option, none, some, Bytes, [], ◌∷◌,
  ◌++◌, length, arith, inl, inr, Option-cases,
}
use cominit.Base.Run.{done, fault}
use cominit.Libc.Str.{strtok, strtok-shorter}
use cominit.Machine.{Machine, Kernel, mkdir, rootfs_dev_path_max}
use cominit.Machine.Halts.{Comes, Halts, halts, pure-Halts, >>=-Halts, extern-Halts, if-Halts}
use cominit.Minsetup.{is_tolerated, eexist}
use cominit.Tpm.Blob.{
  strcat_slash, mkdir_loop, mkdir_all, look_for_blob, mount_blob, tpm_setup_blob, tpm_save_blob,
  read_blob, tpm_load_blob, tpm_unmount_blob,
}

strcat_slash-Halts : (path token : Bytes) → Halts (strcat_slash path token)
strcat_slash-Halts path token = record {
  at = λ m. go (ltb (length (path ++ (b'/' ∷ token))) rootfs_dev_path_max) m;
}
  where
    go : (b : Bool) (m : Machine) → Comes (if b then done (path ++ (b'/' ∷ token)) m else fault m)
    go true m = tt
    go false m = tt

module _ (kernel : Kernel) where
  -- A token takes at least one byte.
  mkdir_loop-Halts :
      (fuel mode : ℕ) (unread path : Bytes)
      → length unread < fuel
      → Halts (mkdir_loop kernel fuel mode unread path)
  unfolding mkdir_loop
  mkdir_loop-Halts zero mode unread path lt = absurd (omega arith)
  mkdir_loop-Halts (suc fuel) mode unread path lt = record {
    at = λ m. elim (Option-cases (strtok b'/' unread)) [
      | inl e ↦ rw (e, Comes) tt
      | inr ((token, rest), e) ↦
          rw (e, Comes)
            ((>>=-Halts (strcat_slash-Halts path token) λ longer.
                >>=-Halts (extern-Halts kernel (mkdir longer mode)) λ a.
                  if-Halts (is_tolerated eexist a)
                    (mkdir_loop-Halts fuel mode rest longer
                      (omega (arith, strtok-shorter b'/' unread e)))
                    (pure-Halts longer)).at
              m)
    ];
  }

  all_tokens-Halts :
      (mode : ℕ) (path : Bytes) → Halts (mkdir_loop kernel (suc (length path)) mode path [])
  all_tokens-Halts mode path = mkdir_loop-Halts (suc (length path)) mode path [] (omega arith)

  pub mkdir_all-Halts :
      (looks : Bool) (path : Bytes) (mode : ℕ) → Halts (mkdir_all kernel looks path mode)
  unfolding mkdir_all
  mkdir_all-Halts looks path mode = search (halts, all_tokens-Halts) depth 20 fits 4000

  look_for_blob-Halts : (looks : Bool) → Halts (look_for_blob kernel looks)
  unfolding look_for_blob
  look_for_blob-Halts looks = search (halts, mkdir_all-Halts) depth 20 fits 4000

  mount_blob-Halts : (looks : Bool) (device : Bytes) → Halts (mount_blob kernel looks device)
  unfolding mount_blob
  mount_blob-Halts looks device = search (halts, look_for_blob-Halts) depth 20 fits 4000

  pub tpm_setup_blob-Halts :
      (looks : Bool) (device : Bytes) → Halts (tpm_setup_blob kernel looks device)
  unfolding tpm_setup_blob
  tpm_setup_blob-Halts looks [] = search halts
  tpm_setup_blob-Halts looks (c ∷ device) =
      search (halts, mkdir_all-Halts, mount_blob-Halts) depth 20 fits 4000

  pub tpm_save_blob-Halts : (blob : Option (Bytes × Bytes)) → Halts (tpm_save_blob kernel blob)
  unfolding tpm_save_blob
  tpm_save_blob-Halts none = search halts depth 20
  tpm_save_blob-Halts (some blob) = search halts depth 20

  read_blob-Halts : (fp public private : ℕ) → Halts (read_blob kernel fp public private)
  unfolding read_blob
  read_blob-Halts fp public private = search halts depth 30 fits 4000

  pub tpm_load_blob-Halts : (public private : ℕ) → Halts (tpm_load_blob kernel public private)
  unfolding tpm_load_blob
  tpm_load_blob-Halts public private = search (halts, read_blob-Halts) depth 20 fits 4000

  pub tpm_unmount_blob-Halts : Halts (tpm_unmount_blob kernel)
  unfolding tpm_unmount_blob
  tpm_unmount_blob-Halts = search halts
