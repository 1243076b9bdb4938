-- ===== src/Tpm/Quiet.antt =====
-- The context, the partition of the blob, sealing and unsealing (src/tpm.c) as parts of a run that
-- does no more than a frame allows.
use cominit.Base.{
  ℕ, zero, suc, Bool, true, false, if◌then◌else◌, Option, none, some, List, Bytes, [], ◌∷◌, ◌++◌,
  ◌≡◌, codes, length, ltb,
}
use cominit.Base.Run.{done, fault, state, ◌>>=◌, pure}
use cominit.Crypto.Passphrase.Quiet.{create_sha256_digest_from_keyfile-Respects}
use cominit.Libc.Str.{strtok}
use cominit.Machine.{Machine, Kernel, Handle, mount, mkdir, extern, rootfs_dev_path_max}
use cominit.Machine.Held.Neutral.{Simple, Quiet-Simple}
use cominit.Machine.Frame.{Frame, Respects, Quiet, GivesBack, respects}
use cominit.Minsetup.{ms_noexec, is_tolerated, eexist}
use cominit.Securememory.Quiet.{
  securememory_esys_unseal-Respects, securememory_esys_create-Respects,
}
use cominit.Tpm.Blob.{
  tpm_mnt_pt, strcat_slash, mkdir_loop, mkdir_all, look_for_blob, mount_blob, tpm_setup_blob,
  tpm_save_blob, read_blob, tpm_load_blob, tpm_unmount_blob,
}
use cominit.Tpm.Context.{TpmContext, tpm_selftest, init_esys, init_tpm, tpm_extend_pcr, delete_tpm}
use cominit.Tpm.Pcr.{or_fault}
use cominit.Tpm.Seal.{
  Tss, flush_both, tpm_save_primary_handle, tpm_load_primary_handle, seal_in_session,
  seal_with_primary, tpm_seal, tpm_seal_blob, unseal_in_session, unseal_loaded, tpm_unseal,
  tpm_unseal_blob,
}

module _ (frame : Frame) (simple : Simple frame) (kernel : Kernel) where
  pub init_tpm-Respects : (ctx : TpmContext) → Respects frame (init_tpm kernel ctx)
  unfolding init_tpm init_esys tpm_selftest
  init_tpm-Respects ctx = search respects depth 20

  strcat_slash-Respects : (path token : Bytes) → Respects frame (strcat_slash path token)
  strcat_slash-Respects path token =
      let longer = path ++ (b'/' ∷ token) in
      record { at = go longer (ltb (length longer) rootfs_dev_path_max) }
    where
      go :
          (longer : Bytes) (b : Bool) (m : Machine)
          → frame.rel m (state (if b then done longer m else fault m))
      go longer true m = frame.same m
      go longer false m = frame.same m

  mkdir_loop-Respects :
      (fuel mode : ℕ) (unread path : Bytes)
      → Respects frame (mkdir_loop kernel fuel mode unread path)
  unfolding mkdir_loop
  mkdir_loop-Respects zero mode unread path = search respects
  mkdir_loop-Respects (suc fuel) mode unread path =
      go (mkdir_loop-Respects fuel mode) (strtok b'/' unread)
    where
      go :
          ((rest longer : Bytes) → Respects frame (mkdir_loop kernel fuel mode rest longer))
          → (token : Option (Bytes × Bytes))
          → Respects frame (λ m. elim token [
            | none ↦ done path m
            | some (token, rest) ↦
                (strcat_slash path token >>= λ longer. extern kernel (mkdir longer mode) >>= λ a.
                if is_tolerated eexist a
                then mkdir_loop kernel fuel mode rest longer
                else pure longer)
                  m
          ])
      go again none = search respects
      go again (some (token, rest)) = search (respects, strcat_slash-Respects, again) depth 20

  module _ (looks_like_dir : Bool) where
    pub mkdir_all-Respects :
        (path : Bytes) (mode : ℕ) → Respects frame (mkdir_all kernel looks_like_dir path mode)
    unfolding mkdir_all
    mkdir_all-Respects path mode = search (respects, mkdir_loop-Respects) depth 20

    look_for_blob-Respects : Respects frame (look_for_blob kernel looks_like_dir)
    unfolding look_for_blob
    look_for_blob-Respects = search (respects, mkdir_all-Respects) depth 20

    pub tpm_setup_blob-Respects :
        (dev : Bytes)
        → frame.allows (mount dev tpm_mnt_pt (codes "ext4") ms_noexec) ≡ true
        → Respects frame (tpm_setup_blob kernel looks_like_dir dev)
    unfolding tpm_setup_blob mount_blob
    tpm_setup_blob-Respects [] allowed = search respects
    tpm_setup_blob-Respects (c ∷ dev) allowed =
        search (respects, mkdir_all-Respects, look_for_blob-Respects) depth 20

  pub or_fault-Respects : {A : Type 0} (o : Option A) → Respects frame (or_fault o)
  or_fault-Respects none = search respects
  or_fault-Respects (some a) = search respects

  pub delete_tpm-Respects : (ctx : TpmContext) → Respects frame (delete_tpm kernel ctx)
  unfolding delete_tpm
  delete_tpm-Respects ctx = go (ctx.tcti_ctx) (ctx.esys_ctx)
    where
      go :
          (tcti esys : Option ℕ)
          → Respects frame (delete_tpm kernel (record { esys_ctx = esys; tcti_ctx = tcti }))
      go none esys = search respects
      go (some tcti) none = search respects
      go (some tcti) (some esys) = search respects depth 20

  pub tpm_unmount_blob-Respects : Respects frame (tpm_unmount_blob kernel)
  unfolding tpm_unmount_blob
  tpm_unmount_blob-Respects = search respects

module _ (frame : Frame) (quiet : Quiet frame) (kernel : Kernel) where
  pub tpm_extend_pcr-Respects :
      (keyfile : Bytes) (pcr_index : ℕ) → Respects frame (tpm_extend_pcr kernel keyfile pcr_index)
  unfolding tpm_extend_pcr
  tpm_extend_pcr-Respects keyfile pcr_index =
      search (respects, create_sha256_digest_from_keyfile-Respects) depth 20

  module _ (gives : GivesBack frame) (tss : Tss) where
    flush_both-Respects :
        (first second : Handle) → Respects frame (flush_both kernel tss first second)
    unfolding flush_both
    flush_both-Respects first second = search respects depth 20

    seal_in_session-Respects :
        (pcr_seal : List ℕ) (primary sess : Handle)
        → Respects frame (seal_in_session kernel tss pcr_seal primary sess)
    unfolding seal_in_session tpm_save_primary_handle
    seal_in_session-Respects pcr_seal primary sess =
        search (respects, Quiet-Simple, or_fault-Respects, securememory_esys_create-Respects) depth
          20

    seal_with_primary-Respects :
        (pcr_seal : List ℕ) (primary : Handle)
        → Respects frame (seal_with_primary kernel tss pcr_seal primary)
    unfolding seal_with_primary
    seal_with_primary-Respects pcr_seal primary =
        search (respects, flush_both-Respects, seal_in_session-Respects) depth 20

    tpm_seal-Respects : (pcr_seal : List ℕ) → Respects frame (tpm_seal kernel tss pcr_seal)
    unfolding tpm_seal
    tpm_seal-Respects pcr_seal =
        search (respects, flush_both-Respects, seal_with_primary-Respects) depth 20

    save_blob-Respects :
        (blob : Option (Bytes × Bytes)) → Respects frame (tpm_save_blob kernel blob)
    unfolding tpm_save_blob
    save_blob-Respects none = search respects depth 20
    save_blob-Respects (some (out_public, out_private)) = search respects depth 20

    pub tpm_seal_blob-Respects :
        (pcr_seal : List ℕ) → Respects frame (tpm_seal_blob kernel tss pcr_seal)
    unfolding tpm_seal_blob
    tpm_seal_blob-Respects pcr_seal =
        search (respects, tpm_seal-Respects, save_blob-Respects) depth 20

    unseal_in_session-Respects :
        (pcr_seal : List ℕ) (blob sess : Handle)
        → Respects frame (unseal_in_session kernel tss pcr_seal blob sess)
    unfolding unseal_in_session
    unseal_in_session-Respects pcr_seal blob sess =
        search (respects, Quiet-Simple, or_fault-Respects, securememory_esys_unseal-Respects) depth
          20

    unseal_loaded-Respects :
        (pcr_seal : List ℕ) (blob : Handle)
        → Respects frame (unseal_loaded kernel tss pcr_seal blob)
    unfolding unseal_loaded
    unseal_loaded-Respects pcr_seal blob =
        search (respects, flush_both-Respects, unseal_in_session-Respects) depth 20

    tpm_unseal-Respects :
        (pcr_seal : List ℕ) (primary : Handle) (blob : Bytes × Bytes)
        → Respects frame (tpm_unseal kernel tss pcr_seal primary blob)
    unfolding tpm_unseal
    tpm_unseal-Respects pcr_seal primary (out_public, out_private) =
        search (respects, flush_both-Respects, unseal_loaded-Respects) depth 20

    load_blob-Respects :
        (public_size private_size : ℕ)
        → Respects frame (tpm_load_blob kernel public_size private_size)
    unfolding tpm_load_blob read_blob
    load_blob-Respects public_size private_size = search respects depth 20

    pub tpm_unseal_blob-Respects :
        (pcr_seal : List ℕ) → Respects frame (tpm_unseal_blob kernel tss pcr_seal)
    unfolding tpm_unseal_blob tpm_load_primary_handle
    tpm_unseal_blob-Respects pcr_seal =
        search (respects, tpm_unseal-Respects, load_blob-Respects) depth 20
