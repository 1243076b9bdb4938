-- ===== src/Tpm/Protect/Existing.antt =====
-- What cominitTpmProtectData may do to a secure storage that is there.
use cominit.Base.{
  Bool, true, false, not, ◌||◌, if◌then◌else◌, ◌==◌, ==_iff, ◌∙◌, ap, Option, none, some, is_some,
  Bytes, [], ◌∷◌, codes, equal, ◌≡◌, refl,
}
use cominit.Base.Run.{Run, done, state, ◌>>=◌, pure, attempted, >>=-eq-done}
use cominit.Cli.{CliArgs}
use cominit.Cryptsetup.{luks_open}
use cominit.Machine.{
  Machine, Kernel, Trace, Call, Answer, ok, err, fork, access, mount, munlock, free_secret,
}
use cominit.Machine.Held.Neutral.{Quiet-Simple}
use cominit.Machine.Frame.{Respects, respects, is_quiet, >>=-Respects-when}
use cominit.Machine.Frame.Added.{Adds, adds}
use cominit.Minsetup.{ms_noexec}
use cominit.Securememory.{TpmState, tpm_failure, tpm_policy_failure, unsealed, sealed}
use cominit.Securememory.Quiet.{cryptsetup_open_luks_volume-Respects}
use cominit.Tpm.Blob.{
  BlobState, blob_is_empty, blob_exists, blob_not_found, enoent, blob_path, look_for_blob,
  mount_blob, tpm_setup_blob, mkdir_all, tpm_mnt_pt, s_irwxu,
}
use cominit.Tpm.Protect.{use_unsealed, tpm_setup_secure_storage, protect_with, tpm_protect_data}
use cominit.Tpm.Quiet.{tpm_setup_blob-Respects, tpm_unseal_blob-Respects, tpm_unmount_blob-Respects}
use cominit.Tpm.Seal.{Tss}

-- A call that does not start a program with the command to write a new LUKS header or a new file
-- system, which is the program's first argument.
unfoldable pub spares_storage : Call → Bool
spares_storage (fork path (program ∷ command ∷ argv)) =
    not (equal command (codes "luksFormat") || equal command (codes "-F"))
spares_storage _ = true

quiet-spares : (c : Call) → is_quiet c ≡ true → spares_storage c ≡ true
unfolding spares_storage
quiet-spares (fork path argv) h = cc
quiet-spares _ h = refl

gives-spares :
    (buf : Bytes)
    → (spares_storage (munlock buf) ≡ true) × (spares_storage (free_secret buf) ≡ true)
unfolding spares_storage
gives-spares buf = (refl, refl)

-- The sealed blob is not known to be missing.
abbrev pub KeepsBlob : Kernel → Type 0
KeepsBlob kernel = (t : Trace) → ¬ (kernel t (access blob_path) ≡ err enoent)

other_error :
    (b : Bool) (f : Run Machine BlobState) (m t : Machine) {blob : BlobState}
    → ¬ (b ≡ true)
    → (if b then f else pure blob_not_found) m ≡ done blob t
    → ¬ (blob ≡ blob_is_empty)
other_error true f m t n h = absurd (n refl)
other_error false f m t n h = cc

module _ (kernel : Kernel) (looks_like_dir : Bool) (there : KeepsBlob kernel) where
  look_for_blob-there :
      (m t : Machine) (blob : BlobState)
      → look_for_blob kernel looks_like_dir m ≡ done blob t
      → ¬ (blob ≡ blob_is_empty)
  unfolding look_for_blob
  look_for_blob-there m t blob h = go (kernel m.trace (access blob_path)) refl h
    where
      asked : Answer → Machine
      asked a = record m { trace = (access blob_path, a) ∷ m.trace }

      go :
          (a : Answer) {t : Machine} {blob : BlobState}
          → kernel m.trace (access blob_path) ≡ a
          → (elim a as (λ _. Run Machine BlobState) [
            | ok n bytes ↦ pure blob_exists
            | err e ↦
                if e == enoent
                then (attempted (mkdir_all kernel looks_like_dir tpm_mnt_pt s_irwxu) >>= λ made.
                    pure (if is_some made then blob_is_empty else blob_not_found))
                else pure blob_not_found
          ])
              (asked a)
            ≡ done blob t
          → ¬ (blob ≡ blob_is_empty)
      go (ok n bytes) q h = cc
      go (err e) q h =
          other_error (e == enoent) _ _ _
            (λ b. there m.trace (q ∙ ap (λ k. err k) ((==_iff e enoent).0 b))) h

  mount_blob-there :
      (dev : Bytes) (m t : Machine) (blob : BlobState)
      → mount_blob kernel looks_like_dir dev m ≡ done blob t
      → ¬ (blob ≡ blob_is_empty)
  unfolding mount_blob
  mount_blob-there dev m t blob h =
      go (kernel m.trace (mount dev tpm_mnt_pt (codes "ext4") ms_noexec)) m h
    where
      go :
          (a : Answer) (m : Machine) {t : Machine} {blob : BlobState}
          → (elim a as (λ _. Run Machine BlobState) [
            | ok n bytes ↦ look_for_blob kernel looks_like_dir
            | err e ↦ pure blob_not_found
          ])
              (record m { trace = (mount dev tpm_mnt_pt (codes "ext4") ms_noexec, a) ∷ m.trace })
            ≡ done blob t
          → ¬ (blob ≡ blob_is_empty)
      go (ok n bytes) m h = look_for_blob-there _ _ _ h
      go (err e) m h = cc

  setup-there :
      (dev : Bytes) (m t : Machine) (blob : BlobState)
      → tpm_setup_blob kernel looks_like_dir dev m ≡ done blob t
      → ¬ (blob ≡ blob_is_empty)
  unfolding tpm_setup_blob
  setup-there [] m t blob h = cc
  setup-there (c ∷ dev) m t blob h =
      let (made, u, _, h1) =
        >>=-eq-done (attempted (mkdir_all kernel looks_like_dir tpm_mnt_pt s_irwxu)) _ m h in
      go made u h1
    where
      go :
          (made : Option (Unit {0})) (u : Machine)
          → (if is_some made
                then mount_blob kernel looks_like_dir (c ∷ dev)
                else pure blob_not_found)
              u
            ≡ done blob t
          → ¬ (blob ≡ blob_is_empty)
      go none u h = cc
      go (some tt) u h = mount_blob-there (c ∷ dev) u t blob h

module _ (kernel : Kernel) (tss : Tss) (ctx : CliArgs) (there : KeepsBlob kernel) where
  open_spares :
      spares_storage
        (fork tss.sizes.cryptsetup_dir (luks_open tss.sizes.cryptsetup_dir ctx.dev_node_crypt))
      ≡ true
  unfolding spares_storage equal
  open_spares = refl

  use_unsealed-Respects :
      (state : TpmState)
      → Respects (adds spares_storage) (use_unsealed kernel tss ctx.dev_node_crypt false state)
  unfolding use_unsealed tpm_setup_secure_storage
  use_unsealed-Respects unsealed =
      search (respects, cryptsetup_open_luks_volume-Respects, quiet-spares, open_spares) depth 20
  use_unsealed-Respects tpm_failure = search respects
  use_unsealed-Respects tpm_policy_failure = search respects
  use_unsealed-Respects sealed = search respects

  protect_with-Respects :
      (blob : BlobState)
      → ¬ (blob ≡ blob_is_empty)
      → Respects (adds spares_storage) (protect_with kernel tss ctx blob)
  unfolding protect_with
  protect_with-Respects blob_is_empty h = absurd (h refl)
  protect_with-Respects blob_exists h =
      search (respects, use_unsealed-Respects, tpm_unseal_blob-Respects, quiet-spares, gives-spares)
        depth 20
  protect_with-Respects blob_not_found h = search respects

  -- If access(2) never reports that the sealed blob is missing, cominitTpmProtectData starts no program that
  -- writes a new LUKS header or a new file system, however it ends.
  pub tpm_protect_data-spares_storage :
      (m : Machine) → Adds spares_storage m (state (tpm_protect_data kernel tss ctx m))
  unfolding tpm_protect_data spares_storage
  tpm_protect_data-spares_storage m =
      let whole : Respects (adds spares_storage) (tpm_protect_data kernel tss ctx) =
        >>=-Respects-when (adds spares_storage) (λ blob. ¬ (blob ≡ blob_is_empty)) _
          (tpm_setup_blob-Respects (adds spares_storage)
            (Quiet-Simple (adds spares_storage) quiet-spares) kernel tss.looks_like_dir
            ctx.dev_node_blob refl)
          (setup-there kernel tss.looks_like_dir there ctx.dev_node_blob)
          (λ blob h.
            search
              (
                respects, protect_with-Respects, tpm_unmount_blob-Respects, Quiet-Simple,
                quiet-spares,
              )
              depth 20) in
      whole.at m
