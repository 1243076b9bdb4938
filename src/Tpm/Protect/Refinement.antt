-- ===== src/Tpm/Protect/Refinement.antt =====
-- That cominitTpmProtectData follows the diagram.
use cominit.Base.{ℕ, true, false, Option, none, some, List, Bytes, ◌≡◌, refl}
use cominit.Base.Run.{◌>>=◌, ◌>>◌, pure, attempted}
use cominit.Cli.{CliArgs}
use cominit.Machine.{Machine, Kernel}
use cominit.Machine.Follows.{
  Follows, Ran, >>=-Follows, quietly, silent-Follows, attempted-Follows, pure-Follows, any-Returns,
  quiet-starts_nothing, gives-starts_nothing, quiet_mount,
}
use cominit.Machine.Way.{Diagram, starts_nothing}
use cominit.Machine.Held.Neutral.{Quiet-Simple}
use cominit.Machine.Frame.{Respects}
use cominit.Machine.Frame.Added.{adds}
use cominit.Machine.Returns.{Present}
use cominit.Securememory.{TpmState, tpm_failure, tpm_policy_failure, unsealed, sealed}
use cominit.Tpm.Blob.{
  BlobState, blob_is_empty, blob_exists, blob_not_found, tpm_setup_blob, tpm_unmount_blob,
}
use cominit.Tpm.Protect.{
  set_up, tpm_setup_secure_storage, use_unsealed, unseal_sealed, protect_with, tpm_protect_data,
}
use cominit.Tpm.Protect.Diagram.{
  Phase, begun, blob_made, keyed, opened, ready, ended, Silent, seals, unseals_new, unseals_old,
  rejects_new, rejects_old, opens_old, succeeds, fails, storage, set_up_new-Follows,
  set_up_old-Follows,
}
use cominit.Tpm.Protect.Kinds.{
  of_sealing, of_unsealing, tpm_seal_blob-Returns, tpm_unseal_blob-Returns,
}
use cominit.Tpm.Quiet.{
  tpm_setup_blob-Respects, tpm_seal_blob-Respects, tpm_unseal_blob-Respects,
  tpm_unmount_blob-Respects,
}
use cominit.Tpm.Seal.{Tss, tpm_seal_blob, tpm_unseal_blob}

-- The state that is returned is that of the phase.
abbrev Ends : TpmState → Phase → Type 0
Ends s q = q ≡ ended s

module _ (kernel : Kernel) (tss : Tss) (dev : Bytes) where
  abbrev diagram : Diagram
  diagram = storage tss.sizes.cryptsetup_dir dev

  ends : (p : Phase) (s : TpmState) → Silent p (ended s) → Follows diagram p Ends (pure s)
  ends p s edge =
      silent-Follows diagram p (ended s) Ends (pure s) edge
        (pure-Follows diagram (ended s) Ends s refl)

  set_up-Follows :
      (made : Option (Unit {0})) (q : Phase)
      → Present (λ u. q ≡ ready) made
      → Follows diagram q Ends (pure (set_up made))
  set_up-Follows none q h = ends q tpm_failure fails
  set_up-Follows (some u) q h = rw h (ends ready unsealed succeeds)

  reopened-Follows :
      (made : Option (Unit {0})) (q : Phase)
      → Present (λ u. q ≡ opened false) made
      → Follows diagram q Ends (pure (set_up made))
  reopened-Follows none q h = ends q tpm_failure fails
  reopened-Follows (some u) q h = rw h (
      silent-Follows diagram (opened false) ready Ends (pure unsealed) opens_old
        (ends ready unsealed succeeds))

  use_new-Follows :
      (s : TpmState)
      → of_unsealing s ≡ true
      → Follows diagram blob_made Ends (use_unsealed kernel tss dev true s)
  unfolding use_unsealed
  use_new-Follows unsealed h = silent-Follows diagram blob_made (keyed true) Ends _ unseals_new (
      >>=-Follows diagram (keyed true) (λ x q. Present (λ u. q ≡ ready) x) Ends
        (attempted (tpm_setup_secure_storage kernel tss dev true)) _
        (attempted-Follows diagram (keyed true) (λ u q. q ≡ ready) _
          (set_up_new-Follows kernel tss dev))
        set_up-Follows)
  use_new-Follows tpm_failure h = ends blob_made tpm_failure fails
  use_new-Follows tpm_policy_failure h = ends blob_made tpm_policy_failure rejects_new
  use_new-Follows sealed h = cc

  use_old-Follows :
      (s : TpmState)
      → of_unsealing s ≡ true
      → Follows diagram begun Ends (use_unsealed kernel tss dev false s)
  unfolding use_unsealed
  use_old-Follows unsealed h = silent-Follows diagram begun (keyed false) Ends _ unseals_old (
      >>=-Follows diagram (keyed false) (λ x q. Present (λ u. q ≡ opened false) x) Ends
        (attempted (tpm_setup_secure_storage kernel tss dev false)) _
        (attempted-Follows diagram (keyed false) (λ u q. q ≡ opened false) _
          (set_up_old-Follows kernel tss dev))
        reopened-Follows)
  use_old-Follows tpm_failure h = ends begun tpm_failure fails
  use_old-Follows tpm_policy_failure h = ends begun tpm_policy_failure rejects_old
  use_old-Follows sealed h = cc

  unseals :
      (pcr_seal : List ℕ) → Respects (adds starts_nothing) (tpm_unseal_blob kernel tss pcr_seal)
  unseals pcr_seal =
      tpm_unseal_blob-Respects (adds starts_nothing) quiet-starts_nothing kernel
        gives-starts_nothing tss pcr_seal

  made-Follows :
      (pcr_seal : List ℕ) (s : TpmState)
      → of_sealing s ≡ true
      → Follows diagram begun Ends
          (unseal_sealed kernel tss pcr_seal s >>= λ state. use_unsealed kernel tss dev true state)
  unfolding unseal_sealed use_unsealed
  made-Follows pcr_seal sealed h = silent-Follows diagram begun blob_made Ends _ seals (
      quietly diagram blob_made Ends (λ s. of_unsealing s ≡ true)
        (tpm_unseal_blob kernel tss pcr_seal) (use_unsealed kernel tss dev true) (unseals pcr_seal)
        (tpm_unseal_blob-Returns kernel tss pcr_seal) use_new-Follows)
  made-Follows pcr_seal tpm_failure h = ends begun tpm_failure fails
  made-Follows pcr_seal tpm_policy_failure h = cc
  made-Follows pcr_seal unsealed h = cc

module _ (kernel : Kernel) (tss : Tss) (ctx : CliArgs) where
  abbrev steps : Diagram
  steps = storage tss.sizes.cryptsetup_dir ctx.dev_node_crypt

  seals_blob : Respects (adds starts_nothing) (tpm_seal_blob kernel tss ctx.pcr_seal)
  seals_blob =
      tpm_seal_blob-Respects (adds starts_nothing) quiet-starts_nothing kernel gives-starts_nothing
        tss ctx.pcr_seal

  protect_with-Follows :
      (blob : BlobState) → Follows steps begun Ends (protect_with kernel tss ctx blob)
  unfolding protect_with
  protect_with-Follows blob_is_empty =
      quietly steps begun Ends (λ s. of_sealing s ≡ true) (tpm_seal_blob kernel tss ctx.pcr_seal) _
        seals_blob (tpm_seal_blob-Returns kernel tss ctx.pcr_seal)
        (made-Follows kernel tss ctx.dev_node_crypt ctx.pcr_seal)
  protect_with-Follows blob_exists =
      quietly steps begun Ends (λ s. of_unsealing s ≡ true)
        (tpm_unseal_blob kernel tss ctx.pcr_seal) _
        (unseals kernel tss ctx.dev_node_crypt ctx.pcr_seal)
        (tpm_unseal_blob-Returns kernel tss ctx.pcr_seal)
        (use_old-Follows kernel tss ctx.dev_node_crypt)
  protect_with-Follows blob_not_found = ends kernel tss ctx.dev_node_crypt begun tpm_failure fails

  unmounted-Follows :
      (s : TpmState) (q : Phase)
      → Ends s q
      → Follows steps q Ends (tpm_unmount_blob kernel >> pure s)
  unmounted-Follows s q e =
      quietly steps q Ends (λ _. Unit) (tpm_unmount_blob kernel) (λ _. pure s)
        (tpm_unmount_blob-Respects (adds starts_nothing)
          (Quiet-Simple (adds starts_nothing) quiet-starts_nothing) kernel)
        (any-Returns _) λ a u. pure-Follows steps q Ends s e

  tpm_protect_data-Follows : Follows steps begun Ends (tpm_protect_data kernel tss ctx)
  unfolding tpm_protect_data
  tpm_protect_data-Follows =
      quietly steps begun Ends (λ _. Unit)
        (tpm_setup_blob kernel tss.looks_like_dir ctx.dev_node_blob) _
        (tpm_setup_blob-Respects (adds starts_nothing)
          (Quiet-Simple (adds starts_nothing) quiet-starts_nothing) kernel tss.looks_like_dir
          ctx.dev_node_blob (quiet_mount _ _ _ _))
        (any-Returns _)
        λ blob u.
          >>=-Follows steps begun Ends Ends (protect_with kernel tss ctx blob) _
            (protect_with-Follows blob) unmounted-Follows

-- The programs that a run of cominitTpmProtectData starts, however it ends, are in turn those on a way
-- through the diagram of the secure storage: luksFormat, the token, luksOpen and mkfs, or luksOpen
-- alone. If the run returns, the way has come to the end with the returned state, so Unsealed is
-- returned only behind all the programs of one of these two rows.
pub tpm_protect_data-Ran :
    (kernel : Kernel) (tss : Tss) (ctx : CliArgs) (m : Machine)
    → Ran
        (storage tss.sizes.cryptsetup_dir ctx.dev_node_crypt)
        begun
        (λ s q. q ≡ ended s)
        m
        (tpm_protect_data kernel tss ctx m)
tpm_protect_data-Ran kernel tss ctx m = (tpm_protect_data-Follows kernel tss ctx).at m
