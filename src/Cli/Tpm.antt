-- ===== src/Cli/Tpm.antt =====
-- When the TPM is used (src/cominit.c, src/tpm.c).
use cominit.Base.{
  ℕ, ◌<◌, Bool, true, false, ◌&&◌, ◌||◌, List, [], ◌∷◌, some, ltb, ◌≡◌, refl, ◌≢◌, ◌⊎◌, inl, inr,
  arith, All, Bytes, length,
}
use cominit.Cli.{CliArgs, initial_args, parse_args}
use cominit.Cli.Bounds.{parse_args-IsBounded}

unfoldable pub tpm_extend_enabled : CliArgs → Bool
tpm_extend_enabled ctx = ctx.pcr_set

unfoldable pub tpm_secure_storage_enabled : CliArgs → Bool
tpm_secure_storage_enabled ctx =
    ltb 0 (length ctx.dev_node_blob)
    && ltb 0 (length ctx.pcr_seal)
    && ltb 0 (length ctx.dev_node_crypt)

unfoldable pub use_tpm : CliArgs → Bool
unfolding tpm_extend_enabled tpm_secure_storage_enabled
use_tpm ctx = tpm_extend_enabled ctx || tpm_secure_storage_enabled ctx

nonempty : {A : Type 0} → (xs : List A) → ltb 0 (length xs) ≡ true → xs ≢ []
nonempty [] h = λ _. cc
nonempty (x ∷ xs) h = ground arith

all_three : (a b c : Bool) → (a && b && c) ≡ true → (a ≡ true) × (b ≡ true) × (c ≡ true)
all_three true true true h = (refl, refl, refl)
all_three _ _ _ h = cc

enabled-cases : (a b : Bool) → (a || b) ≡ true → (a ≡ true) ⊎ (b ≡ true)
enabled-cases true b h = inl refl
enabled-cases false b h = inr h

-- If the options of the command line turn the TPM on, it has what it needs: a PCR index below
-- TPM2_PT_PCR_COUNT to extend, or at least one index to seal against, all of them below it, and a
-- device for the blob and one for the volume.
pub parse_args-use_tpm :
    (pcr_count : ℕ) (args : List Bytes) (ctx : CliArgs)
    → parse_args pcr_count args initial_args ≡ some ctx
    → use_tpm ctx ≡ true
    → ((ctx.pcr_set ≡ true) × (ctx.pcr_index < pcr_count))
      ⊎ ((ctx.pcr_seal ≢ [])
          × All (λ i. i < pcr_count) ctx.pcr_seal
          × (ctx.dev_node_blob ≢ [])
          × (ctx.dev_node_crypt ≢ []))
unfolding use_tpm tpm_extend_enabled tpm_secure_storage_enabled
parse_args-use_tpm pcr_count args ctx h used =
    let bounds = parse_args-IsBounded pcr_count args ctx h in
    elim (enabled-cases ctx.pcr_set _ used) [
      | inl e ↦ inl (e, bounds.index_fits e)
      | inr e ↦
          let (blob, seal, crypt) =
            all_three (ltb 0 (length ctx.dev_node_blob)) (ltb 0 (length ctx.pcr_seal))
              (ltb 0 (length ctx.dev_node_crypt)) e in
          inr (
            nonempty ctx.pcr_seal seal,
            bounds.seals_fit,
            nonempty ctx.dev_node_blob blob,
            nonempty ctx.dev_node_crypt crypt,
          )
    ]
