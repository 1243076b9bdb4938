-- ===== src/Tests/Tpms.antt =====
-- The TPM, the secure memory and the subprocesses: runs, and the theorems at them.
use cominit.Base.{ℕ, ◌∷◌, [], ◌≡◌, refl, arith, Bytes, length, replicate, take, some, ◌&&◌, ltb}
use cominit.Base.Run.{done, fault, state}
use cominit.Boot.Protect.{rootfs_key_location}
use cominit.Crypto.{crypto_verify_signature, verify_with_key}
use cominit.Machine.{
  Machine, Kernel, ok, err, tr, mlock, esys_create, access, pss_verify, esys_unseal, munlock,
  free_secret,
}
use cominit.Machine.Follows.{Ran}
use cominit.Tpm.Protect.Diagram.{storage, begun, ended}
use cominit.Tpm.Protect.Refinement.{tpm_protect_data-Ran}
use cominit.Machine.Frame.Added.{Adds}
use cominit.Meta.Load.{
  load_verify_metadata, read_region, verify_and_parse, bin_readall, read_loop, overwrite, c_string,
  zero_buf, metadata_offset,
}
use cominit.Securememory.{tpm_failure, securememory_esys_unseal, securememory_esys_create}
use cominit.Securememory.Unsealed.{Unsealed}
use cominit.Subprocess.{subprocess_spawn}
use cominit.Subprocess.Child.{Spawned, subprocess_spawn-Spawned}
use cominit.Tests.{start}
use cominit.Tests.Boots.{build, ctx, tpm}
use cominit.Tests.Metadata.{signed}
use cominit.Crypto.Passphrase.{crypto_create_passphrase}
use cominit.Libc.Str.{strtok}
use cominit.Tpm.Blob.{enoent, tpm_setup_blob, tpm_save_blob}
use cominit.Tpm.Seal.{tpm_seal_blob}
use cominit.Tpm.Pcr.{select_pcr, sizeof_select}
use mathlib.Core.Quot
use cominit.Tpm.Pcr.Registers.{Fitting, Registers, selection, select_pcr-Registers}
use cominit.Tpm.Pcr.Bits.{contains, is_selected, select_pcr-exact}
use cominit.Tpm.Protect.{mkfs, mkfs_args, tpm_protect_data}
use cominit.Tpm.Protect.Existing.{spares_storage, KeepsBlob, tpm_protect_data-spares_storage}

signed-KeepsBlob : KeepsBlob signed
signed-KeepsBlob t h = cc

tpm_protect_data-spares_storage_example :
    Adds spares_storage start (state (tpm_protect_data signed tpm.tss ctx start))
tpm_protect_data-spares_storage_example =
    tpm_protect_data-spares_storage signed tpm.tss ctx signed-KeepsBlob start

select_pcr-exact_example :
    (psel : Bytes) × (select_pcr (7 ∷ 10 ∷ 25 ∷ []) (replicate 4 0) ≡ some psel)
    × (length psel ≡ 4)
    × ((j : ℕ)
        → is_selected (take sizeof_select psel) j ≡ (ltb j 24 && contains (7 ∷ 10 ∷ 25 ∷ []) j))
select_pcr-exact_example =
    select_pcr-exact 4 (7 ∷ 10 ∷ 25 ∷ []) (omega arith, (omega arith, (omega arith, tt)))

-- Registers 10 and 7, in another order and one of them twice.
abbrev named : Fitting 4
named = (10 ∷ 7 ∷ 10 ∷ [], (omega arith, (omega arith, (omega arith, tt))))

abbrev pair : Registers 4
pair = Quot.mk (7 ∷ 10 ∷ [], (omega arith, (omega arith, tt)))

select_pcr-Registers_example :
    (select_pcr (10 ∷ 7 ∷ 10 ∷ []) (replicate 4 0) ≡ some (selection 4 (Quot.mk named)))
    × (selection 4 (Quot.mk named) ≡ selection 4 pair → Quot.mk named ≡ pair)
select_pcr-Registers_example = select_pcr-Registers 4 named pair

abbrev formatted : Machine
formatted = state (subprocess_spawn signed mkfs mkfs_args start)

subprocess_spawn-Spawned_example :
    (subprocess_spawn signed mkfs mkfs_args start ≡ done tt formatted
      → Spawned signed mkfs mkfs_args start formatted)
    × (Spawned signed mkfs mkfs_args start formatted
        → subprocess_spawn signed mkfs mkfs_args start ≡ done tt formatted)
subprocess_spawn-Spawned_example = subprocess_spawn-Spawned signed mkfs mkfs_args start formatted

-- That partition, for which no signature fits.
abbrev pub forged : Kernel
forged trace (pss_verify hash signature) = err 1
forged trace c = signed trace c

pub forged-unverified :
    (u t : Machine)
    → ¬ (load_verify_metadata forged build.read_rounds rootfs_key_location u ≡ done tt t)
unfolding load_verify_metadata read_region verify_and_parse bin_readall read_loop overwrite c_string
    zero_buf metadata_offset crypto_verify_signature verify_with_key
forged-unverified u t h = cc

-- Esys_Create fails, which is not returned: the blob that was not made is written all the same.
abbrev no_create : Kernel
no_create trace (esys_create primary digest secret) = err 7
no_create trace (access path) = err enoent
no_create trace c = signed trace c

protects_nothing :
    tpm_protect_data no_create tpm.tss ctx start
    ≡ fault (state (tpm_protect_data no_create tpm.tss ctx start))
unfolding tpm_protect_data tpm_setup_blob strtok tpm_seal_blob select_pcr securememory_esys_create
    crypto_create_passphrase tpm_save_blob
protects_nothing = refl

-- The memory of an unsealed key cannot be locked: it is given back with the key in it.
abbrev no_lock : Kernel
no_lock trace (mlock size) = err 12
no_lock trace (esys_unseal blob session) = ok 3 (7 ∷ 8 ∷ 9 ∷ [])
no_lock trace c = signed trace c

keeps_key :
    securememory_esys_unseal no_lock tpm.tss.sizes (tr 1) (tr 2) start
    ≡ done tpm_failure (record start {
      trace =
          (free_secret (7 ∷ 8 ∷ 9 ∷ []), ok 1 [])
          ∷ (munlock (7 ∷ 8 ∷ 9 ∷ []), ok 1 [])
          ∷ (mlock 258, err 12)
          ∷ (esys_unseal (tr 1) (tr 2), ok 3 (7 ∷ 8 ∷ 9 ∷ []))
          ∷ [];
    })
unfolding securememory_esys_unseal
keeps_key = refl

-- A first boot: there is no blob yet.
abbrev first_boot : Kernel
first_boot trace (access path) = err enoent
first_boot trace c = signed trace c

tpm_protect_data-Ran_example :
    Ran
      (storage tpm.tss.sizes.cryptsetup_dir ctx.dev_node_crypt)
      begun
      (λ s q. q ≡ ended s)
      start
      (tpm_protect_data first_boot tpm.tss ctx start)
tpm_protect_data-Ran_example = tpm_protect_data-Ran first_boot tpm.tss ctx start

abbrev with_key : Kernel
with_key trace (esys_unseal blob session) = ok 3 (7 ∷ 8 ∷ 9 ∷ [])
with_key trace c = signed trace c

abbrev unsealed_key : Machine
unsealed_key = state (securememory_esys_unseal with_key tpm.tss.sizes (tr 1) (tr 2) start)
