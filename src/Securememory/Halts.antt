-- ===== src/Securememory/Halts.antt =====
-- The buffers for keys come to the end of their calls.
use cominit.Base.{ℕ, Option, Bytes}
use cominit.Crypto.Passphrase.Halts.{crypto_create_passphrase-Halts}
use cominit.Keyring.{keyring_add_user_key}
use cominit.Machine.{Kernel, Handle}
use cominit.Machine.Halts.{Halts, Parents, halts}
use cominit.Meta.Load.Halts.{keyring_get_key-Halts}
use cominit.Securememory.{
  Sizes, give_back, store_key, securememory_esys_unseal, format_with_key, format_locked,
  securememory_create_luks_volume, seal_passphrase, securememory_esys_create,
}
use cominit.Subprocess.Halts.{cryptsetup_create_luks_volume-Halts}

module _ (kernel : Kernel) (sizes : Sizes) where
  give_back-Halts : (buf : Bytes) → Halts (give_back kernel sizes buf)
  unfolding give_back
  give_back-Halts buf = search halts

  add_key-Halts : (desc key : Bytes) → Halts (keyring_add_user_key kernel desc key)
  unfolding keyring_add_user_key
  add_key-Halts desc key = search halts

  store_key-Halts : (key : Bytes) → Halts (store_key kernel sizes key)
  unfolding store_key
  store_key-Halts key = search (halts, add_key-Halts) depth 20 fits 4000

  pub securememory_esys_unseal-Halts :
      (blob session : Handle) → Halts (securememory_esys_unseal kernel sizes blob session)
  unfolding securememory_esys_unseal
  securememory_esys_unseal-Halts blob session =
      search (halts, store_key-Halts, give_back-Halts) depth 20 fits 4000

  seal_passphrase-Halts :
      (primary : Handle) (digest : Bytes) → Halts (seal_passphrase kernel sizes primary digest)
  unfolding seal_passphrase
  seal_passphrase-Halts primary digest =
      search (halts, crypto_create_passphrase-Halts) depth 20 fits 4000

  pub securememory_esys_create-Halts :
      (primary : Handle) (digest : Bytes)
      → Halts (securememory_esys_create kernel sizes primary digest)
  unfolding securememory_esys_create
  securememory_esys_create-Halts primary digest =
      search (halts, seal_passphrase-Halts, give_back-Halts) depth 20 fits 4000

  module _ (parents : Parents kernel) (dev_crypt : Bytes) where
    format_with_key-Halts :
        (got : Option (ℕ × Bytes)) (buf : Bytes)
        → Halts (format_with_key kernel sizes dev_crypt got buf)
    unfolding format_with_key
    format_with_key-Halts got buf =
        search (halts, cryptsetup_create_luks_volume-Halts) depth 20 fits 4000

    format_locked-Halts : (buf : Bytes) → Halts (format_locked kernel sizes dev_crypt buf)
    unfolding format_locked
    format_locked-Halts buf =
        search (halts, keyring_get_key-Halts, format_with_key-Halts) depth 20 fits 4000

    pub securememory_create_luks_volume-Halts :
        Halts (securememory_create_luks_volume kernel sizes dev_crypt)
    unfolding securememory_create_luks_volume
    securememory_create_luks_volume-Halts =
        search (halts, format_locked-Halts, give_back-Halts) depth 20 fits 4000
