-- ===== src/Securememory/Held.antt =====
-- The buffers for keys, and the LUKS volumes, give back what they get.
use cominit.Base.{ℕ, [], ◌∷◌, Bytes, Option}
use cominit.Crypto.Passphrase.Held.{crypto_create_passphrase-Releases}
use cominit.Crypto.Passphrase.Quiet.{keyring_get_key-Respects, keyring_add_user_key-Respects}
use cominit.Cryptsetup.{
  cryptsetup_create_luks_volume, cryptsetup_open_luks_volume, cryptsetup_add_token,
}
use cominit.Machine.{Kernel, Handle}
use cominit.Machine.Held.{secret}
use cominit.Machine.Held.Balance.{Releases, Gives, Steady}
use cominit.Machine.Held.Bracket.{releases, steadies, Gives->>=}
use cominit.Machine.Held.Neutral.{neutral-Releases, neutral-Simple}
use cominit.Securememory.{
  Sizes, give_back, store_key, securememory_esys_unseal, format_with_key, format_locked,
  securememory_create_luks_volume, seal_passphrase, securememory_esys_create,
}
use cominit.Subprocess.Held.{subprocess_spawn-Releases, subprocess_spawn_and_write-Releases}

module _ (kernel : Kernel) (sizes : Sizes) where
  give_back-Gives : (buf : Bytes) → Gives (secret ∷ []) (give_back kernel sizes buf)
  unfolding give_back
  give_back-Gives buf = search releases depth 20

  store_key-Steady : (key : Bytes) → Steady (store_key kernel sizes key)
  unfolding store_key
  store_key-Steady key =
      search (steadies, neutral-Releases, neutral-Simple, keyring_add_user_key-Respects) depth 20

  pub securememory_esys_unseal-Releases :
      (blob session : Handle) → Releases [] (securememory_esys_unseal kernel sizes blob session)
  unfolding securememory_esys_unseal
  securememory_esys_unseal-Releases blob session =
      search (releases, store_key-Steady, give_back-Gives, Gives->>=, steadies) depth 20

  seal_passphrase-Steady :
      (primary : Handle) (digest : Bytes) → Steady (seal_passphrase kernel sizes primary digest)
  unfolding seal_passphrase
  seal_passphrase-Steady primary digest =
      search (steadies, crypto_create_passphrase-Releases) depth 20

  pub securememory_esys_create-Releases :
      (primary : Handle) (digest : Bytes)
      → Releases [] (securememory_esys_create kernel sizes primary digest)
  unfolding securememory_esys_create
  securememory_esys_create-Releases primary digest =
      search (releases, seal_passphrase-Steady, give_back-Gives, Gives->>=, steadies) depth 20

  module _ (dev_crypt : Bytes) where
    pub cryptsetup_open_luks_volume-Releases :
        Releases [] (cryptsetup_open_luks_volume kernel sizes.cryptsetup_dir dev_crypt)
    unfolding cryptsetup_open_luks_volume
    cryptsetup_open_luks_volume-Releases = search subprocess_spawn-Releases

    pub cryptsetup_add_token-Releases :
        Releases [] (cryptsetup_add_token kernel sizes.cryptsetup_dir dev_crypt)
    unfolding cryptsetup_add_token
    cryptsetup_add_token-Releases = search subprocess_spawn-Releases

    create_luks_volume-Releases :
        (passphrase : Bytes) (size : ℕ)
        → Releases []
            (cryptsetup_create_luks_volume kernel sizes.cryptsetup_dir dev_crypt passphrase size)
    unfolding cryptsetup_create_luks_volume
    create_luks_volume-Releases passphrase size =
        search (releases, subprocess_spawn_and_write-Releases) depth 20

    format_with_key-Steady :
        (got : Option (ℕ × Bytes)) (buf : Bytes)
        → Steady (format_with_key kernel sizes dev_crypt got buf)
    unfolding format_with_key
    format_with_key-Steady got buf = search (steadies, create_luks_volume-Releases) depth 20

    format_locked-Steady : (buf : Bytes) → Steady (format_locked kernel sizes dev_crypt buf)
    unfolding format_locked
    format_locked-Steady buf =
        search
          (
            steadies, neutral-Releases, neutral-Simple, keyring_get_key-Respects,
            format_with_key-Steady,
          )
          depth 20

    pub securememory_create_luks_volume-Releases :
        Releases [] (securememory_create_luks_volume kernel sizes dev_crypt)
    unfolding securememory_create_luks_volume
    securememory_create_luks_volume-Releases =
        search (releases, format_locked-Steady, give_back-Gives, Gives->>=, steadies) depth 20
