-- ===== src/Securememory/Quiet.antt =====
-- The LUKS volume and the buffers for keys (src/cryptsetup.c, src/securememory.c) as parts of a run
-- that does no more than a frame allows.
use cominit.Base.{ℕ, true, Option, Bytes, ◌≡◌}
use cominit.Crypto.Passphrase.Quiet.{
  crypto_create_passphrase-Respects, keyring_get_key-Respects, keyring_add_user_key-Respects,
}
use cominit.Cryptsetup.{
  luks_format, luks_open, token_add, cryptsetup_create_luks_volume, cryptsetup_open_luks_volume,
  cryptsetup_add_token,
}
use cominit.Machine.{Kernel, Handle, fork, munlock, free_secret}
use cominit.Machine.Held.Neutral.{Quiet-Simple}
use cominit.Machine.Frame.{Frame, Respects, Quiet, GivesBack, respects}
use cominit.Securememory.{
  Sizes, give_back, store_key, securememory_esys_unseal, format_with_key, format_locked,
  securememory_create_luks_volume, seal_passphrase, securememory_esys_create,
}
use cominit.Subprocess.Quiet.{subprocess_spawn-Respects, subprocess_spawn_and_write-Respects}

module _ (frame : Frame) (quiet : Quiet frame) (kernel : Kernel) (sizes : Sizes) where
  pub give_back-Respects :
      (buf : Bytes)
      → frame.allows (munlock buf) ≡ true
      → frame.allows (free_secret buf) ≡ true
      → Respects frame (give_back kernel sizes buf)
  unfolding give_back
  give_back-Respects buf h k = search respects

  pub store_key-Respects : (key : Bytes) → Respects frame (store_key kernel sizes key)
  unfolding store_key
  store_key-Respects key = search (respects, Quiet-Simple, keyring_add_user_key-Respects) depth 20

  pub any_back-Respects :
      GivesBack frame → (buf : Bytes) → Respects frame (give_back kernel sizes buf)
  any_back-Respects gives buf = give_back-Respects buf ((gives buf).0) ((gives buf).1)

  pub securememory_esys_unseal-Respects :
      GivesBack frame
      → (blob session : Handle)
      → Respects frame (securememory_esys_unseal kernel sizes blob session)
  unfolding securememory_esys_unseal
  securememory_esys_unseal-Respects gives blob session =
      search (respects, store_key-Respects, any_back-Respects) depth 20

  pub seal_passphrase-Respects :
      (primary : Handle) (digest : Bytes)
      → Respects frame (seal_passphrase kernel sizes primary digest)
  unfolding seal_passphrase
  seal_passphrase-Respects primary digest =
      search (respects, crypto_create_passphrase-Respects) depth 20

  pub securememory_esys_create-Respects :
      GivesBack frame
      → (primary : Handle) (digest : Bytes)
      → Respects frame (securememory_esys_create kernel sizes primary digest)
  unfolding securememory_esys_create
  securememory_esys_create-Respects gives primary digest =
      search (respects, seal_passphrase-Respects, any_back-Respects) depth 20

  module _ (dev_crypt : Bytes) where
    pub cryptsetup_open_luks_volume-Respects :
        frame.allows (fork sizes.cryptsetup_dir (luks_open sizes.cryptsetup_dir dev_crypt)) ≡ true
        → Respects frame (cryptsetup_open_luks_volume kernel sizes.cryptsetup_dir dev_crypt)
    unfolding cryptsetup_open_luks_volume
    cryptsetup_open_luks_volume-Respects allowed = search subprocess_spawn-Respects

    pub cryptsetup_add_token-Respects :
        frame.allows (fork sizes.cryptsetup_dir (token_add sizes.cryptsetup_dir dev_crypt)) ≡ true
        → Respects frame (cryptsetup_add_token kernel sizes.cryptsetup_dir dev_crypt)
    unfolding cryptsetup_add_token
    cryptsetup_add_token-Respects allowed = search subprocess_spawn-Respects

    module _
        (allowed : frame.allows
            (fork sizes.cryptsetup_dir (luks_format sizes.cryptsetup_dir dev_crypt))
          ≡ true) where
      create_luks_volume-Respects :
          (passphrase : Bytes) (size : ℕ)
          → Respects frame
              (cryptsetup_create_luks_volume kernel sizes.cryptsetup_dir dev_crypt passphrase size)
      unfolding cryptsetup_create_luks_volume
      create_luks_volume-Respects passphrase size =
          search (respects, subprocess_spawn_and_write-Respects) depth 20

      format_with_key-Respects :
          (got : Option (ℕ × Bytes)) (buf : Bytes)
          → Respects frame (format_with_key kernel sizes dev_crypt got buf)
      unfolding format_with_key
      format_with_key-Respects got buf = search (respects, create_luks_volume-Respects) depth 20

      pub format_locked-Respects :
          (buf : Bytes) → Respects frame (format_locked kernel sizes dev_crypt buf)
      unfolding format_locked
      format_locked-Respects buf =
          search (respects, Quiet-Simple, keyring_get_key-Respects, format_with_key-Respects) depth
            20

      pub securememory_create_luks_volume-Respects :
          GivesBack frame → Respects frame (securememory_create_luks_volume kernel sizes dev_crypt)
      unfolding securememory_create_luks_volume
      securememory_create_luks_volume-Respects gives =
          search (respects, format_locked-Respects, any_back-Respects) depth 20
