-- ===== src/Tpm/Protect/Diagram.antt =====
-- The phases of cominitTpmProtectData and cominitTpmSetupSecureStorage (src/tpm.c), as a diagram.
use cominit.Base.{
  ℕ, Bool, true, false, ◌==◌, if◌then◌else◌, Option, none, some, is_some, Bytes, replicate, ◌≡◌,
}
use cominit.Base.Run.{◌>>=◌, ◌>>◌, pure, guard, attempted}
use cominit.Cryptsetup.{
  luks_format, luks_open, token_add, passphrase_size, secure_storage_name,
  cryptsetup_create_luks_volume, cryptsetup_open_luks_volume, cryptsetup_add_token,
}
use cominit.Crypto.Passphrase.Quiet.{keyring_get_key-Respects}
use cominit.Keyring.{keyring_get_key}
use cominit.Machine.{Kernel, Call, fork, calloc, call}
use cominit.Machine.Follows.{
  Follows, >>=-Follows, quietly, leads, quiet-Follows, attempted-Follows, pure-Follows,
  answered-Follows, any-Returns, quiet-starts_nothing, gives-starts_nothing,
}
use cominit.Machine.Way.{Diagram, starts_nothing}
use cominit.Machine.Held.Neutral.{Quiet-Simple}
use cominit.Machine.Frame.{respects, >>-Respects, guard-Respects}
use cominit.Machine.Frame.Added.{adds}
use cominit.Machine.Returns.{Present, guard-Returns, >>=-Returns}
use cominit.Securememory.{
  TpmState, tpm_failure, tpm_policy_failure, unsealed, give_back, key_read, key_size, zero_out,
  format_with_key, format_locked, securememory_create_luks_volume,
}
use cominit.Securememory.Quiet.{any_back-Respects}
use cominit.Subprocess.Start.{subprocess_spawn-Follows, subprocess_spawn_and_write-Follows}
use cominit.Tpm.Protect.{mkfs, mkfs_args, tpm_format_secure_storage, tpm_setup_secure_storage}
use cominit.Tpm.Seal.{Tss}

-- `keyed`, `opened`: whether it is the first boot.
pub data Phase : Type 0 where
  begun blob_made : Phase
  keyed : Bool → Phase
  formatted labelled : Phase
  opened : Bool → Phase
  ready : Phase
  ended : TpmState → Phase

-- A seal of a new passphrase, an unseal, and the ends.
pub data Silent : Phase → Phase → Type 0 where
  seals : Silent begun blob_made
  unseals_new : Silent blob_made (keyed true)
  unseals_old : Silent begun (keyed false)
  rejects_new : Silent blob_made (ended tpm_policy_failure)
  rejects_old : Silent begun (ended tpm_policy_failure)
  opens_old : Silent (opened false) ready
  succeeds : Silent ready (ended unsealed)
  fails : {p : Phase} → Silent p (ended tpm_failure)

-- The programs for a device, with the path of cryptsetup.
pub data Starts (dir dev : Bytes) : Phase → Call → Phase → Type 0 where
  formats : Starts dir dev (keyed true) (fork dir (luks_format dir dev)) formatted
  labels : Starts dir dev formatted (fork dir (token_add dir dev)) labelled
  opens : Starts dir dev labelled (fork dir (luks_open dir dev)) (opened true)
  reopens : Starts dir dev (keyed false) (fork dir (luks_open dir dev)) (opened false)
  makes_fs : Starts dir dev (opened true) (fork mkfs mkfs_args) ready

abbrev pub storage : Bytes → Bytes → Diagram
storage dir dev = record { Phase = Phase; Silent = Silent; Starts = Starts dir dev }

module _ (kernel : Kernel) (tss : Tss) (dev : Bytes) where
  abbrev diagram : Diagram
  diagram = storage tss.sizes.cryptsetup_dir dev

  -- The key is read, and the volume is formatted with it.
  create_luks-Follows :
      (passphrase : Bytes) (size : ℕ)
      → Follows diagram
          (keyed true)
          (λ _ r. r ≡ formatted)
          (cryptsetup_create_luks_volume kernel tss.sizes.cryptsetup_dir dev passphrase size)
  unfolding cryptsetup_create_luks_volume
  create_luks-Follows passphrase size =
      quietly diagram (keyed true) (λ _ r. r ≡ formatted) (λ _. Unit) (guard _) _ (search respects)
        (any-Returns _)
        λ u v.
          subprocess_spawn_and_write-Follows kernel _ _ diagram (keyed true) formatted formats
            passphrase size

  -- A volume that was formatted leads to its phase.
  abbrev Formatted : Bool × Bytes → Phase → Type 0
  Formatted p r = p.0 ≡ true → r ≡ formatted

  formatted-once :
      (made : Option (Unit {0})) (q : Phase)
      → Present (λ u. q ≡ formatted) made
      → is_some made ≡ true
      → q ≡ formatted
  formatted-once none q h e = cc
  formatted-once (some u) q h e = h

  format_with_key-Follows :
      (got : Option (ℕ × Bytes)) (buf : Bytes)
      → Follows diagram (keyed true) Formatted (format_with_key kernel tss.sizes dev got buf)
  unfolding format_with_key
  format_with_key-Follows got buf = go (key_size kernel tss.sizes got == 0)
    where
      go :
          (b : Bool)
          → Follows diagram (keyed true) Formatted (
              if b
              then pure (false, key_read kernel tss.sizes got buf)
              else (attempted (
                    cryptsetup_create_luks_volume kernel tss.sizes.cryptsetup_dir dev
                      (key_read kernel tss.sizes got buf)
                      (key_size kernel tss.sizes got))
                  >>= λ made. pure (is_some made, zero_out (key_read kernel tss.sizes got buf))))
      go true = pure-Follows diagram (keyed true) _ _ (λ e. cc)
      go false =
          >>=-Follows diagram (keyed true) (λ x q. Present (λ u. q ≡ formatted) x) Formatted _ _
            (attempted-Follows diagram (keyed true) (λ u q. q ≡ formatted) _
              (create_luks-Follows _ _))
            λ made q h. pure-Follows diagram q _ _ (formatted-once made q h)

  key_formats-Follows :
      (buf : Bytes)
      → Follows diagram (keyed true) Formatted (
          attempted (keyring_get_key kernel passphrase_size secure_storage_name) >>= λ got.
          format_with_key kernel tss.sizes dev got buf)
  key_formats-Follows buf =
      quietly diagram (keyed true) Formatted (λ _. Unit)
        (attempted (keyring_get_key kernel passphrase_size secure_storage_name)) _
        (search (respects, keyring_get_key-Respects, Quiet-Simple, quiet-starts_nothing))
        (any-Returns _) λ got u. format_with_key-Follows got buf

  left_unformatted : (buf : Bytes) → Follows diagram (keyed true) Formatted (pure (false, buf))
  left_unformatted buf = pure-Follows diagram (keyed true) Formatted (false, buf) (λ e. cc)

  format_locked-Follows :
      (buf : Bytes)
      → Follows diagram (keyed true) Formatted (format_locked kernel tss.sizes dev buf)
  unfolding format_locked
  format_locked-Follows buf =
      search (answered-Follows, key_formats-Follows, left_unformatted, quiet-starts_nothing) depth 5

  give_back-Follows :
      (p : Bool × Bytes) (q : Phase)
      → Formatted p q
      → Follows diagram q (λ _ r. r ≡ formatted) (give_back kernel tss.sizes (p.1) >> guard (p.0))
  give_back-Follows p q h =
      quiet-Follows diagram q (λ _. p.0 ≡ true) (λ _ r. r ≡ formatted) _
        (>>-Respects (adds starts_nothing)
          (any_back-Respects (adds starts_nothing) quiet-starts_nothing kernel tss.sizes
            gives-starts_nothing (p.1))
          (guard-Respects (adds starts_nothing) (p.0)))
        (>>=-Returns _ (give_back kernel tss.sizes (p.1)) (λ _. guard (p.0))
          λ a. guard-Returns (p.0))
        λ a e. h e

  create_luks_volume-Follows :
      Follows diagram
        (keyed true)
        (λ _ r. r ≡ formatted)
        (securememory_create_luks_volume kernel tss.sizes dev)
  unfolding securememory_create_luks_volume
  create_luks_volume-Follows =
      quietly diagram (keyed true) (λ _ r. r ≡ formatted) (λ _. Unit)
        (call kernel (calloc passphrase_size)) _ (search (respects, quiet-starts_nothing))
        (any-Returns _)
        λ n u.
          >>=-Follows diagram (keyed true) Formatted (λ _ r. r ≡ formatted)
            (format_locked kernel tss.sizes dev (replicate passphrase_size 0)) _
            (format_locked-Follows _) give_back-Follows

  pub set_up_new-Follows :
      Follows diagram (keyed true) (λ _ r. r ≡ ready) (tpm_setup_secure_storage kernel tss dev true)
  unfolding tpm_setup_secure_storage tpm_format_secure_storage cryptsetup_add_token
      cryptsetup_open_luks_volume
  set_up_new-Follows =
      leads diagram (keyed true) formatted (λ _ r. r ≡ ready)
        (securememory_create_luks_volume kernel tss.sizes dev) _ create_luks_volume-Follows
        λ u.
          leads diagram formatted labelled (λ _ r. r ≡ ready)
            (cryptsetup_add_token kernel tss.sizes.cryptsetup_dir dev) _
            (subprocess_spawn-Follows kernel _ _ diagram formatted labelled labels)
            λ u.
              leads diagram labelled (opened true) (λ _ r. r ≡ ready)
                (cryptsetup_open_luks_volume kernel tss.sizes.cryptsetup_dir dev) _
                (subprocess_spawn-Follows kernel _ _ diagram labelled (opened true) opens)
                λ u.
                  subprocess_spawn-Follows kernel mkfs mkfs_args diagram (opened true) ready
                    makes_fs

  -- Ready, or opened on a later boot.
  pub set_up_old-Follows :
      Follows diagram
        (keyed false)
        (λ _ r. r ≡ opened false)
        (tpm_setup_secure_storage kernel tss dev false)
  unfolding tpm_setup_secure_storage cryptsetup_open_luks_volume
  set_up_old-Follows =
      subprocess_spawn-Follows kernel _ _ diagram (keyed false) (opened false) reopens
