-- ===== src/Cryptsetup.antt =====
-- src/cryptsetup.c: the calls of the cryptsetup program, whose path is set in the build.
use cominit.Base.{ℕ, ltb, List, Bytes, [], ◌∷◌, codes}
use cominit.Base.Run.{Run, ◌>>◌, guard}
use cominit.Machine.{Machine, Kernel}
use cominit.Subprocess.{subprocess_spawn, subprocess_spawn_and_write}

-- COMINIT_PASSPHRASE_SIZE
abbrev pub passphrase_size : ℕ
passphrase_size = 32

-- COMINIT_TPM_SECURE_STORAGE_NAME, also the description of its key
abbrev pub secure_storage_name : Bytes
secure_storage_name = codes "secureStorage"

abbrev pub luks_format : Bytes → Bytes → List Bytes
luks_format dir dev_crypt =
    dir
    ∷ codes "luksFormat"
    ∷ codes "--batch-mode"
    ∷ codes "--type"
    ∷ codes "luks2"
    ∷ codes "--key-size"
    ∷ codes "512"
    ∷ codes "--cipher"
    ∷ codes "aes-xts-plain64"
    ∷ codes "--iter-time"
    ∷ codes "10"
    ∷ codes "--key-file"
    ∷ codes "-"
    ∷ dev_crypt
    ∷ []

abbrev pub luks_open : Bytes → Bytes → List Bytes
luks_open dir dev_crypt = dir ∷ codes "luksOpen" ∷ dev_crypt ∷ secure_storage_name ∷ []

abbrev pub token_add : Bytes → Bytes → List Bytes
token_add dir dev_crypt =
    dir
    ∷ codes "token"
    ∷ codes "add"
    ∷ codes "--token-type"
    ∷ codes "keyring"
    ∷ codes "--key-slot"
    ∷ codes "0"
    ∷ codes "--key-description"
    ∷ secure_storage_name
    ∷ dev_crypt
    ∷ []

module _ (kernel : Kernel) (cryptsetup_dir : Bytes) where
  -- The passphrase buffer, and the size that the caller says it has.
  unfoldable pub cryptsetup_create_luks_volume : Bytes → Bytes → ℕ → Run Machine (Unit {0})
  cryptsetup_create_luks_volume dev_crypt passphrase size = do
    guard (ltb 0 size)
    subprocess_spawn_and_write kernel cryptsetup_dir (luks_format cryptsetup_dir dev_crypt)
        passphrase size

  unfoldable pub cryptsetup_open_luks_volume : Bytes → Run Machine (Unit {0})
  cryptsetup_open_luks_volume dev_crypt =
      subprocess_spawn kernel cryptsetup_dir (luks_open cryptsetup_dir dev_crypt)

  unfoldable pub cryptsetup_add_token : Bytes → Run Machine (Unit {0})
  cryptsetup_add_token dev_crypt =
      subprocess_spawn kernel cryptsetup_dir (token_add cryptsetup_dir dev_crypt)
