-- ===== src/Keyring.antt =====
-- src/keyring.c: access to the kernel's user keyring. The directory and the descriptions of the
-- development keys are set in the build.
pub mod Enroll
pub mod Held
use cominit.Base.{ℕ, zero, suc, ◌∷◌, ◌++◌, none, some, ltb, leb, ◌==◌, Bytes, codes, length}
use cominit.Base.Run.{Run, done, hung, ◌>>=◌, ◌>>◌, guard}
use cominit.Libc.Printf.{snprintf}
use cominit.Libc.Str.{strtok}
use cominit.Machine.{
  Machine, Kernel, keyctl_search, keyctl_read, add_key, stat, open_file, fread, call, call_out,
  keyring_payload_max_size,
}

module _ (kernel : Kernel) where
  -- cominitKeyringGetKey: the length that the kernel reports, and what it wrote to the buffer.
  unfoldable pub keyring_get_key : ℕ → Bytes → Run Machine (ℕ × Bytes)
  keyring_get_key key_max_len key_desc = do
    guard (ltb (length key_desc) 4095)
    key_id ← call kernel (keyctl_search key_desc)
    call_out kernel (keyctl_read key_id key_max_len)

  -- cominitKeyringAddUserKey
  unfoldable pub keyring_add_user_key : Bytes → Bytes → Run Machine ℕ
  keyring_add_user_key key_desc key = call kernel (add_key key_desc key)

  -- One round of cominitKeyringInitFakeHsm; PATH_MAX is 4096.
  unfoldable pub enroll_key : Bytes → Bytes → Run Machine ℕ
  unfolding keyring_add_user_key
  enroll_key key_dir desc = do
    let key_path = snprintf 4096 (key_dir ++ (b'/' ∷ (desc ++ codes ".bin")))
    size ← call kernel (stat key_path)
    guard (leb size keyring_payload_max_size)
    key_fp ← call kernel (open_file key_path)
    (count, key_pld) ← call_out kernel (fread key_fp size)
    guard (count == 1)
    keyring_add_user_key desc key_pld

  -- The loop over the descriptions, on the unread ones.
  unfoldable pub fake_hsm_loop : ℕ → Bytes → Bytes → Run Machine (Unit {0})
  unfolding enroll_key
  fake_hsm_loop zero key_dir s m = hung m
  fake_hsm_loop (suc fuel) key_dir s m = elim (strtok b' ' s) [
    | none ↦ done tt m
    | some (desc, rest) ↦ (enroll_key key_dir desc >>= λ _. fake_hsm_loop fuel key_dir rest) m
  ]

  unfoldable pub keyring_init_fake_hsm : Bytes → Bytes → Run Machine (Unit {0})
  unfolding fake_hsm_loop
  keyring_init_fake_hsm key_dir key_descs = fake_hsm_loop (suc (length key_descs)) key_dir key_descs
