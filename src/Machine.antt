-- ===== src/Machine.antt =====
-- The state that the parts of cominit share through pointers (inc/meta.h), and the calls into the
-- kernel and the libraries, whose answers are a parameter.
pub mod Frame
pub mod Returns
pub mod Way
pub mod Follows
pub mod Held
pub mod Halts
use cominit.Base.{ℕ, Bool, false, List, [], ◌∷◌, Option, none, some, Bytes}
use cominit.Base.{◌≡◌, refl, ◌⊎◌, inl, inr}
use cominit.Base.Run.{done, Run, after, ◌>>=◌, or_fail}

abbrev pub part_meta_data_size : ℕ
part_meta_data_size = 4096

abbrev pub part_meta_sig_length : ℕ
part_meta_sig_length = 512

abbrev pub dm_table_size_max : ℕ
dm_table_size_max = 1024

abbrev pub rootfs_dev_path_max : ℕ
rootfs_dev_path_max = 256

abbrev pub fstype_str_max_len : ℕ
fstype_str_max_len = 32

abbrev pub keyring_payload_max_size : ℕ
keyring_payload_max_size = 512

-- The bits of cominitCryptOpt_t.
abbrev pub cryptopt_none : ℕ
cryptopt_none = 0

abbrev pub cryptopt_verity : ℕ
cryptopt_verity = 1

abbrev pub cryptopt_integrity : ℕ
cryptopt_integrity = 2

abbrev pub cryptopt_crypt : ℕ
cryptopt_crypt = 4

-- cominitRfsMetaData_t; each char array is the C string in it.
pub record RfsMeta : Type 0 where
  pub device_path : Bytes
  pub fs_type : Bytes
  pub ro : Bool
  pub crypt : ℕ
  pub dm_verint_data_size_bytes : ℕ
  pub dm_crypt_data_size_bytes : ℕ
  pub dm_table_verint : Bytes
  pub dm_table_crypt : Bytes

-- `cominitRfsMetaData_t rfsMeta = {0}`
abbrev pub zero_meta : RfsMeta
zero_meta = record {
  device_path = [];
  fs_type = [];
  ro = false;
  crypt = 0;
  dm_verint_data_size_bytes = 0;
  dm_crypt_data_size_bytes = 0;
  dm_table_verint = [];
  dm_table_crypt = [];
}

-- ESYS_TR: ESYS_TR_NONE, a handle that the TPM stack gave, or a variable that nothing was written to.
pub data Handle : Type 0 where
  tr_none : Handle
  tr : ℕ → Handle
  tr_unset : Handle

-- The calls out of the program. Flags that never vary at a call are not repeated here.
pub data Call : Type 0 where
  open_file : Bytes → Call
  close : ℕ → Call
  get_size : ℕ → Call
  lseek : ℕ → ℕ → Call
  read : ℕ → ℕ → Call
  pread : ℕ → ℕ → ℕ → Call
  get_block_size : ℕ → Call
  malloc : ℕ → Call
  free : Call
  opendir : Bytes → Call
  readdir : Call
  closedir : Call
  lstat : Bytes → Call
  stat : Bytes → Call
  keyctl_search : Bytes → Call
  keyctl_read : ℕ → ℕ → Call
  add_key : Bytes → Bytes → Call
  pk_init : Call
  pk_parse : Bytes → Call
  pk_get_type : Call
  pk_can_do_rsa : Call
  rsa_set_padding : Call
  sha256 : Bytes → Call
  pss_verify : Bytes → Bytes → Call
  pk_free : Call
  -- The answer holds the length of the DER encoding, and its bytes.
  pk_write_pubkey_der : ℕ → Call
  entropy_init : Call
  entropy_free : Call
  ctr_drbg_init : Call
  ctr_drbg_seed : Bytes → Call
  ctr_drbg_random : ℕ → Call
  ctr_drbg_free : Call
  -- The answer holds the new device's number.
  dm_create : ℕ → Bytes → Call
  -- Descriptor, device, read-only flag, sectors, target type and table.
  dm_load : ℕ → ℕ → Bool → ℕ → Bytes → Bytes → Call
  dm_resume : ℕ → ℕ → Call
  -- Path, whether the owner may write, and device.
  mknod : Bytes → Bool → ℕ → Call
  mkdir : Bytes → ℕ → Call
  -- Source, target, type and flags.
  mount : Bytes → Bytes → Bytes → ℕ → Call
  umount_detach : Bytes → Call
  umask : ℕ → Call
  -- The walk over a tree; the answer is how many entries it reports until it ends or fails, and each
  -- report is an answer of the next call: the type flag, with the level and the path.
  nftw : Bytes → Call
  nftw_entry : Call
  unlink : Bytes → Call
  rmdir : Bytes → Call
  chdir : Bytes → Call
  chroot : Bytes → Call
  -- One object, of a size.
  fread : ℕ → ℕ → Call
  fgets : ℕ → ℕ → Call
  fstat : ℕ → Call
  mmap : ℕ → ℕ → Call
  munmap : Call
  write : ℕ → Bytes → Call
  clock_gettime : Call
  -- The time at which to wake up, in seconds and nanoseconds.
  clock_nanosleep : ℕ → ℕ → Call
  setsid : Call
  execve : Bytes → List Bytes → Call
  -- The answer is the result in the process that goes on; the program and the arguments are those
  -- that the child replaces itself with.
  fork : Bytes → List Bytes → Call
  -- The answer holds the status.
  waitpid : ℕ → Call
  -- The answer holds the two descriptors.
  pipe : Call
  dup2 : ℕ → ℕ → Call
  exit : ℕ → Call
  access : Bytes → Call
  umount : Bytes → Call
  fwrite : ℕ → Bytes → Call
  -- Objects of one byte, as many as a number.
  fread_bytes : ℕ → ℕ → Call
  calloc : ℕ → Call
  mlock : ℕ → Call
  -- With what a buffer for a key holds when it is given back.
  munlock : Bytes → Call
  free_secret : Bytes → Call
  tcti_initialize : Bytes → Call
  tcti_finalize : ℕ → Call
  esys_initialize : ℕ → Call
  esys_finalize : ℕ → Call
  esys_self_test : ℕ → Call
  esys_pcr_extend : ℕ → Bytes → Call
  esys_create_primary : Call
  -- Whether it is a trial session.
  esys_start_auth_session : Bool → Call
  -- The session and the bytes of the PCR selection, as many as it has by its size.
  esys_policy_pcr : Handle → Bytes → Call
  esys_policy_get_digest : Handle → Call
  -- Primary key, policy digest and secret; the answer holds the public part, of a length, and behind
  -- it the private one.
  esys_create : Handle → Bytes → Bytes → Call
  esys_evict_control : Handle → Call
  esys_tr_from_tpm_public : Call
  -- Primary key, private and public part.
  esys_load : Handle → Bytes → Bytes → Call
  esys_unseal : Handle → Handle → Call
  esys_flush_context : Handle → Call

-- What a call returns and writes, or its error number.
pub data Answer : Type 0 where
  ok : ℕ → Bytes → Answer
  err : ℕ → Answer

abbrev pub Event : Type 0
Event = Call × Answer

-- The newest event first.
abbrev pub Trace : Type 0
Trace = List Event

-- What the kernel and the libraries answer, after all that has been asked of them.
abbrev pub Kernel : Type 0
Kernel = Trace → Call → Answer

pub record Machine : Type 0 where
  pub meta : RfsMeta
  pub trace : Trace

abbrev pub extern : Kernel → Call → Run Machine Answer
extern kernel c m = let a = kernel m.trace c in done a (record m { trace = (c, a) ∷ m.trace })

abbrev pub value : Answer → Option ℕ
value (ok n bytes) = some n
value (err e) = none

abbrev pub written : Answer → Option (ℕ × Bytes)
written (ok n bytes) = some (n, bytes)
written (err e) = none

abbrev pub set_meta : (RfsMeta → RfsMeta) → Run Machine (Unit {0})
set_meta f m = done tt (record m { meta = f m.meta })

-- A call that must not return an error, and its result.
abbrev pub call : Kernel → Call → Run Machine ℕ
call kernel c = extern kernel c >>= λ a. or_fail (value a)

-- The same, with what it wrote.
abbrev pub call_out : Kernel → Call → Run Machine (ℕ × Bytes)
call_out kernel c = extern kernel c >>= λ a. or_fail (written a)

-- `close(fd)`, whose result is not read.
abbrev pub close_fd : Kernel → ℕ → Run Machine Answer
close_fd kernel fd = extern kernel (close fd)

-- The machine after a call that was answered.
abbrev pub log : Call → ℕ → Bytes → Machine → Machine
log c n bytes m = record m { trace = (c, ok n bytes) ∷ m.trace }

module _ {B : Type 0} (kernel : Kernel) (c : Call) where
  -- A call that returned was answered without an error.
  pub call-eq-done :
      (f : ℕ → Run Machine B) (m : Machine) {b : B} {t : Machine}
      → (call kernel c >>= f) m ≡ done b t
      → (n : ℕ) × (bytes : Bytes) × (kernel m.trace c ≡ ok n bytes)
        × (f n (log c n bytes m) ≡ done b t)
  call-eq-done f m h = go (kernel m.trace c) refl h
    where
      go :
          (a : Answer) {b : B} {t : Machine}
          → kernel m.trace c ≡ a
          → after (or_fail (value a) (record m { trace = (c, a) ∷ m.trace })) f ≡ done b t
          → (n : ℕ) × (bytes : Bytes) × (kernel m.trace c ≡ ok n bytes)
            × (f n (log c n bytes m) ≡ done b t)
      go (ok n bytes) e h = (n, bytes, e, h)
      go (err k) e h = cc

  pub call_out-eq-done :
      (f : ℕ × Bytes → Run Machine B) (m : Machine) {b : B} {t : Machine}
      → (call_out kernel c >>= f) m ≡ done b t
      → (n : ℕ) × (bytes : Bytes) × (kernel m.trace c ≡ ok n bytes)
        × (f (n, bytes) (log c n bytes m) ≡ done b t)
  call_out-eq-done f m h = go (kernel m.trace c) refl h
    where
      go :
          (a : Answer) {b : B} {t : Machine}
          → kernel m.trace c ≡ a
          → after (or_fail (written a) (record m { trace = (c, a) ∷ m.trace })) f ≡ done b t
          → (n : ℕ) × (bytes : Bytes) × (kernel m.trace c ≡ ok n bytes)
            × (f (n, bytes) (log c n bytes m) ≡ done b t)
      go (ok n bytes) e h = (n, bytes, e, h)
      go (err k) e h = cc

-- The last call of a function.
pub call_last-eq-done :
    (kernel : Kernel) (c : Call) (m : Machine) {n : ℕ} {t : Machine}
    → call kernel c m ≡ done n t
    → (bytes : Bytes) × (kernel m.trace c ≡ ok n bytes) × (log c n bytes m ≡ t)
call_last-eq-done kernel c m h = go (kernel m.trace c) refl h
  where
    go :
        (a : Answer) {n : ℕ} {t : Machine}
        → kernel m.trace c ≡ a
        → or_fail (value a) (record m { trace = (c, a) ∷ m.trace }) ≡ done n t
        → (bytes : Bytes) × (kernel m.trace c ≡ ok n bytes) × (log c n bytes m ≡ t)
    go (ok k bytes) {n} e h = let same : k ≡ n = cc in (bytes, rw same at e, cc)
    go (err k) e h = cc

pub Answer-cases :
    (a : Answer) → ((n : ℕ) × (bytes : Bytes) × (a ≡ ok n bytes)) ⊎ ((e : ℕ) × (a ≡ err e))
Answer-cases (ok n bytes) = inl (n, bytes, refl)
Answer-cases (err e) = inr (e, refl)
