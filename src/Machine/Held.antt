-- ===== src/Machine/Held.antt =====
-- What a run holds: the descriptors, buffers, contexts of the crypto library, mappings and handles of
-- the TPM that calls have given it and that it has not given back. The TPM stack itself, which
-- cominitDeleteTpm ends, and what stays in the kernel (mounts, mapped devices, keys) is not counted, nor
-- are the two objects of the stack for the persistent primary key, from Esys_EvictControl and
-- Esys_TR_FromTPMPublic: they are never closed.

pub mod Balance
pub mod Calls
pub mod Steady
pub mod Bracket
pub mod Neutral
use cominit.Base.{
  ℕ, Bool, true, false, List, [], ◌∷◌, ◌++◌, Bytes, get_or, ◌==◌, if◌then◌else◌, ◌≡◌, refl, arith,
}
use cominit.Machine.{
  Machine, Trace, Call, Answer, ok, err, Handle, tr, open_file, close, malloc, free, opendir,
  closedir, pk_init, pk_free, entropy_init, entropy_free, ctr_drbg_init, ctr_drbg_free, mmap,
  munmap, pipe, calloc, free_secret, esys_unseal, esys_create_primary, esys_start_auth_session,
  esys_load, esys_flush_context,
}

-- A stream of fopen is one of the descriptors, and the secret a buffer for a key.
pub data Resource : Type 0 where
  descriptor : ℕ → Resource
  directory memory mapping secret public_key entropy drbg : Resource
  handle : ℕ → Resource

abbrev pub is_same : Resource → Resource → Bool
is_same (descriptor n) (descriptor k) = n == k
is_same directory directory = true
is_same memory memory = true
is_same mapping mapping = true
is_same secret secret = true
is_same public_key public_key = true
is_same entropy entropy = true
is_same drbg drbg = true
is_same (handle n) (handle k) = n == k
is_same _ _ = false

-- What a call gives; those that set up a context of the crypto library return nothing.
abbrev pub gained : Call → Answer → List Resource
gained (open_file path) (ok fd bytes) = descriptor fd ∷ []
gained pipe (ok read_end rest) = descriptor read_end ∷ descriptor (get_or rest 0 0) ∷ []
gained (opendir path) (ok n bytes) = directory ∷ []
gained (malloc size) (ok n bytes) = memory ∷ []
gained (mmap fd size) (ok n bytes) = mapping ∷ []
gained (calloc size) (ok n bytes) = secret ∷ []
gained (esys_unseal blob session) (ok n bytes) = secret ∷ []
gained esys_create_primary (ok n bytes) = handle n ∷ []
gained (esys_start_auth_session trial) (ok n bytes) = handle n ∷ []
gained (esys_load primary private_part public_part) (ok n bytes) = handle n ∷ []
gained pk_init a = public_key ∷ []
gained entropy_init a = entropy ∷ []
gained ctr_drbg_init a = drbg ∷ []
gained _ a = []

-- What a call takes back, however it is answered.
abbrev pub lost : Call → List Resource
lost (close fd) = descriptor fd ∷ []
lost closedir = directory ∷ []
lost free = memory ∷ []
lost munmap = mapping ∷ []
lost (free_secret buf) = secret ∷ []
lost pk_free = public_key ∷ []
lost entropy_free = entropy ∷ []
lost ctr_drbg_free = drbg ∷ []
lost (esys_flush_context (tr n)) = handle n ∷ []
lost _ = []

abbrev pub without : Resource → List Resource → List Resource
without r [] = []
without r (s ∷ held) = if is_same r s then held else s ∷ without r held

abbrev pub without_all : List Resource → List Resource → List Resource
without_all [] held = held
without_all (r ∷ rs) held = without_all rs (without r held)

-- What is held after the events, the newest first.
unfoldable pub held : Trace → List Resource
held [] = []
held ((c, a) ∷ t) = gained c a ++ without_all (lost c) (held t)

pub is_same-same : (r : Resource) → is_same r r ≡ true
is_same-same (descriptor n) = ground arith
is_same-same (handle n) = ground arith
is_same-same directory = refl
is_same-same memory = refl
is_same-same mapping = refl
is_same-same secret = refl
is_same-same public_key = refl
is_same-same entropy = refl
is_same-same drbg = refl

-- The one that came last is taken first.
pub without-head : (r : Resource) (h : List Resource) → without r (r ∷ h) ≡ h
without-head r h = rw (is_same-same r, if◌then◌else◌) refl
