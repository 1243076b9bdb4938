-- ===== src/Tpm.antt =====
-- src/tpm.c: the TPM that protects the secure storage. The answers of the TPM stack are the kernel's.
pub mod Held
pub mod Halts
pub mod Context
pub mod Pcr
pub mod Blob
pub mod Seal
pub mod Protect
pub mod Quiet
