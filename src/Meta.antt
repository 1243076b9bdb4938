-- ===== src/Meta.antt =====
-- src/meta.c: the metadata region at the end of the rootfs partition.
pub mod Hex
pub mod Verity
pub mod Integrity
pub mod Parse
pub mod Load
pub mod Render
pub mod Safety
