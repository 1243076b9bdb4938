-- ===== src/Automount.antt =====
-- src/automount.c: the search for a partition by its type GUID.
pub mod Held
pub mod Guid
pub mod Node
pub mod Disk
pub mod Search
pub mod Quiet
