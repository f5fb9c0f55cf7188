-- ===== src/Gpt.antt =====
-- partition/gpt: the GUID partition table.
pub mod Uuid
pub mod Names
pub mod Partition
pub mod Table
pub mod ProtectiveMbr
pub mod Entries
pub mod Header
pub mod Disk
mod Tests
