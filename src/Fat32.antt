-- ===== src/Fat32.antt =====
-- filesystem/fat32: the allocation table, the sectors at the head of a volume, and allocation.
pub mod Table
pub mod Dos20Bpb
pub mod Dos331Bpb
pub mod Dos71Ebpb
pub mod Chain
pub mod FileSystem
pub mod Fsis
pub mod BootSector
mod Tests
