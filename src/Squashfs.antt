-- ===== src/Squashfs.antt =====
-- filesystem/squashfs: the tables and blocks of an image.
pub mod Fragment
pub mod Lru
pub mod Metadata
pub mod MetaRead
pub mod Directory
mod Tests
pub mod Superblock
