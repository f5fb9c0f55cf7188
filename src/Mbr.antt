-- ===== src/Mbr.antt =====
-- partition/mbr: the master boot record.
pub mod Partition
pub mod Table
pub mod RoundTrip
pub mod Contents
mod Tests
