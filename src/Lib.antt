-- ===== src/Lib.antt =====
-- Verification of go-diskfs, a library that makes and reads disk images: partition tables, the
-- filesystems in the partitions, and the bitmaps they use. A disk (disk/) has a partition table
-- (partition/mbr, partition/gpt); a partition holds a filesystem (filesystem/fat32, squashfs,
-- iso9660, ext4); all of them reach their bytes through the file of a backend (backend/).
--
-- Files and sources. A definition is the function of nearly its name in the file that heads it.
--   Base and Base/*       lists, byte slices, encoding/binary, CRC-32, masks, strings, results of
--                         Go code, lists of distinct numbers
--   Base/Storage          backend/interface.go as a parameter, and what a disk of fixed size does
--   Bitmap                util/bitmap.go; Bitmap/Update, First and Runs are about its operations
--   Fat32/Table           filesystem/fat32/table.go; Table/Codec is about reading and writing it
--   Fat32/Dos20Bpb, Dos331Bpb, Dos71Ebpb, BootSector, Fsis
--                         dos20bpb.go, dos331bpb.go, dos71bpb.go, msdosbootsector.go, fsinfosector.go
--   Fat32/Chain           getClusterList and the loops of allocateSpace in filesystem/fat32/fat32.go
--   Fat32/FileSystem      allocateSpace, writeBootSector, writeFsis and writeFat of the same file;
--                         FileSystem/Allocate, NewChain and Shrink are about allocateSpace
--   Mbr/Partition, Table  partition/mbr/partition.go and table.go; Mbr/RoundTrip and Contents
--   Squashfs/Fragment, Metadata, Directory, Superblock
--                         fragment.go, metadatablock.go, directory.go, superblock.go of
--                         filesystem/squashfs
--   Squashfs/Lru          filesystem/squashfs/lru.go, the cache of blocks; Lru/Links, Index, Order, Trim,
--                         Locate and Fill are about its list, its map and its calls, Lru/Entry is
--                         what it promises, Lru/Refinement and Reachable are about that
--   Squashfs/MetaRead     readMetaBlock and readMetadata of filesystem/squashfs/metadatablock.go, through
--                         the cache; MetaRead/Cached is about readMetaBlock
--   Gpt/Partition, Names  partition/gpt/partition.go; Partition/Init and Ready are about initEntry,
--                         Contents about ReadContents
--   Gpt/Table, ProtectiveMbr, Entries, Header, Disk
--                         partition/gpt/table.go: the layout, the protective MBR, the array of
--                         entries, the two headers, and writing, reading and verifying a disk
--   Gpt/Uuid              partition/gpt/common.go, and the UUID package as a parameter
--
-- State and outcome. A byte slice is a list of numbers below 256; an integer of w bits is a number
-- with its wrap-around written out where the source can reach it. Go code that returns an error
-- is a Result: ok, err, panic for a run-time panic, and unfinished for a loop whose fuel ran out.
-- Code that changes a filesystem or a disk takes it and returns it, also beside an error; so
-- allocateSpace is a plan, which is what it does to the table in memory, and the writes after it.
--
-- Fuel. getClusterList runs with max_cluster + 2 rounds, as many as a chain without a cluster twice
-- can need; on a cyclic chain the source does not end. parseDirectory runs with a round for each
-- byte, as each header takes bytes away. ReadContents, WriteContents and readMetadata take their fuel as
-- an argument, since their end depends on the file, the reader or the image. The loop that trims the cache has
-- a round for each block in its map and one more, and readPartitionArrayBytes a round for each byte
-- and one more. Other loops are structural.
--
-- Parameters. The backend's files are the record Storage, with IsDisk for a disk whose writes
-- inside it succeed; the compressors of an image are the record Compressor; the package
-- github.com/google/uuid is the record UuidLibrary, with IsUuidLibrary for a package whose Parse
-- reads what its String writes, in capitals too. What uuid.NewRandom gives is an argument.
-- hash/crc32 and unicode/utf16 of the standard library are defined.
--
-- Heap. The blocks of the cache are addresses, with a function of the address for each field; its
-- locks are not modelled, so a call runs alone.
--
-- Not modelled: filesystem/iso9660 and filesystem/ext4; of FAT32 the directories and
-- files and the making of a filesystem; of SquashFS the inodes and the making of an
-- image; files, devices and system calls; logging and debugging output. Pointers that are
-- nil are not modelled except where a function asks for them first.
pub mod Base
pub mod Bitmap
pub mod Fat32
pub mod Gpt
pub mod Mbr
pub mod Squashfs
