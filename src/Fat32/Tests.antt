-- ===== src/Fat32/Tests.antt =====
-- The theorems on filesystem/fat32 at a table of six entries, a head of a volume, and a disk in
-- memory.
use go_diskfs.Base.{
  ◌≤◌, ◌<◌, ◌≡◌, ◌↔◌, ℕ, refl, inr, List, [], ◌∷◌, length, replicate, ok, err, arith,
}
use go_diskfs.Base.Text.{trim_spaces}
use go_diskfs.Base.Storage.{memory}
use go_diskfs.Fat32.Table.{Table, bytes, table_from_bytes, is_eoc}
use go_diskfs.Fat32.Table.Codec
use go_diskfs.Fat32.Table.Codec.{table_from_bytes-bytes}
use go_diskfs.Fat32.Dos20Bpb.{Dos20Bpb}
use go_diskfs.Fat32.Dos331Bpb.{Dos331Bpb}
use go_diskfs.Fat32.Dos71Ebpb
use go_diskfs.Fat32.Dos71Ebpb.{Dos71Ebpb}
use go_diskfs.Fat32.Dos71Ebpb.RoundTrip.{ebpb_from_bytes-to_bytes}
use go_diskfs.Fat32.Fsis
use go_diskfs.Fat32.Fsis.{FsInformationSector, fsis_from_bytes-to_bytes}
use go_diskfs.Fat32.BootSector.{MsDosBootSector}
use go_diskfs.Fat32.Chain.{get_cluster_list}
use go_diskfs.Base.Distinct.{Distinct}
use go_diskfs.Fat32.Chain.Walk.{ChainOf, last, step, get_cluster_list-Chain}
use go_diskfs.Fat32.Chain.Link.{count_free}
use go_diskfs.Fat32.Chain.Grow.{IsUsable}
use go_diskfs.Fat32.FileSystem.{FileSystem, no_space, cluster_count, allocate_space}
use go_diskfs.Fat32.FileSystem.NewChain.{allocate_space_new-Allocates, allocate_space-unchanged}
use go_diskfs.Fat32.FileSystem.Shrink.{Cut, allocate_space-Cut}
use go_diskfs.Fat32.FileSystem.Allocate.{Allocates, allocate_space-Allocates}

-- The chain 2, 4 and free clusters 3 and 5.
abbrev six : Table
six = record {
  fat_id = 0x0FFFFFF8;
  eoc_marker = 0x0FFFFFFF;
  unused_marker = 0;
  clusters = 0 ∷ 0 ∷ 4 ∷ 0 ∷ 0x0FFFFFFF ∷ 0 ∷ 0 ∷ [];
  root_dir_cluster = 2;
  size = 24;
  max_cluster = 6;
}

abbrev six-IsValid : Codec.IsValid six
six-IsValid = record {
  two_entries = omega arith;
  whole = refl;
  slots = refl;
  words = omega arith;
  fat_id = omega arith;
  eoc = omega arith;
  slot_zero = refl;
  slot_one = refl;
  last = refl;
  root = refl;
  unused = refl;
}

six-IsUsable : IsUsable six
unfolding is_eoc
six-IsUsable = record {
  slots = refl;
  small = omega arith;
  slot_zero = refl;
  slot_one = refl;
  marks = refl;
}

two_four : ChainOf six 2 (2 ∷ 4 ∷ [])
unfolding is_eoc
two_four = step refl refl (omega arith) (omega arith) (last refl refl)

table_from_bytes-bytes_example :
    (b : List ℕ) × (bytes six ≡ ok b) × (length b ≡ 24) × (table_from_bytes b ≡ ok six)
table_from_bytes-bytes_example = table_from_bytes-bytes six six-IsValid

get_cluster_list-Chain_example :
    ((get_cluster_list six 2 ≡ ok (2 ∷ 4 ∷ [])) ↔ ChainOf six 2 (2 ∷ 4 ∷ []))
    × (ChainOf six 2 (2 ∷ 4 ∷ []) → Distinct (2 ∷ 4 ∷ []))
get_cluster_list-Chain_example =
    get_cluster_list-Chain six 2 (2 ∷ 4 ∷ []) 4 (omega arith) refl (λ h. absurd (omega arith))

abbrev information : FsInformationSector
information = record { free_data_clusters_count = 2; last_allocated_cluster = 4 }

fsis_from_bytes-to_bytes_example :
    (Fsis.from_bytes (Fsis.to_bytes information) ≡ ok information)
    × (length (Fsis.to_bytes information) ≡ 512)
fsis_from_bytes-to_bytes_example = fsis_from_bytes-to_bytes information (omega arith) (omega arith)

abbrev dos20 : Dos20Bpb
dos20 = record {
  bytes_per_sector = 512;
  sectors_per_cluster = 1;
  reserved_sectors = 32;
  fat_count = 2;
  root_directory_entries = 0;
  total_sectors = 0;
  media_type = 0xf8;
  sectors_per_fat = 0;
}

abbrev dos331 : Dos331Bpb
dos331 = record {
  dos20_bpb = dos20;
  sectors_per_track = 0;
  heads = 0;
  hidden_sectors = 0;
  total_sectors = 2880;
}

-- The label is "DISK".
abbrev ebpb : Dos71Ebpb
ebpb = record {
  dos331_bpb = dos331;
  sectors_per_fat = 1;
  mirror_flags = 0;
  version = 0;
  root_directory_cluster = 2;
  fs_information_sector = 1;
  backup_boot_sector = 6;
  boot_file_name = replicate 12 0;
  drive_number = 128;
  reserved_flags = 0;
  extended_boot_signature = 0x29;
  volume_serial_number = 0xA0B0C0D0;
  volume_label = 0x44 ∷ 0x49 ∷ 0x53 ∷ 0x4B ∷ [];
  file_system_type = 0x46 ∷ 0x41 ∷ 0x54 ∷ 0x33 ∷ 0x32 ∷ [];
}

ebpb-IsValid : Dos71Ebpb.IsValid ebpb
unfolding trim_spaces
ebpb-IsValid = record {
  dos331 = record {
    dos20 = record {
      sector = refl;
      reserved = omega arith;
      entries = omega arith;
      total = omega arith;
      per_fat = omega arith;
    };
    track = omega arith;
    heads = omega arith;
    hidden = omega arith;
    total = omega arith;
  };
  per_fat = omega arith;
  mirror = omega arith;
  version = refl;
  root = omega arith;
  information = omega arith;
  backup = omega arith;
  boot_file = refl;
  serial = omega arith;
  labels = inr (refl, omega arith, omega arith, refl, omega arith, omega arith, refl);
}

ebpb_from_bytes-to_bytes_example :
    (b : List ℕ) × (Dos71Ebpb.to_bytes ebpb ≡ ok b) × (Dos71Ebpb.from_bytes b ≡ ok (ebpb, length b))
ebpb_from_bytes-to_bytes_example = ebpb_from_bytes-to_bytes ebpb ebpb-IsValid

abbrev boot : MsDosBootSector
boot = record {
  jump_instruction = 0xEB ∷ 0x58 ∷ 0x90 ∷ [];
  oem_name = [];
  bios_parameter_block = ebpb;
  boot_code = [];
}

abbrev volume : FileSystem memory
volume = record {
  boot_sector = boot;
  fsis = information;
  table = six;
  data_start = 17408;
  bytes_per_cluster = 512;
  size = 1474560;
  start = 0;
  disk = [];
}

-- The file of clusters 2 and 4 is to have 1500 bytes, so one cluster more.
allocate_space-Allocates_example :
    (1 ≤ 2 → Allocates memory volume (2 ∷ 4 ∷ []) 4 1 (allocate_space memory volume 1500 2))
    × (2 < 1 → allocate_space memory volume 1500 2 ≡ (volume, err no_space))
unfolding cluster_count count_free
allocate_space-Allocates_example =
    allocate_space-Allocates memory volume 1500 2 (2 ∷ 4 ∷ []) six-IsUsable (omega arith)
      (omega arith) two_four (omega arith) (omega arith)

-- A new file of 700 bytes takes both free clusters.
allocate_space_new-Allocates_example :
    (2 ≤ 2 → Allocates memory volume [] 0 2 (allocate_space memory volume 700 0))
    × (2 < 2 → allocate_space memory volume 700 0 ≡ (volume, err no_space))
unfolding cluster_count count_free
allocate_space_new-Allocates_example =
    allocate_space_new-Allocates memory volume 700 six-IsUsable (omega arith) (omega arith)
      (omega arith)

-- 1000 bytes fit the two clusters that the file has.
allocate_space-unchanged_example : allocate_space memory volume 1000 2 ≡ (volume, ok (2 ∷ 4 ∷ []))
unfolding cluster_count
allocate_space-unchanged_example =
    allocate_space-unchanged memory volume 1000 six-IsUsable (omega arith) (omega arith) 2
      (2 ∷ 4 ∷ []) (omega arith) two_four (omega arith) refl

-- The file of clusters 2 and 4 is to have 300 bytes, so cluster 4 is given up.
allocate_space-Cut_example :
    (after : List ℕ) × ((allocate_space memory volume 300 2).0.table
      ≡ record six { clusters = after })
    × Cut six 2 0 (2 ∷ 4 ∷ []) after
    × ((l : List ℕ) → (allocate_space memory volume 300 2).1 ≡ ok l → l ≡ 2 ∷ 4 ∷ [])
unfolding cluster_count
allocate_space-Cut_example =
    allocate_space-Cut memory volume 300 2 (2 ∷ 4 ∷ []) six-IsUsable (omega arith) (omega arith)
      (omega arith) two_four (omega arith) (omega arith)
