-- ===== src/Gpt/Partition/Contents.antt =====
-- Streaming the contents of a partition of partition/gpt/partition.go.
use go_diskfs.Base.{ℕ, suc, ◌+◌, ◌*◌, ◌≤◌, ◌<◌, ◌≡◌, subst, [], ok, length, arith}
use go_diskfs.Base.Bytes.{slice_at}
use go_diskfs.Base.Storage.{Storage, IsDisk}
use go_diskfs.Mbr.Partition.{read_loop}
use go_diskfs.Mbr.Contents.{read_loop_lem}
use go_diskfs.Gpt.Partition.{Partition, read_contents, physical_of, get_start, get_size}

-- ReadContents of a partition whose place and size in bytes lie inside the disk, and whose size is
-- one or more whole physical sectors: it streams exactly those bytes, returns their count, and ends
-- within a round for each physical sector.
pub gpt_read_contents_lem :
    (s : Storage) (w : IsDisk s) (d : s.Disk) (p : Partition) (k fuel : ℕ)
    → 0 < physical_of p
    → get_size p ≡ suc k * physical_of p
    → k < fuel
    → get_start p + get_size p ≤ length (w.contents d)
    → read_contents s fuel p d
      ≡ (slice_at (get_start p) (get_size p) (w.contents d), ok (get_size p))
unfolding read_contents
gpt_read_contents_lem s w d p k fuel pos whole h fits =
    let e : 0 + suc k * physical_of p ≡ get_size p = omega (arith, whole) in
    subst
      (λ n.
        read_loop s fuel (physical_of p) (get_start p) n d []
        ≡ (slice_at (get_start p) n (w.contents d), ok n))
      e (read_loop_lem s w d k fuel (physical_of p) (get_start p) 0 pos h (omega arith))
