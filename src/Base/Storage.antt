-- ===== src/Base/Storage.antt =====
-- backend/interface.go: the backend.Storage that a disk or a filesystem is given. The files behind
-- it are the operating system's, so it is a parameter of whatever uses it.
use Prim.Native.Nat.{ℕ, ◌+◌, ◌≤◌}
use mathlib.Core.Path.{◌≡◌, refl}
use mathlib.Core.Bool.{Bool, true}
use mathlib.Core.List.{List}
use mathlib.Core.Option.{Option, none}
use go_diskfs.Base.Lists.{length}
use go_diskfs.Base.Bytes.{put_at, slice_at}

-- `writable` is the error of Writable(), if any. `write_at b off` is WriteAt(b, off) of the file
-- that it returns: the disk after it, the number of bytes written, and the error, if any.
-- `read_at n off` is ReadAt of a slice of n bytes: the bytes read, and the error, if any, which
-- may be io.EOF.
pub record Storage : Type 1 where
  pub Disk : Type 0
  pub IoError : Type 0
  pub is_eof : IoError → Bool
  pub writable : Disk → Option IoError
  pub write_at : List ℕ → ℕ → Disk → Disk × ℕ × Option IoError
  pub read_at : ℕ → ℕ → Disk → List ℕ × Option IoError

-- A disk of fixed size: a write inside it replaces bytes, a read inside it returns them.
pub record IsDisk (s : Storage) : Type 0 where
  pub contents : s.Disk → List ℕ
  pub after : List ℕ → ℕ → s.Disk → s.Disk
  pub writes :
      (b : List ℕ) (off : ℕ) (d : s.Disk)
      → off + length b ≤ length (contents d)
      → s.write_at b off d ≡ (after b off d, length b, none)
  pub contents_after :
      (b : List ℕ) (off : ℕ) (d : s.Disk)
      → off + length b ≤ length (contents d)
      → contents (after b off d) ≡ put_at off b (contents d)
  pub reads :
      (n off : ℕ) (d : s.Disk)
      → off + n ≤ length (contents d)
      → s.read_at n off d ≡ (slice_at off n (contents d), none)

-- A disk in memory, which takes all writes.
abbrev pub memory : Storage
memory = record {
  Disk = List ℕ;
  IoError = Unit {0};
  is_eof = λ _. true;
  writable = λ _. none;
  write_at = λ b off d. (put_at off b d, length b, none);
  read_at = λ n off d. (slice_at off n d, none);
}

abbrev pub memory-IsDisk : IsDisk memory
memory-IsDisk = record {
  contents = λ d. d;
  after = λ b off d. put_at off b d;
  writes = λ b off d h. refl;
  contents_after = λ b off d h. refl;
  reads = λ n off d h. refl;
}
