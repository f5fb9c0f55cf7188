-- ===== src/Gpt/Partition/Ready.antt =====
-- Partitions of partition/gpt/partition.go that initEntry has nothing left to do for.
use go_diskfs.Base.{ℕ, ◌≡◌, sym, ap, ◌∙◌, List, ok, arith}
use go_diskfs.Gpt.Uuid.{length-to_upper, UuidLibrary, IsUuidLibrary, to_upper}
use go_diskfs.Gpt.Partition.{Partition, init_entry, set_sizes}
use go_diskfs.Gpt.Partition.Init.{Consistent, set_sizes-Consistent, own_guid_parsed}
use go_diskfs.Gpt.Partition.RoundTrip.{IsWritable}

-- The partition can be written and its sizes fit together.
pub record IsReady (u : UuidLibrary) (blocksize : ℕ) (p : Partition) : Type 0 where
  pub writable : IsWritable u p
  pub consistent : Consistent blocksize p

pub init_entry-IsReady :
    (u : UuidLibrary) (random : List ℕ) (blocksize starting : ℕ) (p : Partition)
    → IsUuidLibrary u
    → IsReady u blocksize p
    → init_entry u random blocksize starting p ≡ ok p
unfolding init_entry
init_entry-IsReady u random blocksize starting p i r =
    let w = r.writable in
    let g = w.guid_bytes in
    let e =
      own_guid_parsed u random p (to_upper (u.to_string g)) g w.guid_text
        (omega (arith, length-to_upper (u.to_string g), i.not_empty g w.guid_uuid))
        (i.parse-upper g w.guid_uuid) in
    rw (w.used, init_entry)
      (rw e (
        ap (λ z. set_sizes blocksize starting (record p { guid = z })) (sym w.guid_text)
        ∙ set_sizes-Consistent blocksize starting p r.consistent))
