-- ===== src/Gpt/Table/Layout.antt =====
-- Where partition/gpt/table.go puts the parts of a table.
use native.Mathlib.Nat.{
  mul-div_cancel, div-le_self, div-add-mod', add-mul, le-div_iff_mul-le, le_of_mul-le-mul_right,
}
use go_diskfs.Base.{
  ℕ, suc, ◌+◌, ◌-◌, ◌*◌, ◌/◌, ◌%◌, ◌^◌, ◌≤◌, ◌<◌, ◌≡◌, refl, sym, ap, ◌∙◌, true, false, List, ok,
  ◌==◌, arith,
}
use go_diskfs.Gpt.Uuid.{add64, sub64, mul64, UuidLibrary}
use go_diskfs.Gpt.Table.{
  Table, or_default, part_sectors, init_table, partition_array_sector, repair, resize, total_size,
}

-- A table of a new disk: nothing of it is set but, perhaps, sector sizes, the GUID and partitions.
pub record IsBlank (t : Table) : Type 0 where
  pub array_unset : t.partition_array_size ≡ 0
  pub entry_unset : t.partition_entry_size ≡ 0
  pub primary_unset : t.primary_header ≡ 0
  pub secondary_unset : t.secondary_header ≡ 0
  pub first_unset : t.first_data_sector ≡ 0
  pub last_unset : t.last_data_sector ≡ 0

-- The bytes of the array of entries.
abbrev pub array_bytes : Table → ℕ
array_bytes t = t.partition_array_size * t.partition_entry_size

-- The parts lie in order and apart, measured in bytes: the protective MBR in sector 0, the header,
-- its array up to the first data sector, the data sectors up to the second array, that array up to
-- the second header, and this one in the disk's last sector.
abbrev pub InOrder : ℕ → Table → Type 0
InOrder sectors t =
    let l = t.logical_sector_size in
    (t.primary_header ≡ 1)
    × (partition_array_sector true t ≡ 2)
    × (2 * l + array_bytes t ≡ t.first_data_sector * l)
    × (t.first_data_sector ≤ t.last_data_sector)
    × (suc t.last_data_sector ≡ partition_array_sector false t)
    × (partition_array_sector false t * l + array_bytes t ≡ t.secondary_header * l)
    × (suc t.secondary_header ≡ sectors)

whole_sectors : (a l : ℕ) → a % l ≡ 0 → a / l * l ≡ a
whole_sectors a l h = omega (arith, div-add-mod' a l)

-- An array of p sectors ends p sectors behind its first.
sectors_after : (x y p l a : ℕ) → p * l ≡ a → x + p ≡ y → x * l + a ≡ y * l
sectors_after x y p l a e h = ap (λ z. x * l + z) (sym e) ∙ sym (add-mul x p l) ∙ ap (λ z. z * l) h

-- A blank table takes its places in order, with its default array of 128 entries of 128 bytes, on
-- a disk of fewer than 2^63 bytes, where 16384 is a multiple of the sector size, and the disk has
-- room for two arrays and four sectors, which are the protective MBR, the headers and one of data.
pub init_table-InOrder :
    (u : UuidLibrary) (random : List ℕ) (size : ℕ) (t : Table)
    → IsBlank t
    → size < 2 ^ 63
    → 16384 % or_default t.logical_sector_size 512 ≡ 0
    → 2 * 16384 + 4 * or_default t.logical_sector_size 512 ≤ size
    → (array_bytes (init_table u random size t) ≡ 16384)
      × InOrder (size / or_default t.logical_sector_size 512) (init_table u random size t)
unfolding init_table part_sectors partition_array_sector
init_table-InOrder u random size t b h whole room =
    let l = or_default t.logical_sector_size 512 in
    let pos : 0 < l = ground arith in
    let sectors = size / l in
    let p = 16384 / l in
    let array : p * l ≡ 16384 = whole_sectors 16384 l whole in
    let needed : (p * 2 + 4) * l ≤ size = omega (arith, add-mul (p * 2) 4 l, array) in
    let fits : p * 2 + 4 ≤ sectors = (le-div_iff_mul-le pos).1 needed in
    let small : sectors < 2 ^ 63 = omega (arith, div-le_self size l) in
    let secondary : sub64 sectors 1 ≡ sectors - 1 = omega arith in
    let second : sub64 (sectors - 1) p ≡ sectors - 1 - p = omega arith in
    let last : sub64 (sectors - 1 - p) 1 ≡ sectors - 1 - p - 1 = omega arith in
    let first : add64 2 p ≡ 2 + p = omega arith in
    rw b.array_unset (
      rw b.entry_unset (
        rw b.primary_unset (
          rw b.secondary_unset (
            rw b.first_unset (
              rw b.last_unset (
                rw secondary (
                  rw second (
                    rw last (
                      rw first (
                        refl,
                        (
                          refl,
                          refl,
                          sectors_after 2 (2 + p) p l 16384 array refl,
                          omega arith,
                          omega arith,
                          sectors_after (sectors - 1 - p) (sectors - 1) p l 16384 array
                              (omega arith),
                          omega arith,
                        ),
                      ))))))))))

-- The second header is in the last of n sectors, and the data end before the second array, whose
-- bytes end where the second header begins.
abbrev pub Ends : ℕ → Table → Type 0
Ends n t =
    let l = t.logical_sector_size in
    (suc t.secondary_header ≡ n)
    × (suc t.last_data_sector ≡ partition_array_sector false t)
    × (partition_array_sector false t * l + array_bytes t ≡ t.secondary_header * l)

module _ (n : ℕ) (t : Table) (pos : 0 < t.logical_sector_size)
    (whole : array_bytes t % t.logical_sector_size ≡ 0) (narrow : array_bytes t < 2 ^ 64)
    (room : array_bytes t + 2 * t.logical_sector_size ≤ n * t.logical_sector_size)
    (fits : n * t.logical_sector_size < 2 ^ 64) where
  abbrev l : ℕ
  l = t.logical_sector_size

  abbrev p : ℕ
  p = array_bytes t / l

  array : p * l ≡ array_bytes t
  array = whole_sectors (array_bytes t) l whole

  sectors_fit : p + 2 ≤ n
  sectors_fit = le_of_mul-le-mul_right {k = l} (omega (arith, add-mul p 2 l, array, room)) pos

  small : n < 2 ^ 64
  small = omega (arith, mul-div_cancel n pos, div-le_self (n * l) l, fits)

  sectors : part_sectors t ≡ p
  unfolding part_sectors
  sectors =
      let product : mul64 t.partition_array_size t.partition_entry_size ≡ array_bytes t =
        omega (arith, narrow) in
      ap (λ z. z / l) product

  abbrev moved : Table
  moved = record t { secondary_header = n - 1; last_data_sector = n - 2 - p }

  moved-Ends : (total_size moved ≡ n * l) × Ends n moved
  unfolding total_size partition_array_sector
  moved-Ends =
      let second : sub64 (n - 1) (part_sectors t) ≡ n - 1 - p =
        omega (arith, sectors, sectors_fit, small) in
      let all : add64 (n - 1) 1 ≡ n = omega (arith, sectors_fit, small) in
      let product : mul64 n l ≡ n * l = omega (arith, fits) in
      (
        rw all product,
        (
          omega (arith, sectors_fit),
          rw second (omega (arith, sectors_fit)),
          rw second (
              sectors_after (n - 1 - p) (n - 1) p l (array_bytes t) array
                (omega (arith, sectors_fit))),
        ),
      )

  last_sector :
      (sub64 (sub64 (n - 1) 1) (part_sectors t) ≡ n - 2 - p)
      × (sub64 (sub64 (n - 1) (part_sectors t)) 1 ≡ n - 2 - p)
  last_sector =
      (omega (arith, sectors, sectors_fit, small), omega (arith, sectors, sectors_fit, small))

  -- Resize to n sectors of a table whose array is a whole number of sectors and fits 64 bits, where
  -- the array and two sectors fit into the n and their bytes are fewer than 2^64: it changes nothing
  -- but the second header's place and the end of the data, TotalSize is then the new size, the second
  -- header is in the last sector, and the data end before the second array, whose bytes end where the
  -- second header begins.
  pub total_size-resize :
      (t' : Table) × (resize (n * t.logical_sector_size) t ≡ ok t')
      × (t' ≡ record t {
        secondary_header = t'.secondary_header;
        last_data_sector = t'.last_data_sector;
      })
      × (total_size t' ≡ n * t.logical_sector_size)
      × Ends n t'
  unfolding resize
  total_size-resize =
      let divided : n * t.logical_sector_size / t.logical_sector_size ≡ n = mul-div_cancel n pos in
      let secondary : sub64 n 1 ≡ n - 1 = omega (arith, small, sectors_fit) in
      let initialized : (t.logical_sector_size == 0) ≡ false = ground arith in
      (
        moved,
        rw initialized (rw divided (rw secondary (rw (last_sector.0) refl))),
        refl,
        moved-Ends.0,
        moved-Ends.1,
      )

  -- Repair, for a disk of n sectors, of a table whose array is a whole number of sectors and fits 64
  -- bits, where the array and two sectors fit into the n and their bytes are fewer than 2^64: in
  -- memory nothing changes but the second header's place and the end of the data,
  -- TotalSize is then the disk's size, the second header is in the last sector, and the data end
  -- before the second array, whose bytes end where the second header begins.
  pub total_size-repair :
      (t' : Table) × (repair (n * t.logical_sector_size) t ≡ ok t')
      × (t' ≡ record t {
        secondary_header = t'.secondary_header;
        last_data_sector = t'.last_data_sector;
      })
      × (total_size t' ≡ n * t.logical_sector_size)
      × Ends n t'
  unfolding repair
  total_size-repair =
      let divided : n * t.logical_sector_size / t.logical_sector_size ≡ n = mul-div_cancel n pos in
      let secondary : sub64 n 1 ≡ n - 1 = omega (arith, small, sectors_fit) in
      let initialized : (t.logical_sector_size == 0) ≡ false = ground arith in
      (
        moved,
        rw initialized (rw divided (rw secondary (rw (last_sector.1) refl))),
        refl,
        moved-Ends.0,
        moved-Ends.1,
      )
