-- ===== src/Bitmap/Tests.antt =====
-- Runs of the bitmap, and the theorems at a bitmap of three bytes.
use go_diskfs.Base.{
  ℕ, ◌+◌, ◌-◌, ◌*◌, ◌/◌, ◌%◌, ◌≤◌, ◌<◌, ◌≡◌, refl, true, false, not, ◌&&◌, [], ◌∷◌, length, drop,
  All, ltb, arith, ok, err, panic, Option, some,
}
use go_diskfs.Base.Bytes.{IsByte}
use go_diskfs.Bitmap.{
  Bitmap, Contiguous, not_in_bitmap, is_set, set_bit, clear, first_free, first_set, free_list,
}
use go_diskfs.Bitmap.Bits.{bit_at}
use go_diskfs.Bitmap.Update.{is_set_lem, set_bit-Updates, clear-Updates, Updates}
use go_diskfs.Bitmap.First.{Answers, first_free-Answers, first_set-Answers}
use go_diskfs.Bitmap.Runs.{covers, Separated, free_list_lem}

-- 10010010 00100000 10000010 of the source's comment, with the lowest bit of a byte first.
abbrev three : Bitmap
three = record { bits = 0x49 ∷ 0x04 ∷ 0x41 ∷ [] }

abbrev three_bytes : All IsByte three.bits
three_bytes = omega arith

abbrev run : ℕ → ℕ → Contiguous
run p n = record { position = p; count = n }

three_runs : free_list three ≡ run 1 2 ∷ run 4 2 ∷ run 7 3 ∷ run 11 5 ∷ run 17 5 ∷ run 23 1 ∷ []
unfolding free_list
three_runs = refl

-- FirstSet on a bitmap whose bit 0 is set answers 8.
first_set_zero : first_set three ≡ some 8
unfolding first_set
first_set_zero = refl

is_set_lem_example :
    (9 < 24 → is_set three 9 ≡ ok (bit_at three.bits 9))
    × (24 ≤ 9 → 9 < 32 → is_set three 9 ≡ panic)
    × (32 ≤ 9 → is_set three 9 ≡ err (not_in_bitmap 9 24))
is_set_lem_example = is_set_lem three 9 three_bytes

set_bit-Updates_example : (bm : Bitmap) × (set_bit three 9 ≡ ok bm) × Updates three 9 true bm
set_bit-Updates_example = set_bit-Updates three 9 three_bytes (omega arith)

clear-Updates_example : (bm : Bitmap) × (clear three 10 ≡ ok bm) × Updates three 10 false bm
clear-Updates_example = clear-Updates three 10 three_bytes (omega arith)

first_free-Answers_example :
    (9 / 8 ≤ length three.bits
      → (r : Option ℕ) × (first_free three 9 ≡ ok r)
        × Answers false (drop (9 / 8) three.bits) (λ m. m) r)
    × (length three.bits < 9 / 8 → first_free three 9 ≡ panic)
first_free-Answers_example = first_free-Answers three 9 three_bytes

first_set-Answers_example :
    Answers true three.bits (λ m. 8 * (0 + m / 8) + (8 - m % 8)) (first_set three)
first_set-Answers_example = first_set-Answers three three_bytes

free_list_lem_example :
    Separated 0 (free_list three)
    × ((k : ℕ)
        → covers (free_list three) k ≡ (ltb k (8 * length three.bits) && not (bit_at three.bits k)))
free_list_lem_example = free_list_lem three three_bytes
