-- ===== src/Bitmap.antt =====
-- util/bitmap.go: a bitmap over a byte slice. A location is a Go `int` that is not negative.
pub mod Bits
pub mod Update
pub mod First
pub mod Runs
mod Tests
use go_diskfs.Base.{
  ℕ, zero, suc, ◌+◌, ◌-◌, ◌*◌, ◌/◌, ◌%◌, ◌^◌, bit_and, bit_or, Bool, true, false, Option, none,
  some, List, [], ◌∷◌, ◌++◌, Result, ok, err, panic, length, get_or, set, replicate, drop, ltb,
  ◌==◌, if◌then◌else◌,
}

-- type Bitmap struct
pub record Bitmap : Type 0 where
  pub bits : List ℕ

-- type Contiguous struct
pub record Contiguous : Type 0 where
  pub position : ℕ
  pub count : ℕ

-- "location %d is not in %d size bitmap"
pub data Error : Type 0 where
  not_in_bitmap : ℕ → ℕ → Error

unfoldable pub bitmap_from_bytes : List ℕ → Bitmap
bitmap_from_bytes b = record { bits = b }

unfoldable pub new_bitmap : ℕ → Bitmap
new_bitmap n = record { bits = replicate n 0 }

unfoldable pub to_bytes : Bitmap → List ℕ
to_bytes bm = bm.bits

unfoldable pub from_bytes : Bitmap → List ℕ → Bitmap
from_bytes bm b = record bm { bits = b }

unfoldable pub find_bit_for_index : ℕ → ℕ × ℕ
find_bit_for_index index = (index / 8, index % 8)

-- `byte(0x1) << n`, and `^mask` of a byte.
abbrev pub mask : ℕ → ℕ
mask n = 2 ^ n % 256

abbrev pub complement : ℕ → ℕ
complement m = 255 - m

-- The access `bm.bits[n]` under the source's guard: an index equal to the length panics.
unfoldable pub with_byte {ℓ} : {A : Type ℓ} → Bitmap → ℕ → (ℕ → ℕ → A) → Result Error A
unfolding find_bit_for_index
with_byte bm location f =
    let (byte_number, bit_number) = find_bit_for_index location in
    if ltb (length bm.bits) byte_number
    then err (not_in_bitmap location (length bm.bits * 8))
    else if byte_number == length bm.bits
    then panic
    else ok (f byte_number bit_number)

-- What IsSet, Clear and Set do with the byte and bit numbers in range.
abbrev pub test_byte : Bitmap → ℕ → ℕ → Bool
test_byte bm byte_number bit_number =
    bit_and (get_or bm.bits byte_number 0) (mask bit_number) == mask bit_number

abbrev pub clear_byte : Bitmap → ℕ → ℕ → Bitmap
clear_byte bm byte_number bit_number = record {
  bits =
      set bm.bits byte_number
        (bit_and (get_or bm.bits byte_number 0) (complement (mask bit_number)));
}

abbrev pub set_byte : Bitmap → ℕ → ℕ → Bitmap
set_byte bm byte_number bit_number = record {
  bits = set bm.bits byte_number (bit_or (get_or bm.bits byte_number 0) (mask bit_number));
}

unfoldable pub is_set : Bitmap → ℕ → Result Error Bool
unfolding with_byte
is_set bm location = with_byte bm location (test_byte bm)

unfoldable pub clear : Bitmap → ℕ → Result Error Bitmap
unfolding with_byte
clear bm location = with_byte bm location (clear_byte bm)

unfoldable pub set_bit : Bitmap → ℕ → Result Error Bitmap
unfolding with_byte
set_bit bm location = with_byte bm location (set_byte bm)

-- `for j := uint8(0); j < 8; j++` from j with n rounds left: the first j that passes.
unfoldable pub first_bit : (ℕ → Bool) → ℕ → ℕ → Option ℕ
first_bit test zero j = none
first_bit test (suc n) j = let rest = first_bit test n (j + 1) in if test j then some j else rest

-- `b&mask != mask` and, with the complemented mask, `b|mask != mask`.
abbrev pub free_test : ℕ → ℕ → Bool
free_test b j = if bit_and b (mask j) == mask j then false else true

abbrev pub used_test : ℕ → ℕ → Bool
used_test b j = if bit_or b (complement (mask j)) == complement (mask j) then false else true

-- The loop of FirstFree over `candidates`, at index i. `none` is the source's -1.
unfoldable pub first_free_loop : List ℕ → ℕ → Option ℕ
unfolding first_bit
first_free_loop [] i = none
first_free_loop (b ∷ bs) i =
    let rest = first_free_loop bs (i + 1) in
    if bit_and b 0xff == 0xff
    then rest
    else elim (first_bit (free_test b) 8 0) [ none ↦ none | some j ↦ some (8 * i + j) ]

-- `bm.bits[start/8:]` panics where start/8 is beyond the length.
unfoldable pub first_free : Bitmap → ℕ → Result Error (Option ℕ)
unfolding first_free_loop
first_free bm start =
    if ltb (length bm.bits) (start / 8)
    then panic
    else ok (first_free_loop (drop (start / 8) bm.bits) 0)

unfoldable pub first_set_loop : List ℕ → ℕ → Option ℕ
unfolding first_bit
first_set_loop [] i = none
first_set_loop (b ∷ bs) i =
    let rest = first_set_loop bs (i + 1) in
    if b == 0
    then rest
    else elim (first_bit (used_test b) 8 0) [ none ↦ none | some j ↦ some (8 * i + (8 - j)) ]

unfoldable pub first_set : Bitmap → Option ℕ
unfolding first_set_loop
first_set bm = first_set_loop bm.bits 0

-- The variables of FreeList's loops. `location` is `none` for -1.
pub record Scan : Type 0 where
  pub list : List Contiguous
  pub location : Option ℕ
  pub count : ℕ

-- `append(list, Contiguous{location, count})`
unfoldable pub close_run : Scan → Scan
close_run s = elim s.location [
  | none ↦ s
  | some p ↦ record {
    list = s.list ++ (record { position = p; count = s.count } ∷ []);
    location = none;
    count = 0;
  }
]

-- The body of FreeList's inner loop.
unfoldable pub free_step : ℕ → ℕ → ℕ → Scan → Scan
unfolding close_run
free_step i b j s = if bit_and b (mask j) == mask j then close_run s else record s {
  location = elim s.location [ none ↦ some (8 * i + j) | some p ↦ some p ];
  count = s.count + 1;
}

unfoldable pub free_byte : ℕ → ℕ → ℕ → ℕ → Scan → Scan
unfolding free_step
free_byte zero i b j s = s
free_byte (suc n) i b j s = free_byte n i b (j + 1) (free_step i b j s)

unfoldable pub free_loop : List ℕ → ℕ → Scan → Scan
unfolding free_byte
free_loop [] i s = s
free_loop (b ∷ bs) i s = free_loop bs (i + 1) (free_byte 8 i b 0 s)

unfoldable pub free_list : Bitmap → List Contiguous
unfolding free_loop
free_list bm =
    (close_run (free_loop bm.bits 0 (record { list = []; location = none; count = 0 }))).list
