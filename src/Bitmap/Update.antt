-- ===== src/Bitmap/Update.antt =====
-- IsSet, Set and Clear of util/bitmap.go, on every branch.
use go_diskfs.Base.{
  ℕ, zero, suc, ◌+◌, ◌*◌, ◌/◌, ◌%◌, ◌≤◌, ◌<◌, ◌≡◌, refl, ap, ◌∙◌, ltb, Bool, true, false, List, [],
  ◌∷◌, ok, err, panic, length, get_or, set, All, ◌==◌, if◌then◌else◌, arith, bit_and, bit_or, inl,
  inr, Bool-cases, length-set, get_or-set_self, get_or-set_ne, All-get_or,
}
use go_diskfs.Base.Bytes.{IsByte}
use go_diskfs.Base.Tables.{every_below, every_below_lem}
use go_diskfs.Bitmap.{
  Bitmap, not_in_bitmap, mask, complement, with_byte, is_set, set_bit, clear, test_byte, set_byte,
  clear_byte,
}
use go_diskfs.Bitmap.Bits.{bit, bit_at, mask-test, bit-set, bit-clear}

module _ {ℓ} {A : Type ℓ} (bm : Bitmap) (location : ℕ) (f : ℕ → ℕ → A) where
  pub with_byte-inside :
      location < 8 * length bm.bits → with_byte bm location f ≡ ok (f (location / 8) (location % 8))
  unfolding with_byte
  with_byte-inside h = ground arith

  -- The guard lets the first eight locations past the end through to an index panic.
  pub with_byte-past :
      8 * length bm.bits ≤ location
      → location < 8 * length bm.bits + 8
      → with_byte bm location f ≡ panic
  unfolding with_byte
  with_byte-past h k = ground arith

  pub with_byte-beyond :
      8 * length bm.bits + 8 ≤ location
      → with_byte bm location f ≡ err (not_in_bitmap location (length bm.bits * 8))
  unfolding with_byte
  with_byte-beyond h = ground arith

byte-at : (bs : List ℕ) (i : ℕ) → i < length bs → All IsByte bs → IsByte (get_or bs i 0)
byte-at bs i h all = All-get_or IsByte bs i 0 h all

-- IsSet reads bit `location` of a bitmap of bytes, where the bitmap has it.
-- On the eight locations past the end it panics, and on any other it returns the error.
pub is_set_lem :
    (bm : Bitmap) (location : ℕ)
    → All IsByte bm.bits
    → (location < 8 * length bm.bits → is_set bm location ≡ ok (bit_at bm.bits location))
      × (8 * length bm.bits ≤ location
          → location < 8 * length bm.bits + 8
          → is_set bm location ≡ panic)
      × (8 * length bm.bits + 8 ≤ location
          → is_set bm location ≡ err (not_in_bitmap location (length bm.bits * 8)))
unfolding is_set bit_at
is_set_lem bm location all = (
  λ h.
      with_byte-inside bm location (test_byte bm) h
      ∙ ap ok (mask-test _ _ (byte-at bm.bits (location / 8) (omega arith) all) (omega arith)),
  with_byte-past bm location (test_byte bm),
  with_byte-beyond bm location (test_byte bm),
)

bit_or-IsByte_table : every_below 256 (λ b. every_below 8 (λ j. ltb (bit_or b (mask j)) 256)) ≡ true
unfolding every_below
bit_or-IsByte_table = refl

bit_and-IsByte_table :
    every_below 256 (λ b. every_below 8 (λ j. ltb (bit_and b (complement (mask j))) 256)) ≡ true
unfolding every_below
bit_and-IsByte_table = refl

byte_of_table :
    (g : ℕ → ℕ → ℕ) (b j : ℕ)
    → every_below 256 (λ b. every_below 8 (λ j. ltb (g b j) 256)) ≡ true
    → b < 256
    → j < 8
    → IsByte (g b j)
byte_of_table g b j t hb hj = ground (
  arith,
  every_below_lem 8 (λ j. ltb (g b j) 256) j
      (every_below_lem 256 (λ b. every_below 8 (λ j. ltb (g b j) 256)) b t hb) hj,
)

All-set : (bs : List ℕ) (i v : ℕ) → IsByte v → All IsByte bs → All IsByte (set bs i v)
All-set [] i v h all = tt
All-set (b ∷ bs) zero v h all = (h, all.1)
All-set (b ∷ bs) (suc i) v h all = (all.0, All-set bs i v h all.1)

-- What an update that gives the byte of `location` the value `v` does to the bits.
update_bits :
    (bs : List ℕ) (location v : ℕ) (new : Bool)
    → location < 8 * length bs
    → ((k : ℕ)
        → k < 8
        → bit v k ≡ (if k == location % 8 then new else bit (get_or bs (location / 8) 0) k))
    → (k : ℕ) → bit_at (set bs (location / 8) v) k ≡ (if k == location then new else bit_at bs k)
unfolding bit_at
update_bits bs location v new h same k = elim (Bool-cases (k / 8 == location / 8)) [
  | inl e ↦
      let e' : k / 8 ≡ location / 8 = ground arith in
      rw (e', get_or-set_self bs (location / 8) v 0 (omega arith), same (k % 8) (omega arith))
        (ground arith)
  | inr e ↦ rw (get_or-set_ne bs (location / 8) (k / 8) v 0 (ground arith)) (ground arith)
]

-- What Set and Clear promise: the bitmap has the same size and is of bytes, bit `location` is
-- `new`, and every other bit is what it was.
pub record Updates (bm : Bitmap) (location : ℕ) (new : Bool) (bm' : Bitmap) : Type 0 where
  pub size : length bm'.bits ≡ length bm.bits
  pub bytes : All IsByte bm'.bits
  pub bits : (k : ℕ) → bit_at bm'.bits k ≡ (if k == location then new else bit_at bm.bits k)

-- Set of a location that the bitmap has succeeds: the bit is then set, every other bit is what it
-- was, and the size stays.
pub set_bit-Updates :
    (bm : Bitmap) (location : ℕ)
    → All IsByte bm.bits
    → location < 8 * length bm.bits
    → (bm' : Bitmap) × (set_bit bm location ≡ ok bm') × Updates bm location true bm'
unfolding set_bit
set_bit-Updates bm location all h =
    let old = get_or bm.bits (location / 8) 0 in
    let old_byte : IsByte old = byte-at bm.bits (location / 8) (omega arith) all in
    let v = bit_or old (mask (location % 8)) in
    (
      set_byte bm (location / 8) (location % 8),
      with_byte-inside bm location (set_byte bm) h,
      record {
        size = length-set bm.bits (location / 8) v;
        bytes =
            All-set bm.bits (location / 8) v
              (byte_of_table (λ b j. bit_or b (mask j)) old (location % 8) bit_or-IsByte_table
                old_byte (omega arith))
              all;
        bits =
            update_bits bm.bits location v true h
              (λ k hk. bit-set old (location % 8) k old_byte (omega arith) hk);
      },
    )

-- Clear of a location that the bitmap has succeeds: the bit is then free, every other bit is what
-- it was, and the size stays.
pub clear-Updates :
    (bm : Bitmap) (location : ℕ)
    → All IsByte bm.bits
    → location < 8 * length bm.bits
    → (bm' : Bitmap) × (clear bm location ≡ ok bm') × Updates bm location false bm'
unfolding clear
clear-Updates bm location all h =
    let old = get_or bm.bits (location / 8) 0 in
    let old_byte : IsByte old = byte-at bm.bits (location / 8) (omega arith) all in
    let v = bit_and old (complement (mask (location % 8))) in
    (
      clear_byte bm (location / 8) (location % 8),
      with_byte-inside bm location (clear_byte bm) h,
      record {
        size = length-set bm.bits (location / 8) v;
        bytes =
            All-set bm.bits (location / 8) v
              (byte_of_table (λ b j. bit_and b (complement (mask j))) old (location % 8)
                bit_and-IsByte_table old_byte (omega arith))
              all;
        bits =
            update_bits bm.bits location v false h
              (λ k hk. bit-clear old (location % 8) k old_byte (omega arith) hk);
      },
    )
