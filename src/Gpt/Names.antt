-- ===== src/Gpt/Names.antt =====
-- The names of partitions: unicode/utf16, and the 72 bytes that partition/gpt/partition.go
-- keeps for a name.
use go_diskfs.Base.{
  length-append, ℕ, zero, suc, ◌+◌, ◌-◌, ◌*◌, ◌/◌, ◌%◌, ◌^◌, ◌≤◌, ◌<◌, ◌≡◌, refl, ap, ap₂, ◌∙◌,
  Bool, true, false, ◌&&◌, ◌||◌, List, [], ◌∷◌, ◌++◌, All, length, replicate, leb, ltb, ◌==◌,
  if◌then◌else◌, arith, ◌⊎◌, inl, inr, Bool-cases,
}
use go_diskfs.Base.Bytes.{le_bytes, le_value}

-- utf16.Encode
unfoldable pub encode_rune : ℕ → List ℕ
encode_rune r =
    if ltb r 0xd800 || (leb 0xe000 r && ltb r 0x10000)
    then r ∷ []
    else if leb 0x10000 r && leb r 0x10ffff
    then (0xd800 + (r - 0x10000) / 0x400) ∷ (0xdc00 + (r - 0x10000) % 0x400) ∷ []
    else 0xfffd ∷ []

unfoldable pub encode : List ℕ → List ℕ
unfolding encode_rune
encode [] = []
encode (r ∷ rs) = encode_rune r ++ encode rs

abbrev is_high : ℕ → Bool
is_high u = leb 0xd800 u && ltb u 0xdc00

abbrev is_low : ℕ → Bool
is_low u = leb 0xdc00 u && ltb u 0xe000

-- utf16.Decode
unfoldable pub decode : List ℕ → List ℕ
decode [] = []
decode (u ∷ []) = (if is_high u || is_low u then 0xfffd else u) ∷ []
decode (u ∷ v ∷ us) =
    let pair = decode us in
    let one = decode (v ∷ us) in
    if is_high u && is_low v
    then ((u - 0xd800) * 0x400 + (v - 0xdc00) + 0x10000) ∷ pair
    else (if is_high u || is_low u then 0xfffd else u) ∷ one

-- The bytes of the code units, in little-endian order.
unfoldable pub unit_bytes : List ℕ → List ℕ
unit_bytes [] = []
unit_bytes (u ∷ us) = le_bytes 2 u ++ unit_bytes us

-- The loop of partitionFromBytes: the code units up to the first zero.
unfoldable pub read_units : List ℕ → List ℕ
unfolding le_value
read_units [] = []
read_units (x ∷ []) = []
read_units (x ∷ y ∷ b) =
    let rest = read_units b in
    let entry = le_value (x ∷ y ∷ []) in if entry == 0 then [] else entry ∷ rest

-- A rune that a name may have: a Unicode scalar value that is not zero.
abbrev pub IsRune : ℕ → Type 0
IsRune r = (0 < r) × (r < 0x110000) × ((r < 0xd800) ⊎ (0xe000 ≤ r))

abbrev pub IsUnit : ℕ → Type 0
IsUnit u = (0 < u) × (u < 2 ^ 16)

encode_low : (r : ℕ) → IsRune r → r < 0x10000 → encode_rune r ≡ r ∷ []
unfolding encode_rune
encode_low r (a, b, inl c) h = ground arith
encode_low r (a, b, inr c) h = ground arith

encode_high :
    (r : ℕ)
    → IsRune r
    → 0x10000 ≤ r
    → encode_rune r ≡ (0xd800 + (r - 0x10000) / 0x400) ∷ (0xdc00 + (r - 0x10000) % 0x400) ∷ []
unfolding encode_rune
encode_high r (a, b, c) h = ground arith

decode_plain :
    (u : ℕ) (us : List ℕ) → (is_high u || is_low u) ≡ false → decode (u ∷ us) ≡ u ∷ decode us
unfolding decode
decode_plain u [] h = rw h refl
decode_plain u (v ∷ us) h =
    let high : is_high u ≡ false = ground arith in
    let low : is_low u ≡ false = ground arith in rw high (rw low refl)

decode_pair :
    (h l : ℕ) (us : List ℕ)
    → is_high h ≡ true
    → is_low l ≡ true
    → decode (h ∷ l ∷ us) ≡ ((h - 0xd800) * 0x400 + (l - 0xdc00) + 0x10000) ∷ decode us
unfolding decode
decode_pair h l us a b = rw a (rw b refl)

plain : (r : ℕ) → IsRune r → r < 0x10000 → (is_high r || is_low r) ≡ false
plain r (a, b, inl c) h = ground arith
plain r (a, b, inr c) h = ground arith

-- The code units of Unicode text give the text back.
pub decode-encode : (rs : List ℕ) → All IsRune rs → decode (encode rs) ≡ rs
unfolding encode decode
decode-encode [] all = refl
decode-encode (r ∷ rs) (h, all) = elim (Bool-cases (ltb r 0x10000)) [
  | inl e ↦
      let below : r < 0x10000 = ground arith in
      rw (encode_low r h below)
        (decode_plain r (encode rs) (plain r h below) ∙ ap (λ t. r ∷ t) (decode-encode rs all))
  | inr e ↦
      let above : 0x10000 ≤ r = ground arith in
      let q = (r - 0x10000) / 0x400 in
      let m = (r - 0x10000) % 0x400 in
      let top : r < 0x110000 = h.1 in
      rw (encode_high r h above) (
        decode_pair (0xd800 + q) (0xdc00 + m) (encode rs) (ground arith) (ground arith)
        ∙ ap₂ ◌∷◌ (omega arith) (decode-encode rs all))
]

All-append {κ} : (P : ℕ → Type κ) (xs ys : List ℕ) → All P xs → All P ys → All P (xs ++ ys)
All-append P [] ys a b = b
All-append P (x ∷ xs) ys (h, a) b = (h, All-append P xs ys a b)

pub encode-IsUnit : (rs : List ℕ) → All IsRune rs → All IsUnit (encode rs)
unfolding encode
encode-IsUnit [] all = tt
encode-IsUnit (r ∷ rs) (h, all) = elim (Bool-cases (ltb r 0x10000)) [
  | inl e ↦ rw (encode_low r h (ground arith)) ((h.0, ground arith), encode-IsUnit rs all)
  | inr e ↦
      let top : r < 0x110000 = h.1 in
      rw (encode_high r h (ground arith))
        ((omega arith, omega arith), ((omega arith, omega arith), encode-IsUnit rs all))
]

-- The units are read back up to the zeros behind them.
pub read_units-unit_bytes :
    (us : List ℕ) (n : ℕ) → All IsUnit us → read_units (unit_bytes us ++ replicate n 0) ≡ us
unfolding read_units unit_bytes le_value
read_units-unit_bytes [] n all = zeros n
  where
    zeros : (n : ℕ) → read_units (replicate n 0) ≡ []
    zeros zero = refl
    zeros (suc zero) = refl
    zeros (suc (suc n)) = refl
read_units-unit_bytes (u ∷ us) n ((a, b), all) =
    let same : u % 256 + 256 * (u / 256 % 256 + 0) ≡ u = omega arith in
    let ne : (u == 0) ≡ false = ground arith in
    rw same (rw ne (ap (λ t. u ∷ t) (read_units-unit_bytes us n all)))

pub length-unit_bytes : (us : List ℕ) → length (unit_bytes us) ≡ length us + length us
unfolding unit_bytes
length-unit_bytes [] = refl
length-unit_bytes (u ∷ us) = omega (arith, length-unit_bytes us)

length-encode_rune : (r : ℕ) → 0 < length (encode_rune r)
unfolding encode_rune
length-encode_rune r = ground arith

-- Text has no more runes than code units.
pub length-encode : (rs : List ℕ) → length rs ≤ length (encode rs)
unfolding encode
length-encode [] = omega arith
length-encode (r ∷ rs) =
    omega (arith, length-encode_rune r, length-encode rs, length-append (encode_rune r) (encode rs))
