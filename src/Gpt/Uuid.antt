-- ===== src/Gpt/Uuid.antt =====
-- partition/gpt/common.go, 64-bit numbers, and what the package uses of github.com/google/uuid,
-- which is a parameter.
use go_diskfs.Base.{
  All, ℕ, suc, ◌+◌, ◌-◌, ◌*◌, ◌%◌, ◌^◌, ◌<◌, ◌≡◌, refl, sym, ap, ◌&&◌, Option, some, List, [], ◌∷◌,
  ◌++◌, length, leb, if◌then◌else◌, cells_lem,
}
use go_diskfs.Base.Bytes.{slice, IsByte}

-- uint64 arithmetic.
abbrev pub add64 : ℕ → ℕ → ℕ
add64 a b = (a + b) % 2 ^ 64

abbrev pub sub64 : ℕ → ℕ → ℕ
sub64 a b = (a + 2 ^ 64 - b % 2 ^ 64) % 2 ^ 64

abbrev pub mul64 : ℕ → ℕ → ℕ
mul64 a b = a * b % 2 ^ 64

-- `parse` is uuid.Parse, with none for an error; `to_string` is the method String. A UUID is its
-- 16 bytes; uuid.FromBytes takes 16 bytes as they are.
pub record UuidLibrary : Type 0 where
  pub parse : List ℕ → Option (List ℕ)
  pub to_string : List ℕ → List ℕ

-- `strings.ToUpper`, of ASCII text.
abbrev pub to_upper : List ℕ → List ℕ
to_upper [] = []
to_upper (c ∷ s) = (if leb 97 c && leb c 122 then c - 32 else c) ∷ to_upper s

abbrev pub IsUuid : List ℕ → Type 0
IsUuid b = (length b ≡ 16) × All IsByte b

-- Parse reads what String writes, in capitals too, and gives UUIDs only.
pub record IsUuidLibrary (u : UuidLibrary) : Type 0 where
  pub parse-upper : (b : List ℕ) → IsUuid b → u.parse (to_upper (u.to_string b)) ≡ some b
  pub parse-IsUuid : (s b : List ℕ) → u.parse s ≡ some b → IsUuid b
  pub not_empty : (b : List ℕ) → IsUuid b → 0 < length (u.to_string b)

-- reverseSlice
unfoldable pub reverse_slice : List ℕ → List ℕ
reverse_slice [] = []
reverse_slice (x ∷ xs) = reverse_slice xs ++ (x ∷ [])

-- bytesToUUIDBytes, of 16 bytes.
unfoldable pub bytes_to_uuid_bytes : List ℕ → List ℕ
unfolding reverse_slice
bytes_to_uuid_bytes b =
    reverse_slice (slice 0 4 b)
    ++ (reverse_slice (slice 4 6 b) ++ (reverse_slice (slice 6 8 b) ++ slice 8 16 b))

pub length-bytes_to_uuid_bytes : (b : List ℕ) → length b ≡ 16 → length (bytes_to_uuid_bytes b) ≡ 16
unfolding bytes_to_uuid_bytes reverse_slice
length-bytes_to_uuid_bytes b h = rw (sym (cells_lem 0 16 b h)) refl

-- Going from the order on disk to the order of a UUID and back changes nothing.
pub bytes_to_uuid_bytes_self :
    (b : List ℕ) → length b ≡ 16 → bytes_to_uuid_bytes (bytes_to_uuid_bytes b) ≡ b
unfolding bytes_to_uuid_bytes reverse_slice
bytes_to_uuid_bytes_self b h = rw (sym (cells_lem 0 16 b h)) refl

pub length-to_upper : (s : List ℕ) → length (to_upper s) ≡ length s
length-to_upper [] = refl
length-to_upper (c ∷ s) = ap suc (length-to_upper s)
