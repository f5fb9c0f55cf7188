-- ===== src/Gpt/Tests/Samples.antt =====
-- UUIDs that are written without dashes, and a partition.
use go_diskfs.Base.{
  ==_of, ==_iff, ℕ, ◌+◌, ◌-◌, ◌*◌, ◌/◌, ◌%◌, ◌<◌, ◌≡◌, ◌≢◌, refl, sym, ap, ap₂, ◌∙◌, subst, Bool,
  true, ◌&&◌, Option, none, some, List, [], ◌∷◌, length, All, replicate, ltb, leb, ◌==◌,
  if◌then◌else◌, arith, Bool-cases, inl, inr,
}
use go_diskfs.Base.Bytes.{IsByte, bytes_equal}
use go_diskfs.Gpt.Uuid.{UuidLibrary, IsUuidLibrary, IsUuid, to_upper}
use go_diskfs.Gpt.Names.{encode, encode_rune}
use go_diskfs.Gpt.Partition.{Partition}
use go_diskfs.Gpt.Partition.RoundTrip
use go_diskfs.Gpt.Partition.RoundTrip.{partition_from_bytes-to_bytes}
use go_diskfs.Gpt.Partition.Ready.{IsReady}

abbrev digit : ℕ → ℕ
digit d = if ltb d 10 then 48 + d else 87 + d

abbrev pub text : List ℕ → List ℕ
text [] = []
text (x ∷ xs) = digit (x / 16) ∷ digit (x % 16) ∷ text xs

-- A digit's value, and 0 for what is none.
abbrev value : ℕ → ℕ
value c =
    if leb 48 c && leb c 57
    then c - 48
    else if leb 65 c && leb c 70
    then c - 55
    else if leb 97 c && leb c 102
    then c - 87
    else 0

abbrev values : List ℕ → List ℕ
values [] = []
values (a ∷ []) = []
values (a ∷ b ∷ s) = (value a * 16 + value b) ∷ values s

abbrev parse : List ℕ → Option (List ℕ)
parse s = if length (values s) == 16 then some (values s) else none

abbrev pub plain : UuidLibrary
plain = record { parse = parse; to_string = text }

value-lt : (c : ℕ) → value c < 16
value-lt c = ground arith

upper : ℕ → ℕ
upper c = if leb 97 c && leb c 122 then c - 32 else c

value-digit : (d : ℕ) → d < 16 → value (upper (digit d)) ≡ d
unfolding upper
value-digit d h = ground arith

values-text : (b : List ℕ) → All IsByte b → values (to_upper (text b)) ≡ b
unfolding upper
values-text [] all = refl
values-text (x ∷ xs) (h, all) =
    ap₂ ◌∷◌
      (ap₂ (λ m n. m * 16 + n) (value-digit (x / 16) (omega arith))
          (value-digit (x % 16) (omega arith))
        ∙ omega arith)
      (values-text xs all)

values-IsByte : (s : List ℕ) → All IsByte (values s)
values-IsByte [] = tt
values-IsByte (a ∷ []) = tt
values-IsByte (a ∷ b ∷ s) = (omega (arith, value-lt a, value-lt b), values-IsByte s)

parse-text : (b : List ℕ) → IsUuid b → parse (to_upper (text b)) ≡ some b
parse-text b (h, all) = rw (values-text b all) (rw (==_of (length b) 16 h) refl)

parse-IsUuid : (s b : List ℕ) → parse s ≡ some b → IsUuid b
parse-IsUuid s b e = elim (Bool-cases (length (values s) == 16)) [
  | inl f ↦
      let found : parse s ≡ some (values s) = rw f refl in
      let same : values s ≡ b = ap (from_some b) (sym found ∙ e) in
      subst IsUuid same ((==_iff (length (values s)) 16).0 f, values-IsByte s)
  | inr f ↦
      let missing : parse s ≡ none = rw f refl in
      let bad : none ≡ some b = sym missing ∙ e in absurd (ground arith)
]
  where
    from_some : List ℕ → Option (List ℕ) → List ℕ
    from_some d none = d
    from_some d (some x) = x

text-not_empty : (b : List ℕ) → IsUuid b → 0 < length (text b)
text-not_empty [] (h, all) = absurd (omega arith)
text-not_empty (x ∷ xs) (h, all) = omega arith

pub plain-IsUuidLibrary : IsUuidLibrary plain
plain-IsUuidLibrary = record {
  parse-upper = parse-text;
  parse-IsUuid = parse-IsUuid;
  not_empty = text-not_empty;
}

abbrev pub linux_bytes : List ℕ
linux_bytes = 0x0F ∷ 0xC6 ∷ 0x3D ∷ 0xAF ∷ replicate 12 0x84

abbrev pub guid_bytes : List ℕ
guid_bytes = replicate 16 0xAB

all_bytes : List ℕ → Bool
all_bytes [] = true
all_bytes (x ∷ xs) = ltb x 256 && all_bytes xs

is_bytes : (b : List ℕ) → all_bytes b ≡ true → All IsByte b
unfolding all_bytes
is_bytes [] h = tt
is_bytes (x ∷ xs) h = (ground arith, is_bytes xs (ground arith))

pub guid_bytes-IsUuid : IsUuid guid_bytes
unfolding all_bytes
guid_bytes-IsUuid = (refl, is_bytes guid_bytes refl)

head_or : ℕ → List ℕ → ℕ
head_or d [] = d
head_or d (x ∷ xs) = x

linux_bytes-ne : linux_bytes ≢ replicate 16 0
unfolding head_or
linux_bytes-ne e = let bad : ◌≡◌ {A = ℕ} 15 0 = ap (head_or 0) e in omega arith

-- Sectors 3 to 5, under the name "ab".
abbrev pub data_partition : Partition
data_partition = record {
  start = 3;
  end = 5;
  size = 1536;
  type = to_upper (text linux_bytes);
  name = 97 ∷ 98 ∷ [];
  guid = to_upper (text guid_bytes);
  attributes = 0;
  logical_sector_size = 512;
  physical_sector_size = 512;
}

pub data_partition-IsWritable : RoundTrip.IsWritable plain data_partition
unfolding bytes_equal encode encode_rune all_bytes
data_partition-IsWritable = record {
  type_bytes = linux_bytes;
  guid_bytes = guid_bytes;
  type_uuid = (refl, is_bytes linux_bytes refl);
  guid_uuid = guid_bytes-IsUuid;
  not_zero = linux_bytes-ne;
  type_text = refl;
  guid_text = refl;
  used = refl;
  start_fits = omega arith;
  end_fits = omega arith;
  attributes_fit = omega arith;
  runes = (
    (omega arith, omega arith, inl (omega arith)),
    ((omega arith, omega arith, inl (omega arith)), tt),
  );
  name_fits = omega arith;
}

pub data_partition-IsReady : IsReady plain 512 data_partition
data_partition-IsReady = record {
  writable = data_partition-IsWritable;
  consistent = (omega arith, refl);
}
