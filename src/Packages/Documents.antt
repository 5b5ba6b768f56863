-- ===== src/Packages/Documents.antt =====
-- Absolute-Compiler/src/package_manager.cpp: `JsonString`, `JsonStringArray` and `JsonObjectMap`, which
-- search a document with regular expressions. A pattern is a function on the bytes from a position
-- on; none of its parts can match in two ways.
use absolute.Prelude.{
  ℕ, zero, suc, Bool, true, false, ◌&&◌, ◌||◌, List, [], ◌∷◌, ◌++◌, Option, none, some, leb, ◌==◌,
  if◌then◌else◌, length,
}
use absolute.Json.Text.{strip_prefix}
use absolute.Packages.Texts.{Text, StringMap, assign}

infixl 5 ◌>>=◌
abbrev ◌>>=◌ : {A B : Type 0} → Option A → (A → Option B) → Option B
none >>= continue = none
some found >>= continue = continue found

-- `\s*`
abbrev pub is_white : ℕ → Bool
is_white c = c == b' ' || leb 9 c && leb c 13

unfoldable pub skip_white : Text → Text
skip_white [] = []
skip_white (c ∷ cs) = elim (is_white c) [ true ↦ skip_white cs | false ↦ c ∷ cs ]

-- One byte of the pattern.
abbrev pub expect : ℕ → Text → Option Text
expect c [] = none
expect c (x ∷ xs) = if x == c then some xs else none

-- `\s*:\s*`
abbrev pub colon : Text → Option Text
colon s = do rest ← expect b':' (skip_white s); some (skip_white rest)

-- `[^c]*` and what is behind it.
unfoldable pub span_until : ℕ → Text → Text × Text
span_until c [] = ([], [])
span_until c (x ∷ xs) = elim (x == c) [
  | true ↦ ([], x ∷ xs)
  | false ↦ let (front, rest) = span_until c xs in (x ∷ front, rest)
]

-- The byte that ends such a part.
abbrev pub closed_by : Text × Text → Option (Text × Text)
closed_by (front, []) = none
closed_by (front, c ∷ rest) = some (front, rest)

abbrev pub not_empty : Text × Text → Option (Text × Text)
not_empty ([], rest) = none
not_empty (c ∷ cs, rest) = some (c ∷ cs, rest)

-- `"([^"]+)"`
unfoldable pub quoted : Text → Option (Text × Text)
unfolding span_until
quoted s = do behind ← expect b'"' s; part ← closed_by (span_until b'"' behind); not_empty part

-- `"key"\s*:\s*`
unfoldable pub key_at : Text → Text → Option Text
unfolding strip_prefix skip_white
key_at key s = do behind ← strip_prefix (b'"' ∷ (key ++ b'"' ∷ [])) s; colon behind

unfoldable pub string_at : Text → Text → Option (Text × Text)
unfolding key_at quoted
string_at key s = do rest ← key_at key s; quoted rest

-- The part between brackets of an array or an object.
unfoldable pub block_at : ℕ → ℕ → Text → Text → Option (Text × Text)
unfolding key_at span_until
block_at opening closing key s = do
  rest ← key_at key s
  behind ← expect opening rest
  closed_by (span_until closing behind)

-- `"([^"]+)"\s*:\s*"([^"]+)"`
unfoldable pub pair_at : Text → Option ((Text × Text) × Text)
unfolding quoted skip_white
pair_at s = do
  name ← quoted s
  rest ← colon name.1
  val ← quoted rest
  some ((name.0, val.0), val.1)

module _ {A : Type 0} (pattern_at : Text → Option A) where
  -- `std::regex_search`: the first position that matches.
  unfoldable pub search : Text → Option A
  search [] = pattern_at []
  search (c ∷ cs) = elim (pattern_at (c ∷ cs)) [ some found ↦ some found | none ↦ search cs ]

module _ {A : Type 0} (pattern_at : Text → Option (A × Text)) where
  -- The loop of `std::sregex_iterator`, on fuel: a match uses up a byte at least.
  unfoldable pub matches : ℕ → Text → List A
  unfolding search
  matches zero s = []
  matches (suc fuel) s = elim (search pattern_at s) [
    | none ↦ []
    | some found ↦ found.0 ∷ matches fuel found.1
  ]

abbrev pub captured : Option (Text × Text) → Text
captured none = []
captured (some found) = found.0

unfoldable pub json_string : Text → Text → Text
unfolding search string_at
json_string document key = captured (search (string_at key) document)

unfoldable pub json_string_array : Text → Text → List Text
unfolding search block_at matches quoted
json_string_array document key =
    let values = captured (search (block_at b'[' b']' key) document) in
    matches quoted (length values) values

abbrev pub assign_all : List (Text × Text) → StringMap → StringMap
assign_all [] m = m
assign_all ((k, v) ∷ pairs) m = assign_all pairs (assign k v m)

unfoldable pub json_object_map : Text → Text → StringMap
unfolding search block_at matches pair_at assign
json_object_map document key =
    let pairs = captured (search (block_at b'{' b'}' key) document) in
    assign_all (matches pair_at (length pairs) pairs) []
