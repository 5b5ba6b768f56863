-- ===== src/Packages/Versions.antt =====
-- Absolute-Compiler/src/package_manager.cpp: `SemVer`. The regular expression of `Parse` is written
-- out as functions on the bytes that are left; none of its parts can match in two ways.
use absolute.Prelude.{
  ℕ, ◌+◌, ◌-◌, ◌*◌, Bool, true, false, ◌&&◌, ◌||◌, not, List, [], ◌∷◌, ◌++◌, Option, none, some,
  Result, ok, err, ◌>>=◌, ltb, leb, ◌==◌, if◌then◌else◌,
}
pub use absolute.Datetime.Iso.{is_digit}
use absolute.Datetime.IsoText.{decimal}

pub record SemVer : Type 0 where
  pub major : ℕ
  pub minor : ℕ
  pub patch : ℕ
  pub prerelease : List ℕ

-- The exception of `std::stoi`.
pub data VersionError : Type 0 where
  out_of_range : VersionError

-- 2 ^ 31
abbrev pub int_limit : ℕ
int_limit = 0x80000000

-- `\d+` and what is behind it; no digits are no match.
unfoldable pub span_digits : List ℕ → List ℕ × List ℕ
span_digits [] = ([], [])
span_digits (c ∷ cs) = elim (is_digit c) [
  | true ↦ let (ds, rest) = span_digits cs in (c ∷ ds, rest)
  | false ↦ ([], c ∷ cs)
]

abbrev pub some_digits : List ℕ → (List ℕ × List ℕ) → Option (List ℕ) × List ℕ
some_digits s ([], rest) = (none, s)
some_digits s (d ∷ ds, rest) = (some (d ∷ ds), rest)

-- `(?:\.(\d+))?`
unfoldable pub dot_number : List ℕ → Option (List ℕ) × List ℕ
unfolding span_digits
dot_number [] = (none, [])
dot_number (c ∷ cs) = if c == b'.' then some_digits (c ∷ cs) (span_digits cs) else (none, c ∷ cs)

-- `.` of a regular expression is any byte that ends no line.
abbrev pub one_line : List ℕ → Bool
one_line [] = true
one_line (c ∷ cs) = not (c == b'\n' || c == b'\r') && one_line cs

-- `(?:-(.+))?$`
unfoldable pub suffix : List ℕ → Option (List ℕ)
suffix [] = some []
suffix (c ∷ []) = none
suffix (c ∷ d ∷ ds) = if (c == b'-') && one_line (d ∷ ds) then some (d ∷ ds) else none

pub record Captures : Type 0 where
  pub first : List ℕ
  pub second : Option (List ℕ)
  pub third : Option (List ℕ)
  pub last : List ℕ

-- The match behind the first number.
unfoldable pub captures_of : List ℕ × List ℕ → Option Captures
unfolding dot_number suffix
captures_of ([], rest) = none
captures_of (d ∷ ds, rest) =
    let (second, behind) = dot_number rest in
    let (third, behind') = dot_number behind in
    elim (suffix behind') [
      | none ↦ none
      | some text ↦ some (record { first = d ∷ ds; second = second; third = third; last = text })
    ]

-- `v?`
abbrev pub behind_v : List ℕ → List ℕ
behind_v [] = []
behind_v (c ∷ cs) = if c == b'v' then cs else c ∷ cs

-- `std::regex_match`
unfoldable pub version_match : List ℕ → Option Captures
unfolding span_digits captures_of
version_match s = captures_of (span_digits (behind_v s))

unfoldable pub digits_value : ℕ → List ℕ → ℕ
digits_value acc [] = acc
digits_value acc (c ∷ cs) = digits_value (acc * 10 + (c - b'0')) cs

-- `std::stoi` of digits.
unfoldable pub stoi : List ℕ → Result VersionError ℕ
unfolding digits_value
stoi ds = let n = digits_value 0 ds in if ltb n int_limit then ok n else err out_of_range

abbrev pub stoi_or_zero : Option (List ℕ) → Result VersionError ℕ
stoi_or_zero none = ok 0
stoi_or_zero (some ds) = stoi ds

abbrev pub zero_version : SemVer
zero_version = record { major = 0; minor = 0; patch = 0; prerelease = [] }

-- `SemVer::Parse`
unfoldable pub parse_captures : Option Captures → Result VersionError SemVer
unfolding stoi
parse_captures none = ok zero_version
parse_captures (some m) = do
  major ← stoi m.first
  minor ← stoi_or_zero m.second
  patch ← stoi_or_zero m.third
  ok (record { major = major; minor = minor; patch = patch; prerelease = m.last })

unfoldable pub parse : List ℕ → Result VersionError SemVer
unfolding version_match parse_captures
parse s = parse_captures (version_match s)

-- `ToString`; an `int` has at most ten digits.
abbrev pub prerelease_text : List ℕ → List ℕ
prerelease_text [] = []
prerelease_text (c ∷ cs) = b'-' ∷ c ∷ cs

unfoldable pub to_string : SemVer → List ℕ
unfolding decimal
to_string v =
    decimal 10 v.major
    ++ b'.' ∷ (decimal 10 v.minor ++ b'.' ∷ (decimal 10 v.patch ++ prerelease_text v.prerelease))

-- The comparisons of `Satisfies`, at the two versions.
abbrev pub caret : SemVer → SemVer → Bool
caret v t =
    (v.major == t.major) && (ltb t.minor v.minor || (v.minor == t.minor) && leb t.patch v.patch)

abbrev pub tilde : SemVer → SemVer → Bool
tilde v t = (v.major == t.major) && (v.minor == t.minor) && leb t.patch v.patch

abbrev pub at_least : SemVer → SemVer → Bool
at_least v t =
    if not (v.major == t.major)
    then ltb t.major v.major
    else if not (v.minor == t.minor)
    then ltb t.minor v.minor
    else leb t.patch v.patch

abbrev pub at_most : SemVer → SemVer → Bool
at_most v t =
    if not (v.major == t.major)
    then ltb v.major t.major
    else if not (v.minor == t.minor)
    then ltb v.minor t.minor
    else leb v.patch t.patch

abbrev pub exact : SemVer → SemVer → Bool
exact v t = (v.major == t.major) && (v.minor == t.minor) && (v.patch == t.patch)

-- What a constraint begins with, and what is behind that.
pub data Constraint : Type 0 where
  any : Constraint
  caret_of tilde_of at_least_of at_most_of exactly : List ℕ → Constraint

abbrev pub constraint_start : ℕ → ℕ → List ℕ → Constraint
constraint_start c d rest =
    if c == b'^'
    then caret_of (d ∷ rest)
    else if c == b'~'
    then tilde_of (d ∷ rest)
    else if (c == b'>') && (d == b'=')
    then at_least_of rest
    else if (c == b'<') && (d == b'=')
    then at_most_of rest
    else exactly (c ∷ d ∷ rest)

unfoldable pub constraint_of : List ℕ → Constraint
constraint_of [] = any
constraint_of (c ∷ []) =
    if c == b'*'
    then any
    else if c == b'^'
    then caret_of []
    else if c == b'~'
    then tilde_of []
    else exactly (c ∷ [])
constraint_of (c ∷ d ∷ rest) = constraint_start c d rest

abbrev pub compare_parsed : (SemVer → SemVer → Bool) → SemVer → List ℕ → Result VersionError Bool
compare_parsed test version text = do target ← parse text; ok (test version target)

unfoldable pub satisfies_at : List ℕ → Constraint → Result VersionError Bool
unfolding parse
satisfies_at v any = ok true
satisfies_at v (caret_of t) = do version ← parse v; compare_parsed caret version t
satisfies_at v (tilde_of t) = do version ← parse v; compare_parsed tilde version t
satisfies_at v (at_least_of t) = do version ← parse v; compare_parsed at_least version t
satisfies_at v (at_most_of t) = do version ← parse v; compare_parsed at_most version t
satisfies_at v (exactly t) = do version ← parse v; compare_parsed exact version t

-- `SemVer::Satisfies`
unfoldable pub satisfies : List ℕ → List ℕ → Result VersionError Bool
unfolding satisfies_at constraint_of
satisfies version constraint = satisfies_at version (constraint_of constraint)
