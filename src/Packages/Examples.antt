-- ===== src/Packages/Examples.antt =====
-- Absolute-Compiler/src/package_manager.cpp at concrete texts and packages.
use absolute.Prelude.{
  ◌≡◌, ◌≢◌, refl, Bool, true, false, List, [], ◌∷◌, ◌++◌, Option, none, some, ok, err,
  if◌then◌else◌, inl, inr, sym, ◌∙◌, Bool-cases, ok-injective, ok_err, arith,
}
use mathlib.Core.Path.{subst}
use absolute.Packages.Versions.{SemVer, Captures, parse, to_string}
use absolute.Packages.VersionText.{parse-to_string}
use absolute.Packages.Texts.{Text, text_eq, text_eq→eq, contains}
use absolute.Packages.Manifests.{
  lockfile_text, load_lockfile, FileSystem, cannot_open, PackageManifest, PackageLockfile,
  out_of_fuel, load_manifest, read_file_content,
}
use absolute.Json.Tree.{key_less}
use absolute.Packages.LockSections.{IsText}
use absolute.Packages.Saving.{load_lockfile-resolve_dependencies}
use absolute.Packages.LockRoundTrip.{load_lockfile-lockfile_text}
use absolute.Packages.Growing.{MeetsAll, Extends, Backed}
use absolute.Packages.Backing.{resolve_dependencies-Backed}
use absolute.Packages.Termination.{Known, resolve_dependencies-total}
use absolute.Packages.{resolve_dependencies}

abbrev beta : SemVer
beta = record { major = 2; minor = 10; patch = 0; prerelease = b'r' ∷ b'c' ∷ [] }

parse-to_string_example : parse (to_string beta) ≡ ok beta
parse-to_string_example = parse-to_string beta (omega arith) (omega arith) (omega arith) refl

abbrev beta_captures : Captures
beta_captures = record {
  first = b'2' ∷ [];
  second = some (b'1' ∷ b'0' ∷ []);
  third = some (b'0' ∷ []);
  last = b'r' ∷ b'c' ∷ [];
}

abbrev pair_captures : Captures
pair_captures = record { first = b'2' ∷ []; second = some (b'3' ∷ []); third = none; last = [] }

abbrev b_document : Text
b_document =
    b'{' ∷ b'"' ∷ b'n' ∷ b'a' ∷ b'm' ∷ b'e' ∷ b'"' ∷ b':' ∷ b'"' ∷ b'b' ∷ b'"' ∷ b',' ∷ b'"' ∷ b'd'
    ∷ b'e' ∷ b'p' ∷ b'e' ∷ b'n' ∷ b'd' ∷ b'e' ∷ b'n' ∷ b'c' ∷ b'i' ∷ b'e' ∷ b's' ∷ b'"' ∷ b':'
    ∷ b'{' ∷ b'"' ∷ b'c' ∷ b'"' ∷ b':' ∷ b'"' ∷ b'^' ∷ b'1' ∷ b'"' ∷ b'}' ∷ b'}' ∷ []

abbrev c_document : Text
c_document =
    b'{' ∷ b'"' ∷ b'n' ∷ b'a' ∷ b'm' ∷ b'e' ∷ b'"' ∷ b':' ∷ b'"' ∷ b'c' ∷ b'"' ∷ b',' ∷ b'"' ∷ b'v'
    ∷ b'e' ∷ b'r' ∷ b's' ∷ b'i' ∷ b'o' ∷ b'n' ∷ b'"' ∷ b':' ∷ b'"' ∷ b'1' ∷ b'.' ∷ b'2' ∷ b'"'
    ∷ b',' ∷ b'"' ∷ b'd' ∷ b'e' ∷ b'p' ∷ b'e' ∷ b'n' ∷ b'd' ∷ b'e' ∷ b'n' ∷ b'c' ∷ b'i' ∷ b'e'
    ∷ b's' ∷ b'"' ∷ b':' ∷ b'{' ∷ b'"' ∷ b'b' ∷ b'"' ∷ b':' ∷ b'"' ∷ b'*' ∷ b'"' ∷ b'}' ∷ b'}' ∷ []

abbrev b_path : Text
b_path =
    b'r' ∷ b'/' ∷ b'b' ∷ b'/' ∷ b'p' ∷ b'a' ∷ b'c' ∷ b'k' ∷ b'a' ∷ b'g' ∷ b'e' ∷ b'.' ∷ b'a' ∷ b'b'
    ∷ b's' ∷ []

abbrev c_path : Text
c_path =
    b'r' ∷ b'/' ∷ b'c' ∷ b'/' ∷ b'p' ∷ b'a' ∷ b'c' ∷ b'k' ∷ b'a' ∷ b'g' ∷ b'e' ∷ b'.' ∷ b'a' ∷ b'b'
    ∷ b's' ∷ []

abbrev b_version : Text
b_version = b'1' ∷ b'.' ∷ b'0' ∷ b'.' ∷ b'0' ∷ []

abbrev c_version : Text
c_version = b'1' ∷ b'.' ∷ b'2' ∷ []

-- A registry `r` with two packages, each of which asks for the other.
abbrev read_file : Text → Option Text
unfolding text_eq
read_file path =
    if text_eq path b_path
    then some b_document
    else if text_eq path c_path
    then some c_document
    else none

abbrev is_some : Option Text → Bool
is_some none = false
is_some (some t) = true

abbrev files : FileSystem
files = record {
  FilePath = Text;
  path_of = λ t. t;
  string_of = λ t. t;
  join = λ a b. a ++ b'/' ∷ b;
  absolute_path = λ t. t;
  parent_path = λ t. [];
  is_absolute = λ t. false;
  exists = λ t. is_some (read_file t);
  read = read_file;
}

abbrev main_manifest : PackageManifest Text
main_manifest = record {
  root = [];
  name = b'a' ∷ [];
  version = b_version;
  target_type = [];
  entry = [];
  source_directories = [];
  targets = [];
  registries = [];
  dependencies = (b'b' ∷ [], b'~' ∷ b'1' ∷ []) ∷ [];
}

abbrev empty_lock : PackageLockfile
empty_lock = record { resolved_versions = []; resolved_paths = [] }

abbrev full_lock : PackageLockfile
full_lock = record {
  resolved_versions = (b'b' ∷ [], b_version) ∷ (b'c' ∷ [], c_version) ∷ [];
  resolved_paths = (b'b' ∷ [], b_path) ∷ (b'c' ∷ [], c_path) ∷ [];
}

abbrev registry : List Text
registry = (b'r' ∷ []) ∷ []

-- The cycle of the two packages is not noticed.
cycle-test : resolve_dependencies files 4 main_manifest registry empty_lock ≡ ok full_lock
unfolding resolve_dependencies
cycle-test = refl

resolve_dependencies-Backed_example :
    MeetsAll full_lock main_manifest.dependencies
    × Extends empty_lock full_lock
    × Backed files ((b'a' ∷ []) ∷ []) empty_lock full_lock
resolve_dependencies-Backed_example =
    resolve_dependencies-Backed files 4 main_manifest registry empty_lock full_lock cycle-test

abbrev names : List Text
names = (b'b' ∷ []) ∷ (b'c' ∷ []) ∷ []

loaded-b :
    (m : PackageManifest Text) → load_manifest files b_path ≡ ok m → Known names m.dependencies
unfolding load_manifest contains
loaded-b m h = subst (λ z. Known names z.dependencies) (ok-injective h) (refl, tt)

loaded-c :
    (m : PackageManifest Text) → load_manifest files c_path ≡ ok m → Known names m.dependencies
unfolding load_manifest contains
loaded-c m h = subst (λ z. Known names z.dependencies) (ok-injective h) (refl, tt)

unreadable :
    (folder : FileSystem) (path : folder.FilePath)
    → folder.read path ≡ none
    → load_manifest folder path ≡ err (cannot_open (folder.string_of path))
unfolding load_manifest read_file_content
unreadable folder path e = rw (e, load_manifest, read_file_content) refl

loaded-none :
    (path : Text)
    → text_eq path b_path ≡ false
    → text_eq path c_path ≡ false
    → read_file path ≡ none
unfolding read_file
loaded-none path b c = rw (b, c) refl

loaded-Known :
    (path : Text) (m : PackageManifest Text)
    → load_manifest files path ≡ ok m
    → Known names m.dependencies
loaded-Known path m h = elim (Bool-cases (text_eq path b_path)) [
  | inl b ↦ loaded-b m (subst (λ p. load_manifest files p ≡ ok m) (text_eq→eq path b_path b) h)
  | inr b ↦ elim (Bool-cases (text_eq path c_path)) [
    | inl c ↦ loaded-c m (subst (λ p. load_manifest files p ≡ ok m) (text_eq→eq path c_path c) h)
    | inr c ↦ absurd (ok_err (sym h ∙ unreadable files path (loaded-none path b c)))
  ]
]

main-Known : Known names main_manifest.dependencies
unfolding contains
main-Known = (refl, tt)

resolve_dependencies-total_example :
    resolve_dependencies files 3 main_manifest registry empty_lock ≢ err out_of_fuel
resolve_dependencies-total_example =
    resolve_dependencies-total files registry names loaded-Known 3 main_manifest empty_lock
      main-Known (omega arith)

name_b-IsText : IsText (b'b' ∷ [])
name_b-IsText = ((refl, tt), (refl, tt))

name_c-IsText : IsText (b'c' ∷ [])
name_c-IsText = ((refl, tt), (refl, tt))

b_version-IsText : IsText b_version
b_version-IsText =
    ((refl, (refl, (refl, (refl, (refl, tt))))), (refl, (refl, (refl, (refl, (refl, tt))))))

c_version-IsText : IsText c_version
c_version-IsText = ((refl, (refl, (refl, tt))), (refl, (refl, (refl, tt))))

b_path-IsText : IsText b_path
b_path-IsText = (
  (
    refl,
    (
      refl,
      (
        refl,
        (
          refl,
          (
            refl,
            (refl, (refl, (refl, (refl, (refl, (refl, (refl, (refl, (refl, (refl, tt)))))))))),
          ),
        ),
      ),
    ),
  ),
  (
    refl,
    (
      refl,
      (
        refl,
        (
          refl,
          (
            refl,
            (refl, (refl, (refl, (refl, (refl, (refl, (refl, (refl, (refl, (refl, tt)))))))))),
          ),
        ),
      ),
    ),
  ),
)

c_path-IsText : IsText c_path
c_path-IsText = (
  (
    refl,
    (
      refl,
      (
        refl,
        (
          refl,
          (
            refl,
            (refl, (refl, (refl, (refl, (refl, (refl, (refl, (refl, (refl, (refl, tt)))))))))),
          ),
        ),
      ),
    ),
  ),
  (
    refl,
    (
      refl,
      (
        refl,
        (
          refl,
          (
            refl,
            (refl, (refl, (refl, (refl, (refl, (refl, (refl, (refl, (refl, (refl, tt)))))))))),
          ),
        ),
      ),
    ),
  ),
)

abbrev lock_files : FileSystem
lock_files = record {
  FilePath = Text;
  path_of = λ t. t;
  string_of = λ t. t;
  join = λ a b. a ++ b'/' ∷ b;
  absolute_path = λ t. t;
  parent_path = λ t. [];
  is_absolute = λ t. false;
  exists = λ t. true;
  read = λ t. some (lockfile_text full_lock);
}

sorted-test : (key_less (b'b' ∷ []) (b'c' ∷ [])) ≡ true
unfolding key_less
sorted-test = refl

load_lockfile-lockfile_text_example : load_lockfile lock_files (b'l' ∷ []) ≡ ok full_lock
load_lockfile-lockfile_text_example =
    load_lockfile-lockfile_text lock_files (b'l' ∷ []) full_lock refl refl
      (name_b-IsText, b_version-IsText, (name_c-IsText, c_version-IsText, tt))
      (name_b-IsText, b_path-IsText, (name_c-IsText, c_path-IsText, tt))
      ((sorted-test, tt), (tt, tt)) ((sorted-test, tt), (tt, tt))

no_lockfile-test : load_lockfile files (b'l' ∷ []) ≡ ok empty_lock
unfolding load_lockfile read_file
no_lockfile-test = refl

load_lockfile-resolve_dependencies_example : load_lockfile lock_files (b'l' ∷ []) ≡ ok full_lock
load_lockfile-resolve_dependencies_example =
    load_lockfile-resolve_dependencies files lock_files (b'l' ∷ []) (b'l' ∷ []) 4 main_manifest
      registry empty_lock full_lock no_lockfile-test cycle-test
      (name_b-IsText, b_version-IsText, (name_c-IsText, c_version-IsText, tt))
      (name_b-IsText, b_path-IsText, (name_c-IsText, c_path-IsText, tt)) refl refl
