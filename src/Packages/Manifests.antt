-- ===== src/Packages/Manifests.antt =====
-- Absolute-Compiler/src/package_manager.cpp: `LoadManifest`, `LoadLockfile` and the text that
-- `SaveLockfile` writes. Paths and files are those of `std::filesystem`, a parameter.
use absolute.Prelude.{
  Bool, List, [], ◌∷◌, ◌++◌, Option, none, some, map, Result, ok, err, ◌>>=◌, if◌then◌else◌,
}
use absolute.Packages.Texts.{Text, StringMap}
use absolute.Packages.Documents.{json_string, json_string_array, json_object_map}

-- `std::filesystem` and the files, which do not change meanwhile; `read` has none for a file that
-- cannot be opened.
pub record FileSystem : Type 1 where
  pub FilePath : Type 0
  pub path_of : Text → FilePath
  pub string_of : FilePath → Text
  pub join : FilePath → FilePath → FilePath
  pub absolute_path : FilePath → FilePath
  pub parent_path : FilePath → FilePath
  pub is_absolute : FilePath → Bool
  pub exists : FilePath → Bool
  pub read : FilePath → Option Text

-- The exceptions of the package manager, in the order of the file; `out_of_fuel` is none of them.
pub data PackageError : Type 0 where
  cannot_open : Text → PackageError
  cyclic : Text → PackageError
  not_found : Text → PackageError
  unsatisfied : Text → Text → Text → Text → PackageError
  conflict : Text → Text → Text → Text → PackageError
  bad_version : PackageError
  out_of_fuel : PackageError

pub record PackageTarget (FilePath : Type 0) : Type 0 where
  pub name : Text
  pub type_name : Text
  pub entry : FilePath
  pub source_directories : List FilePath

pub record PackageManifest (FilePath : Type 0) : Type 0 where
  pub root : FilePath
  pub name : Text
  pub version : Text
  pub target_type : Text
  pub entry : FilePath
  pub source_directories : List FilePath
  pub targets : List (PackageTarget FilePath)
  pub registries : List FilePath
  pub dependencies : StringMap

pub record PackageLockfile : Type 0 where
  pub resolved_versions : StringMap
  pub resolved_paths : StringMap

abbrev pub or_default : Text → Text → Text
or_default [] other = other
or_default (c ∷ cs) other = c ∷ cs

abbrev pub or_list {ℓ} : {A : Type ℓ} → List A → List A → List A
or_list [] other = other
or_list (x ∷ xs) other = x ∷ xs

-- The keys and the values of the source.
abbrev pub entry_key : Text
entry_key = b'e' ∷ b'n' ∷ b't' ∷ b'r' ∷ b'y' ∷ []

abbrev pub main_source : Text
main_source = b's' ∷ b'r' ∷ b'c' ∷ b'/' ∷ b'm' ∷ b'a' ∷ b'i' ∷ b'n' ∷ b'.' ∷ b'a' ∷ b'b' ∷ b's' ∷ []

abbrev pub sources_key : Text
sources_key = b's' ∷ b'o' ∷ b'u' ∷ b'r' ∷ b'c' ∷ b'e' ∷ b's' ∷ []

abbrev pub registries_key : Text
registries_key = b'r' ∷ b'e' ∷ b'g' ∷ b'i' ∷ b's' ∷ b't' ∷ b'r' ∷ b'i' ∷ b'e' ∷ b's' ∷ []

abbrev pub packages_folder : Text
packages_folder = b'p' ∷ b'a' ∷ b'c' ∷ b'k' ∷ b'a' ∷ b'g' ∷ b'e' ∷ b's' ∷ []

abbrev pub name_key : Text
name_key = b'n' ∷ b'a' ∷ b'm' ∷ b'e' ∷ []

abbrev pub version_key : Text
version_key = b'v' ∷ b'e' ∷ b'r' ∷ b's' ∷ b'i' ∷ b'o' ∷ b'n' ∷ []

abbrev pub first_version : Text
first_version = b'1' ∷ b'.' ∷ b'0' ∷ b'.' ∷ b'0' ∷ []

abbrev pub type_key : Text
type_key = b't' ∷ b'y' ∷ b'p' ∷ b'e' ∷ []

abbrev pub app_type : Text
app_type = b'a' ∷ b'p' ∷ b'p' ∷ []

abbrev pub dependencies_key : Text
dependencies_key =
    b'd' ∷ b'e' ∷ b'p' ∷ b'e' ∷ b'n' ∷ b'd' ∷ b'e' ∷ b'n' ∷ b'c' ∷ b'i' ∷ b'e' ∷ b's' ∷ []

abbrev pub versions_key : Text
versions_key = b'v' ∷ b'e' ∷ b'r' ∷ b's' ∷ b'i' ∷ b'o' ∷ b'n' ∷ b's' ∷ []

abbrev pub paths_key : Text
paths_key = b'p' ∷ b'a' ∷ b't' ∷ b'h' ∷ b's' ∷ []

module _ (files : FileSystem) where
  open files use {
    FilePath, path_of, string_of, join, absolute_path, parent_path, is_absolute, exists, read,
  }

  unfoldable pub read_file_content : FilePath → Result PackageError Text
  read_file_content path = elim (read path) [
    | none ↦ err (cannot_open (string_of path))
    | some document ↦ ok document
  ]

  abbrev pub beside : FilePath → Text → FilePath
  beside root text = join root (path_of text)

  -- `LoadManifest` behind the reading of the file.
  unfoldable pub manifest_of : FilePath → Text → PackageManifest FilePath
  unfolding json_string json_string_array json_object_map
  manifest_of root document =
      let entry = beside root (or_default (json_string document entry_key) main_source) in
      let sources = map (beside root) (json_string_array document sources_key) in
      let main = if exists (parent_path entry) then parent_path entry ∷ [] else [] in
      let place =
        λ (text : Text). if is_absolute (path_of text) then path_of text else beside root text in
      let registries = map place (json_string_array document registries_key) in
      record {
        root = root;
        name = json_string document name_key;
        version = or_default (json_string document version_key) first_version;
        target_type = or_default (json_string document type_key) app_type;
        entry = entry;
        source_directories = or_list sources main;
        targets = [];
        registries = or_list registries (beside root packages_folder ∷ []);
        dependencies = json_object_map document dependencies_key;
      }

  unfoldable pub load_manifest : FilePath → Result PackageError (PackageManifest FilePath)
  unfolding read_file_content manifest_of
  load_manifest path = do
    document ← read_file_content path
    ok (manifest_of (parent_path (absolute_path path)) document)

  abbrev pub no_lockfile : PackageLockfile
  no_lockfile = record { resolved_versions = []; resolved_paths = [] }

  abbrev pub lockfile_of : Text → PackageLockfile
  lockfile_of document = record {
    resolved_versions = json_object_map document versions_key;
    resolved_paths = json_object_map document paths_key;
  }

  unfoldable pub load_lockfile : FilePath → Result PackageError PackageLockfile
  unfolding read_file_content json_object_map
  load_lockfile path =
      let loaded = read_file_content path >>= (λ document. ok (lockfile_of document)) in
      if exists path then loaded else ok no_lockfile

-- `SaveLockfile`: the lines of a map, with a comma behind all but the last.
abbrev pub quote : Text → Text → Text
quote s rest = b'"' ∷ (s ++ b'"' ∷ rest)

abbrev pub entry_line : Text → Text → Text → Text
entry_line name val rest = b' ' ∷ b' ' ∷ b' ' ∷ b' ' ∷ quote name (b':' ∷ b' ' ∷ quote val rest)

unfoldable pub map_lines : StringMap → Text → Text
map_lines [] rest = rest
map_lines ((name, val) ∷ []) rest = entry_line name val (b'\n' ∷ rest)
map_lines ((name, val) ∷ next ∷ m) rest =
    entry_line name val (b',' ∷ b'\n' ∷ map_lines (next ∷ m) rest)

abbrev pub section_text : Text → StringMap → Text → Text
section_text key m rest =
    b' ' ∷ b' ' ∷ quote key (b':' ∷ b' ' ∷ b'{' ∷ b'\n' ∷ map_lines m (b' ' ∷ b' ' ∷ b'}' ∷ rest))

unfoldable pub lockfile_text : PackageLockfile → Text
unfolding map_lines
lockfile_text lock =
    b'{'
    ∷ b'\n'
    ∷ section_text versions_key lock.resolved_versions
        (b',' ∷ b'\n' ∷ section_text paths_key lock.resolved_paths (b'\n' ∷ b'}' ∷ b'\n' ∷ []))
