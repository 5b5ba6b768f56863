-- ===== src/Packages.antt =====
-- Absolute-Compiler/src/package_manager.cpp: `ResolveRecursive` and `ResolveDependencies`. The recursion
-- is on fuel, one unit for each package; Packages/Termination shows how much is enough.
pub mod Versions
pub mod Order
pub mod VersionText
pub mod Texts
pub mod Documents
pub mod Manifests
pub mod LockText
pub mod LockMaps
pub mod LockSections
pub mod LockRoundTrip
pub mod Sorted
pub mod Saving
pub mod Growing
pub mod Backing
pub mod Missing
pub mod Termination
mod Examples
use absolute.Prelude.{
  ℕ, zero, suc, Bool, true, false, ◌∷◌, List, [], ◌++◌, Option, none, some, Result, ok, err, ◌>>=◌,
  if◌then◌else◌,
}
use absolute.Packages.Versions.{VersionError, satisfies}
use absolute.Packages.Texts.{Text, StringMap, find, assign, contains, erase}
use absolute.Packages.Manifests.{
  FileSystem, PackageError, cyclic, not_found, unsatisfied, conflict, bad_version, out_of_fuel,
  PackageManifest, PackageLockfile, load_manifest,
}

-- What `ResolveRecursive` changes: the lockfile and the names of the packages it is at.
pub record Resolution : Type 0 where
  pub lockfile : PackageLockfile
  pub active_stack : List Text

-- The exception unless the test holds; `stoi` of the test may throw another.
abbrev pub require : PackageError → Result VersionError Bool → Result {0} PackageError Unit
require e (err failure) = err bad_version
require e (ok true) = ok tt
require e (ok false) = err e

-- `resolvedVersions[name] = version; resolvedPaths[name] = path`
unfoldable pub recorded : Text → Text → Text → PackageLockfile → PackageLockfile
unfolding assign
recorded name version path lock = record {
  resolved_versions = assign name version lock.resolved_versions;
  resolved_paths = assign name path lock.resolved_paths;
}

-- "package.abs", "abspackage.json" and ".absproj".
abbrev pub package_abs : Text
package_abs = b'p' ∷ b'a' ∷ b'c' ∷ b'k' ∷ b'a' ∷ b'g' ∷ b'e' ∷ b'.' ∷ b'a' ∷ b'b' ∷ b's' ∷ []

abbrev pub abspackage_json : Text
abspackage_json =
    b'a' ∷ b'b' ∷ b's' ∷ b'p' ∷ b'a' ∷ b'c' ∷ b'k' ∷ b'a' ∷ b'g' ∷ b'e' ∷ b'.' ∷ b'j' ∷ b's' ∷ b'o'
    ∷ b'n' ∷ []

abbrev pub absproj_suffix : Text
absproj_suffix = b'.' ∷ b'a' ∷ b'b' ∷ b's' ∷ b'p' ∷ b'r' ∷ b'o' ∷ b'j' ∷ []

module _ (files : FileSystem) where
  open files use {FilePath, path_of, string_of, join, exists}

  -- The files a package of that name may have in a registry, in the order they are tried in.
  abbrev pub candidates : Text → FilePath → List FilePath
  candidates name registry =
      let folder = join registry (path_of name) in
      join folder (path_of package_abs)
      ∷ join folder (path_of abspackage_json)
      ∷ join folder (path_of (name ++ absproj_suffix))
      ∷ []

  unfoldable pub first_existing : List FilePath → Option FilePath
  first_existing [] = none
  first_existing (p ∷ ps) = elim (exists p) [ true ↦ some p | false ↦ first_existing ps ]

  unfoldable pub search_registries : Text → List FilePath → Option FilePath
  unfolding first_existing
  search_registries name [] = none
  search_registries name (r ∷ rs) = elim (first_existing (candidates name r)) [
    | some p ↦ some p
    | none ↦ search_registries name rs
  ]

  abbrev pub recorded_path : Text → Option Text → Result PackageError FilePath
  recorded_path name none = err (not_found name)
  recorded_path name (some path) = ok (path_of path)

  abbrev pub or_recorded : Text → StringMap → Option FilePath → Result PackageError FilePath
  or_recorded name paths (some p) = ok p
  or_recorded name paths none = recorded_path name (find name paths)

  -- The path of a dependency.
  unfoldable pub locate : List FilePath → Text → PackageLockfile → Result PackageError FilePath
  unfolding search_registries find
  locate registries name lock =
      or_recorded name lock.resolved_paths (search_registries name registries)

  -- Where `ResolveRecursive` calls itself, with the manifest of a dependency.
  abbrev pub Visit : Type 0
  Visit = PackageManifest FilePath → Resolution → Result PackageError Resolution

  -- The two branches behind the test of the version that was loaded.
  unfoldable pub record_or_compare :
      Visit
      → Text
      → Text
      → Text
      → FilePath
      → PackageManifest FilePath
      → Option Text
      → Resolution
      → Result PackageError Resolution
  unfolding satisfies recorded
  record_or_compare visit requester name constraint path m (some existing) st = do
    _ ← require (conflict name existing constraint requester) (satisfies existing constraint)
    ok st
  record_or_compare visit requester name constraint path m none st =
      visit m (record st { lockfile = recorded name m.version (string_of path) st.lockfile })

  -- A round of the loop over the dependencies.
  unfoldable pub resolve_one :
      Visit → List FilePath → Text → Text → Text → Resolution → Result PackageError Resolution
  unfolding locate load_manifest satisfies find record_or_compare
  resolve_one visit registries requester name constraint st = do
    path ← locate registries name st.lockfile
    m ← load_manifest files path
    _ ← require (unsatisfied name m.version constraint requester) (satisfies m.version constraint)
    record_or_compare visit requester name constraint path m
        (find name st.lockfile.resolved_versions) st

  unfoldable pub resolve_all :
      Visit → List FilePath → Text → StringMap → Resolution → Result PackageError Resolution
  unfolding resolve_one
  resolve_all visit registries requester [] st = ok st
  resolve_all visit registries requester ((name, constraint) ∷ deps) st = do
    next ← resolve_one visit registries requester name constraint st
    resolve_all visit registries requester deps next

  abbrev pub entered : Text → Resolution → Resolution
  entered name st = record st { active_stack = name ∷ st.active_stack }

  unfoldable pub left : Text → Resolution → Resolution
  unfolding erase
  left name st = record st { active_stack = erase name st.active_stack }

  -- `ResolveRecursive`
  unfoldable pub resolve_recursive : ℕ → List FilePath → Visit
  unfolding resolve_all contains left
  resolve_recursive zero registries m st = err out_of_fuel
  resolve_recursive (suc fuel) registries m st = elim (contains m.name st.active_stack) [
    | true ↦ err (cyclic m.name)
    | false ↦ do
      next ←
          resolve_all (resolve_recursive fuel registries) registries m.name m.dependencies
            (entered m.name st)
      ok (left m.name next)
  ]

  -- `ResolveDependencies`
  unfoldable pub resolve_dependencies :
      ℕ
      → PackageManifest FilePath
      → List FilePath
      → PackageLockfile
      → Result PackageError PackageLockfile
  unfolding resolve_recursive
  resolve_dependencies fuel m registries existing = do
    st ← resolve_recursive fuel registries m (record { lockfile = existing; active_stack = [] })
    ok st.lockfile
