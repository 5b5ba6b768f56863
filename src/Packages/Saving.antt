-- ===== src/Packages/Saving.antt =====
-- Absolute-Compiler/src/package_manager.cpp: a lockfile from one run of the package manager to the next.
use absolute.Prelude.{
  ℕ, ◌≡◌, refl, sym, ◌∙◌, true, inl, inr, List, [], ◌∷◌, some, Result, ok, >>=-eq-ok, ok-injective,
  Bool-cases, length,
}
use mathlib.Core.Path.{subst}
use absolute.Prelude.Texts.{Text}
use absolute.Packages.Texts.{StringMap, assign}
use absolute.Packages.Documents.{
  assign_all, json_object_map, captured, search, block_at, matches, pair_at,
}
use absolute.Packages.Manifests.{
  FileSystem, PackageManifest, PackageLockfile, load_lockfile, lockfile_text, no_lockfile,
  PackageError, lockfile_of, versions_key, paths_key, read_file_content,
}
use absolute.Packages.{Resolution, recorded, resolve_recursive, resolve_dependencies}
use absolute.Packages.LockMaps.{IsSorted}
use absolute.Packages.LockSections.{AllTexts}
use absolute.Packages.LockRoundTrip.{load_lockfile-lockfile_text}
use absolute.Packages.Sorted.{assign-IsSorted, resolve-keeps}

abbrev InOrder : PackageLockfile → Type 0
InOrder lock = IsSorted lock.resolved_versions × IsSorted lock.resolved_paths

assign_all-IsSorted : (pairs m : StringMap) → IsSorted m → IsSorted (assign_all pairs m)
assign_all-IsSorted [] m s = s
assign_all-IsSorted ((k, v) ∷ pairs) m s =
    assign_all-IsSorted pairs (assign k v m) (assign-IsSorted k v m s)

json_object_map-IsSorted : (document key : Text) → IsSorted (json_object_map document key)
unfolding json_object_map
json_object_map-IsSorted document key =
    let block = captured (search (block_at b'{' b'}' key) document) in
    assign_all-IsSorted (matches pair_at (length block) block) [] tt

load_lockfile-InOrder :
    (files : FileSystem) (path : files.FilePath) (lock : PackageLockfile)
    → load_lockfile files path ≡ ok lock
    → InOrder lock
unfolding load_lockfile
load_lockfile-InOrder files path lock h = elim (Bool-cases (files.exists path)) [
  | inr no_file ↦
      let none_there : ◌≡◌ {A = Result PackageError PackageLockfile} (ok (no_lockfile files))
          (ok lock) =
        sym (rw (no_file, load_lockfile) refl) ∙ h in
      subst InOrder (ok-injective none_there) (tt, tt)
  | inl there ↦
      let (document, _, e) =
        >>=-eq-ok (read_file_content files path) (λ document. ok (lockfile_of files document))
          (sym (rw (there, load_lockfile) refl) ∙ h) in
      subst InOrder (ok-injective e) (
        json_object_map-IsSorted document versions_key,
        json_object_map-IsSorted document paths_key,
      )
]

recorded-InOrder :
    (name version path : Text) (lock : PackageLockfile)
    → InOrder lock
    → InOrder (recorded name version path lock)
unfolding recorded
recorded-InOrder name version path lock (s, r) = (
  assign-IsSorted name version lock.resolved_versions s,
  assign-IsSorted name path lock.resolved_paths r,
)

-- What `ResolveDependencies` makes of a lockfile that was loaded, from whatever file or where there is
-- none, is what the next run loads where `SaveLockfile` has written it to a file, if no name,
-- version or path of it is empty or has a quote or a closing brace.
pub load_lockfile-resolve_dependencies :
    (files later : FileSystem) (first : files.FilePath) (last : later.FilePath) (fuel : ℕ)
    (m : PackageManifest files.FilePath) (registries : List files.FilePath)
    (existing lock : PackageLockfile)
    → load_lockfile files first ≡ ok existing
    → resolve_dependencies files fuel m registries existing ≡ ok lock
    → AllTexts lock.resolved_versions
    → AllTexts lock.resolved_paths
    → later.exists last ≡ true
    → later.read last ≡ some (lockfile_text lock)
    → load_lockfile later last ≡ ok lock
unfolding resolve_dependencies
load_lockfile-resolve_dependencies files later first last fuel m registries existing lock h r v p
      there text =
    let st : Resolution = record { lockfile = existing; active_stack = [] } in
    let (next, h1, h2) = >>=-eq-ok (resolve_recursive files fuel registries m st) _ r in
    let ordered =
      resolve-keeps files InOrder recorded-InOrder fuel registries m st next
        (load_lockfile-InOrder files first existing h) h1 in
    let (s, t) = subst InOrder (ok-injective h2) ordered in
    load_lockfile-lockfile_text later last lock there text v p s t
