-- ===== src/Packages/Termination.antt =====
-- Absolute-Compiler/src/package_manager.cpp: `ResolveRecursive` ends, where the packages ask for a
-- finite number of names.
use absolute.Prelude.{
  ℕ, zero, suc, ◌≤◌, ◌<◌, ◌≡◌, ◌≢◌, refl, sym, ◌∙◌, Bool, true, false, inl, inr, List, [], ◌∷◌,
  Option, none, some, Result, ok, err, >>=-eq-err, ok_err, Bool-cases, length, arith,
}
use absolute.Packages.Versions.{VersionError, satisfies}
use absolute.Packages.Texts.{Text, StringMap, find, contains, find-assign_same}
use absolute.Packages.Manifests.{
  FileSystem, PackageError, cyclic, unsatisfied, conflict, out_of_fuel, PackageManifest,
  PackageLockfile, load_manifest, read_file_content, cannot_open,
}
use absolute.Packages.{
  Resolution, require, recorded, Visit, locate, record_or_compare, resolve_one, resolve_all,
  entered, left, resolve_recursive, resolve_dependencies, recorded_path, search_registries,
}
use absolute.Packages.Missing.{missing, missing-length, missing_mono, missing_strict, Extends-Keeps}
use absolute.Packages.Growing.{Sound, recorded-Extends}
use absolute.Packages.Backing.{resolve_one-Grown, resolve-Sound}

-- The names that dependencies ask for are in the list.
abbrev pub Known : List Text → StringMap → Type 0
Known names [] = Unit
Known names ((name, constraint) ∷ deps) = (contains name names ≡ true) × Known names deps

require-err :
    (e : PackageError) (t : Result VersionError Bool)
    → e ≢ out_of_fuel
    → require e t ≢ err out_of_fuel
require-err e (err failure) n h = cc
require-err e (ok true) n h = cc
require-err e (ok false) n h = n (err-injective h)
  where
    err-injective :
        {a b : PackageError} → ◌≡◌ {A = Result {0} PackageError Unit} (err a) (err b) → a ≡ b
    err-injective h = cc

module _ (files : FileSystem) where
  open files use {FilePath, path_of, string_of, read}

  locate-err :
      (registries : List FilePath) (name : Text) (lock : PackageLockfile)
      → locate files registries name lock ≢ err out_of_fuel
  unfolding locate
  locate-err registries name lock h =
      go (search_registries files name registries) (find name lock.resolved_paths) h
    where
      go :
          (p : Option FilePath) (q : Option Text)
          → elim p [ some x ↦ ok x | none ↦ recorded_path files name q ] ≢ err out_of_fuel
      go (some p) q h = cc
      go none none h = cc
      go none (some q) h = cc

  load-err : (path : FilePath) → load_manifest files path ≢ err out_of_fuel
  unfolding load_manifest read_file_content
  load-err path h = elim (>>=-eq-err (read_file_content files path) _ h) [
    | inl e ↦ go (read path) e
    | inr (document, _, e) ↦ ok_err e
  ]
    where
      go :
          (o : Option Text)
          → ◌≢◌ {A = Result PackageError Text}
              (elim o [ none ↦ err (cannot_open (string_of path)) | some document ↦ ok document ])
              (err out_of_fuel)
      go none e = cc
      go (some document) e = cc

  module _ (registries : List FilePath) (names : List Text)
      (known : (path : FilePath) (m : PackageManifest FilePath)
        → load_manifest files path ≡ ok m
        → Known names m.dependencies) where
    -- A visit that ends for packages that leave fewer names without a version.
    abbrev Total : ℕ → Visit files → Type 0
    Total bound visit =
        (m : PackageManifest FilePath) (st : Resolution)
        → Known names m.dependencies
        → missing names st.lockfile.resolved_versions < bound
        → visit m st ≢ err out_of_fuel

    module _ (bound : ℕ) (visit : Visit files) (sound : Sound files visit)
        (total : Total bound visit) where
      compare-Total :
          (requester name constraint : Text) (path : FilePath) (m : PackageManifest FilePath)
          (o : Option Text) (st : Resolution)
          → load_manifest files path ≡ ok m
          → contains name names ≡ true
          → missing names st.lockfile.resolved_versions ≤ bound
          → find name st.lockfile.resolved_versions ≡ o
          → record_or_compare files visit requester name constraint path m o st ≢ err out_of_fuel
      unfolding record_or_compare recorded
      compare-Total requester name constraint path m none st l there few e h =
          let lock = recorded name m.version (string_of path) st.lockfile in
          let more =
            missing_strict st.lockfile.resolved_versions lock.resolved_versions
              (Extends-Keeps st.lockfile lock
                (recorded-Extends name m.version (string_of path) st.lockfile e))
              name m.version names there e
              (find-assign_same name m.version st.lockfile.resolved_versions) in
          total m (record st { lockfile = lock }) (known path m l) (omega (arith, more, few)) h
      compare-Total requester name constraint path m (some existing) st l there few e h =
          let test = satisfies existing constraint in
          elim (>>=-eq-err (require (conflict name existing constraint requester) test) _ h) [
            | inl g ↦ require-err _ test (λ q. conflict_fuel q) g
            | inr (u, _, g) ↦ ok_err g
          ]
        where
          conflict_fuel : {a b c d : Text} → conflict a b c d ≢ out_of_fuel
          conflict_fuel q = cc

      resolve_one-Total :
          (requester name constraint : Text) (st : Resolution)
          → contains name names ≡ true
          → missing names st.lockfile.resolved_versions ≤ bound
          → resolve_one files visit registries requester name constraint st ≢ err out_of_fuel
      unfolding resolve_one
      resolve_one-Total requester name constraint st there few h =
          elim (>>=-eq-err (locate files registries name st.lockfile) _ h) [
            | inl g ↦ locate-err registries name st.lockfile g
            | inr (path, _, h1) ↦ elim (>>=-eq-err (load_manifest files path) _ h1) [
              | inl g ↦ load-err path g
              | inr (m, l, h2) ↦
                  let test = satisfies m.version constraint in
                  elim (>>=-eq-err (require (unsatisfied name m.version constraint requester) test)
                    _ h2) [
                      | inl g ↦ require-err _ test (λ q. unsatisfied_fuel q) g
                      | inr (u, _, h3) ↦
                          compare-Total requester name constraint path m
                            (find name st.lockfile.resolved_versions) st l there few refl h3
                    ]
            ]
          ]
        where
          unsatisfied_fuel : {a b c d : Text} → unsatisfied a b c d ≢ out_of_fuel
          unsatisfied_fuel q = cc

      resolve_all-Total :
          (requester : Text) (deps : StringMap) (st : Resolution)
          → Known names deps
          → missing names st.lockfile.resolved_versions ≤ bound
          → resolve_all files visit registries requester deps st ≢ err out_of_fuel
      unfolding resolve_all
      resolve_all-Total requester [] st k few h = cc
      resolve_all-Total requester ((name, constraint) ∷ deps) st (there, k) few h =
          elim (>>=-eq-err (resolve_one files visit registries requester name constraint st) _ h) [
            | inl g ↦ resolve_one-Total requester name constraint st there few g
            | inr (mid, one, h1) ↦
                let ((_, x, _), _) =
                  resolve_one-Grown files visit sound registries requester name constraint st mid
                    one in
                let fewer =
                  missing_mono st.lockfile.resolved_versions mid.lockfile.resolved_versions
                    (Extends-Keeps st.lockfile mid.lockfile x) names in
                resolve_all-Total requester deps mid k (omega (arith, fewer, few)) h1
          ]

    resolve-Total : (fuel : ℕ) → Total fuel (resolve_recursive files fuel registries)
    unfolding resolve_recursive
    resolve-Total zero m st k few h = absurd (omega (arith, few))
    resolve-Total (suc fuel) m st k few h = elim (Bool-cases (contains m.name st.active_stack)) [
      | inl there ↦ cyclic_fuel {a = m.name} (sym (rw (there, resolve_recursive) refl) ∙ h)
      | inr apart ↦
          let visit = resolve_recursive files fuel registries in
          let all =
            resolve_all files visit registries m.name m.dependencies (entered files m.name st) in
          elim (>>=-eq-err all (λ r. ok (left files m.name r))
            (sym (rw (apart, resolve_recursive) refl) ∙ h)) [
              | inl g ↦
                  resolve_all-Total fuel visit (resolve-Sound files fuel registries)
                    (resolve-Total fuel) m.name m.dependencies (entered files m.name st) k
                    (omega (arith, few)) g
              | inr (r, _, g) ↦ ok_err g
            ]
    ]
      where
        cyclic_fuel :
            {a : Text} → ◌≢◌ {A = Result PackageError Resolution} (err (cyclic a)) (err out_of_fuel)
        cyclic_fuel q = cc

    -- `ResolveDependencies` ends, whatever the packages ask for and whether they do so in a cycle:
    -- where the package and all that can be loaded ask for finitely many names, more fuel than there
    -- are names never runs out.
    pub resolve_dependencies-total :
        (fuel : ℕ) (m : PackageManifest FilePath) (existing : PackageLockfile)
        → Known names m.dependencies
        → length names < fuel
        → resolve_dependencies files fuel m registries existing ≢ err out_of_fuel
    unfolding resolve_dependencies
    resolve_dependencies-total fuel m existing k enough h =
        let st : Resolution = record { lockfile = existing; active_stack = [] } in
        elim (>>=-eq-err (resolve_recursive files fuel registries m st) _ h) [
          | inl g ↦
              resolve-Total fuel m st k
                (omega (arith, missing-length names existing.resolved_versions, enough)) g
          | inr (r, _, g) ↦ ok_err g
        ]
