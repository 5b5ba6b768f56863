-- ===== src/Packages/LockMaps.antt =====
-- Absolute-Compiler/src/package_manager.cpp: the maps of a lockfile, put together again from their
-- entries.
use absolute.Prelude.{◌≡◌, refl, sym, ap, ◌∙◌, true, [], ◌∷◌, ◌++◌}
use mathlib.Core.List.{append_assoc, append-nil}
use absolute.Prelude.Texts.{Text}
use absolute.Json.Tree.{key_less}
use absolute.Json.Members.{key_less-asym}
use absolute.Packages.Texts.{StringMap, assign}
use absolute.Packages.Documents.{assign_all}

-- The keys of a map are in order.
abbrev pub Above : Text → StringMap → Type 0
Above k [] = Unit
Above k ((j, v) ∷ m) = (key_less k j ≡ true) × Above k m

abbrev pub IsSorted : StringMap → Type 0
IsSorted [] = Unit
IsSorted ((k, v) ∷ m) = Above k m × IsSorted m

abbrev EachAbove : StringMap → StringMap → Type 0
EachAbove [] m = Unit
EachAbove ((j, w) ∷ read) m = Above j m × EachAbove read m

abbrev Below : StringMap → Text → Type 0
Below [] k = Unit
Below ((j, w) ∷ read) k = (key_less j k ≡ true) × Below read k

assign-last : (k v : Text) (read : StringMap) → Below read k → assign k v read ≡ read ++ (k, v) ∷ []
unfolding assign
assign-last k v [] h = refl
assign-last k v ((j, w) ∷ read) (less, h) =
    rw (key_less-asym j k less, less, assign) (ap (◌∷◌ (j, w)) (assign-last k v read h))

EachAbove-Below :
    (read : StringMap) (k v : Text) (m : StringMap) → EachAbove read ((k, v) ∷ m) → Below read k
EachAbove-Below [] k v m h = tt
EachAbove-Below ((j, w) ∷ read) k v m ((less, _), h) = (less, EachAbove-Below read k v m h)

EachAbove-append :
    (read : StringMap) (k v : Text) (m : StringMap)
    → EachAbove read ((k, v) ∷ m)
    → Above k m
    → EachAbove (read ++ (k, v) ∷ []) m
EachAbove-append [] k v m h a = (a, tt)
EachAbove-append ((j, w) ∷ read) k v m ((_, above), h) a = (above, EachAbove-append read k v m h a)

assign_all-append :
    (m read : StringMap) → EachAbove read m → IsSorted m → assign_all m read ≡ read ++ m
assign_all-append [] read e s = sym (append-nil read)
assign_all-append ((k, v) ∷ m) read e (a, s) =
    rw (assign-last k v read (EachAbove-Below read k v m e)) (
      assign_all-append m (read ++ (k, v) ∷ []) (EachAbove-append read k v m e a) s
      ∙ append_assoc read ((k, v) ∷ []) m)

pub assign_all-sorted : (m : StringMap) → IsSorted m → assign_all m [] ≡ m
assign_all-sorted m s = assign_all-append m [] tt s
