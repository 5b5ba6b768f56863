-- ===== src/Json/Tree.antt =====
-- Absolute-Runtime/src/json.cpp: the nodes. A tree of nodes is a value, since a node has one
-- parent; what the source frees is dropped. The members of an object are in the order of
-- `std::map`, by their keys.
use absolute.Prelude.{ℕ, Bool, true, false, List, [], ◌∷◌, ltb, ◌==◌, if◌then◌else◌}

mutual
  pub data Value (D : Type 0) : Type 0 where
    null : Value D
    bool : Bool → Value D
    number : D → Value D
    string : List ℕ → Value D
    array : Values D → Value D
    object : Fields D → Value D

  pub data Values (D : Type 0) : Type 0 where
    nil : Values D
    cons : Value D → Values D → Values D

  pub data Fields (D : Type 0) : Type 0 where
    end : Fields D
    field : List ℕ → Value D → Fields D → Fields D

-- The order of `std::string`: by the bytes, a prefix first.
unfoldable pub key_less : List ℕ → List ℕ → Bool
key_less [] [] = false
key_less [] (d ∷ ds) = true
key_less (c ∷ cs) [] = false
key_less (c ∷ cs) (d ∷ ds) = if ltb c d then true else if c == d then key_less cs ds else false

-- `objectProperties[key] = value`
unfoldable pub insert : {D : Type 0} → List ℕ → Value D → Fields D → Fields D
unfolding key_less
insert k v end = field k v end
insert k v (field j w fs) =
    let later = insert k v fs in
    if key_less k j
    then field k v (field j w fs)
    else if key_less j k
    then field j w later
    else field j v fs
