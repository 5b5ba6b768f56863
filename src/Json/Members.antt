-- ===== src/Json/Members.antt =====
-- The members of an object in Absolute-Runtime/src/json.cpp, a `std::map` from keys to nodes.
use absolute.Prelude.{ℕ, ◌≡◌, refl, ap, true, false, List, [], ◌∷◌, arith}
use absolute.Json.Numbers.{Floats}
use absolute.Json.Tree.{Value, Fields, end, field, key_less, insert}
use absolute.Json.Readable.{Above}

pub key_less-asym : (j k : List ℕ) → key_less j k ≡ true → key_less k j ≡ false
unfolding key_less
key_less-asym [] [] h = refl
key_less-asym [] (d ∷ ds) h = refl
key_less-asym (c ∷ cs) [] h = cc
key_less-asym (c ∷ cs) (d ∷ ds) h = ground (arith, key_less-asym cs ds)

module _ (floats : Floats) where
  open floats use {Double}

  -- Members with others behind them.
  abbrev pub extend : Fields Double → Fields Double → Fields Double
  extend end fs = fs
  extend (field j w gs) fs = field j w (extend gs fs)

  -- Every key of the first is less than every key of the second.
  abbrev pub Below : Fields Double → Fields Double → Type 0
  Below end fs = Unit {0}
  Below (field j w gs) fs = Above floats j fs × Below gs fs

  pub insert-Below :
      (k : List ℕ) (v : Value Double) (fs gs : Fields Double)
      → Below gs (field k v fs)
      → insert k v gs ≡ extend gs (field k v end)
  unfolding insert
  insert-Below k v fs end h = refl
  insert-Below k v fs (field j w gs) ((less, h), below) =
      rw (key_less-asym j k less, less, insert-Below k v fs gs below) refl

  pub extend_one :
      (gs : Fields Double) (k : List ℕ) (v : Value Double) (fs : Fields Double)
      → extend (extend gs (field k v end)) fs ≡ extend gs (field k v fs)
  extend_one end k v fs = refl
  extend_one (field j w gs) k v fs = ap (field j w) (extend_one gs k v fs)

  pub Below-extend :
      (gs : Fields Double) (k : List ℕ) (v : Value Double) (fs : Fields Double)
      → Below gs (field k v fs)
      → Above floats k fs
      → Below (extend gs (field k v end)) fs
  Below-extend end k v fs h a = (a, tt)
  Below-extend (field j w gs) k v fs ((less, h), below) a = (h, Below-extend gs k v fs below a)
