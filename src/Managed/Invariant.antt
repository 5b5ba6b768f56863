-- ===== src/Managed/Invariant.antt =====
-- The invariant of the slot table in Managed, and that every operation keeps it.
use absolute.Prelude.{
  ℕ, ◌+◌, ◌*◌, ◌/◌, ◌≤◌, ◌<◌, ◌≡◌, refl, ◌≢◌, ◌⊎◌, Bool, true, List, [], ◌∷◌, ok, arith, >>=-eq-ok,
}
use absolute.Managed.Slots.{Slot, Table, initial, slots_per_chunk, max_chunks, word, update}
use absolute.Managed.{publish, grow, register_in, register, next_generation}

abbrev pub In : ℕ → List ℕ → Type 0
In x [] = ⊥
In x (y ∷ ys) = (x ≡ y) ⊎ In x ys

abbrev pub NotIn : ℕ → List ℕ → Type 0
NotIn x [] = Unit {0}
NotIn x (y ∷ ys) = (x ≢ y) × NotIn x ys

abbrev pub Distinct : List ℕ → Type 0
Distinct [] = Unit {0}
Distinct (x ∷ xs) = NotIn x xs × Distinct xs

-- Every slot of the list is a slot of the table with no object.
abbrev pub Free : ℕ → (ℕ → Slot) → List ℕ → Type 0
Free count cells [] = Unit {0}
Free count cells (id ∷ ids) = (id < count) × ((cells id).pointer ≡ 0) × Free count cells ids

abbrev pub IsGeneration : ℕ → Type 0
IsGeneration g = (0 < g) × (g < word)

-- Every slot below `count` is backed by a chunk, has a generation that is not 0, and either
-- holds an object or stands on the free list, once.
pub record Inv (t : Table) : Type 0 where
  pub bounded : t.count ≤ slots_per_chunk * max_chunks
  pub backed : (id : ℕ) → id < t.count → t.allocated (id / slots_per_chunk) ≡ true
  pub generations : (id : ℕ) → IsGeneration (t.cells id).generation
  pub unused : Free t.count t.cells t.free
  pub distinct : Distinct t.free
  pub occupied : (id : ℕ) → id < t.count → In id t.free ⊎ ((t.cells id).pointer ≢ 0)

pub initial-Inv : Inv initial
initial-Inv = record {
  bounded = omega arith;
  backed = λ id h. absurd (omega arith);
  generations = λ id. omega arith;
  unused = tt;
  distinct = tt;
  occupied = λ id h. absurd (omega arith);
}

pub live-NotIn :
    (count : ℕ) (cells : ℕ → Slot) (id : ℕ) (ids : List ℕ)
    → (cells id).pointer ≢ 0
    → Free count cells ids
    → NotIn id ids
live-NotIn count cells id [] h f = tt
live-NotIn count cells id (j ∷ ids) h f = (λ e. h (rw e (f.1)), live-NotIn count cells id ids h f.2)

pub Free-update-NotIn :
    (count : ℕ) (cells : ℕ → Slot) (id : ℕ) (s : Slot) (ids : List ℕ)
    → NotIn id ids
    → Free count cells ids
    → Free count (update cells id s) ids
Free-update-NotIn count cells id s [] n f = tt
Free-update-NotIn count cells id s (j ∷ ids) n f =
    (f.0, ground arith, Free-update-NotIn count cells id s ids n.1 f.2)

pub Free-update_same :
    (count : ℕ) (cells : ℕ → Slot) (id : ℕ) (s : Slot) (ids : List ℕ)
    → s.pointer ≡ (cells id).pointer
    → Free count cells ids
    → Free count (update cells id s) ids
Free-update_same count cells id s [] e f = tt
Free-update_same count cells id s (j ∷ ids) e f =
    (f.0, ground arith, Free-update_same count cells id s ids e f.2)

Free-more :
    (count : ℕ) (cells : ℕ → Slot) (ids : List ℕ)
    → Free count cells ids
    → Free (count + 1) cells ids
Free-more count cells [] f = tt
Free-more count cells (j ∷ ids) f = (omega arith, f.1, Free-more count cells ids f.2)

pub generation-update :
    (cells : ℕ → Slot) (id : ℕ) (s : Slot)
    → ((j : ℕ) → IsGeneration (cells j).generation)
    → IsGeneration s.generation
    → (j : ℕ) → IsGeneration (update cells id s j).generation
generation-update cells id s all h j = ground (arith, all j)

-- Where a slot keeps its object, or its lack of one, only the generation has to be checked.
pub update_same-Inv :
    (t : Table) (id : ℕ) (s : Slot)
    → s.pointer ≡ (t.cells id).pointer
    → IsGeneration s.generation
    → Inv t
    → Inv (record t { cells = update t.cells id s })
update_same-Inv t id s e g v = record {
  bounded = v.bounded;
  backed = v.backed;
  generations = generation-update t.cells id s v.generations g;
  unused = Free-update_same t.count t.cells id s t.free e v.unused;
  distinct = v.distinct;
  occupied = λ j h. ground (arith, v.occupied j h);
}

pub next_generation-IsGeneration : (g : ℕ) → IsGeneration (next_generation g)
unfolding next_generation
next_generation-IsGeneration g = ground arith

-- A slot taken from the free list gets an object.
reuse-Inv :
    (t : Table) (id : ℕ) (rest : List ℕ) (allocation deleter : ℕ)
    → t.free ≡ id ∷ rest
    → allocation ≢ 0
    → Inv t
    → Inv (publish (record t { free = rest }) id allocation deleter).1
unfolding publish
reuse-Inv t id rest allocation deleter e a v = record {
  bounded = v.bounded;
  backed = v.backed;
  generations = generation-update t.cells id _ v.generations (v.generations id);
  unused = Free-update-NotIn t.count t.cells id _ rest (rw e at v.distinct).0 (rw e at v.unused).2;
  distinct = (rw e at v.distinct).1;
  occupied = λ j h. ground (arith, rw e at (v.occupied j h));
}

-- What `grow` gives where it succeeds: one slot more, backed, the slots below it with their
-- objects, and nothing else.
pub record Grown (t g : Table) : Type 0 where
  pub room : t.count < slots_per_chunk * max_chunks
  pub counted : g.count ≡ t.count + 1
  pub same_free : g.free ≡ t.free
  pub backed : (id : ℕ) → id < t.count + 1 → g.allocated (id / slots_per_chunk) ≡ true
  pub generations : (id : ℕ) → IsGeneration (g.cells id).generation
  pub kept : (id : ℕ) → id < t.count → g.cells id ≡ t.cells id

pub grow-Grown : (t : Table) (memory : Bool) {g : Table} → Inv t → grow t memory ≡ ok g → Grown t g
unfolding grow
grow-Grown t memory v e = record {
  room = ground arith;
  counted = ground arith;
  same_free = ground arith;
  backed = λ id h. ground (arith, v.backed id);
  generations = λ id. ground (arith, v.generations id);
  kept = λ id h. ground (arith, v.backed id);
}

extend-Inv :
    (t g : Table) (allocation deleter : ℕ)
    → t.free ≡ []
    → allocation ≢ 0
    → Inv t
    → Grown t g
    → Inv (publish g t.count allocation deleter).1
unfolding publish
extend-Inv t g allocation deleter e a v w = record {
  bounded = omega (arith, w.room, w.counted);
  backed = λ id h. w.backed id (rw w.counted at h);
  generations = generation-update g.cells t.count _ w.generations (w.generations t.count);
  unused = rw (w.same_free, e) tt;
  distinct = rw (w.same_free, e) tt;
  occupied = λ j h. ground (arith, rw e at (v.occupied j), w.kept j, w.counted);
}

register_in-Inv :
    (t : Table) (free : List ℕ) (memory : Bool) (allocation deleter : ℕ) {r : ℕ × Table}
    → t.free ≡ free
    → allocation ≢ 0
    → Inv t
    → register_in free t memory allocation deleter ≡ ok r
    → Inv r.1
unfolding register_in
register_in-Inv t (id ∷ rest) memory allocation deleter e a v h =
    ground (arith, reuse-Inv t id rest allocation deleter e a v)
register_in-Inv t [] memory allocation deleter e a v h =
    let (g, grown, made) = >>=-eq-ok (grow t memory) _ h in
    ground (arith, extend-Inv t g allocation deleter e a v (grow-Grown t memory v grown))

pub registered-Inv :
    (t : Table) (memory : Bool) (allocation deleter : ℕ) {r : ℕ × Table}
    → allocation ≢ 0
    → Inv t
    → register t memory allocation deleter ≡ ok r
    → Inv r.1
unfolding register
registered-Inv t memory allocation deleter = register_in-Inv t t.free memory allocation deleter refl
