-- ===== src/Managed/Refinement.antt =====
-- The slot table of Managed seen as a map from handles to objects, which is what a program with
-- managed pointers relies on: `get t` is that map, and 0 stands for no object.
use absolute.Prelude.{
  ℕ, ◌^◌, ◌<◌, ◌≡◌, sym, ap, ◌∙◌, ◌≢◌, ◌⊎◌, inl, inr, none, some, ok, arith, ==_iff, ◌&&◌,
  Option-cases, Bool-cases, ◌==◌, leb, if◌then◌else◌,
}
use absolute.Managed.Slots.{
  Slot, Table, make_handle, update, handle_id, handle_generation, find, word,
}
use absolute.Managed.Invariant.{IsGeneration, next_generation-IsGeneration, Inv}
use absolute.Managed.Operations.{Found, find-Found, destroy-Inv, transfer-Transferred, transfer-Inv}
use absolute.Managed.{publish, next_generation, destroy_slot, destroy, transfer, get}

-- A handle is a 64-bit word.
abbrev pub IsHandle : ℕ → Type 0
IsHandle handle = handle < 2 ^ 64

pub handle_id-make_handle : (id g : ℕ) → id < word → handle_id (make_handle id g) ≡ id
unfolding handle_id make_handle
handle_id-make_handle id g h = omega arith

pub handle_generation-make_handle :
    (id g : ℕ) → id < word → g < word → handle_generation (make_handle id g) ≡ g
unfolding handle_generation make_handle
handle_generation-make_handle id g h k = omega arith

pub handle_ext :
    (h k : ℕ)
    → IsHandle h
    → IsHandle k
    → handle_id h ≡ handle_id k
    → handle_generation h ≡ handle_generation k
    → h ≡ k
unfolding handle_id handle_generation
handle_ext h k a b c d = omega arith

-- The object of a slot at a generation.
abbrev pub look : Table → ℕ → ℕ → ℕ
look t id g =
    if leb t.count id then 0 else if (t.cells id).generation == g then (t.cells id).pointer else 0

pub get-look : (t : Table) (k : ℕ) → Inv t → get t k ≡ look t (handle_id k) (handle_generation k)
unfolding get
get-look t k v = ground (arith, v.backed (handle_id k), v.bounded, v.generations 0)

pub find-none-get : (t : Table) (h : ℕ) → find t h ≡ none → get t h ≡ 0
unfolding find get
find-none-get t h e = ground arith

-- Two handles agree in both halves or in neither.
pub same_handle :
    (h k : ℕ)
    → IsHandle h
    → IsHandle k
    → (h == k) ≡ (handle_id h == handle_id k && handle_generation h == handle_generation k)
same_handle h k a b =
    ground (
      arith,
      handle_ext h k a b,
      ap handle_id {x = h} {y = k},
      ap handle_generation {x = h} {y = k},
    )

look-destroy_slot :
    (t : Table) (id j g : ℕ)
    → look (destroy_slot t id (t.cells id)) j g
      ≡ (if id == j && (t.cells id).generation == g then 0 else look t j g)
unfolding destroy_slot
look-destroy_slot t id j g = elim (Bool-cases (id == j)) [
  | inl same ↦ let e : id ≡ j = (==_iff id j).0 same in rw (← e) (ground arith)
  | inr other ↦ ground arith
]

-- Destroying takes the handle out of the map and leaves every other handle alone.
pub get-destroy :
    (t : Table) (h k : ℕ)
    → Inv t
    → IsHandle h
    → IsHandle k
    → get (destroy t h) k ≡ (if h == k then 0 else get t k)
unfolding destroy
get-destroy t h k v a b = elim (Option-cases (find t h)) [
  | inl e ↦ rw (e, destroy) (ground (arith, find-none-get t h e))
  | inr (s, e) ↦
      rw (e, destroy)
        (let f = find-Found t h s e in
          let w = rw (e, destroy) at (destroy-Inv t h v) in
          rw (get-look _ k w, get-look t k v, same_handle h k a b, ← f.current, ← f.is_slot)
            (look-destroy_slot t (handle_id h) (handle_id k) (handle_generation k)))
]

look-transfer_slot :
    (t : Table) (id j g : ℕ)
    → Inv t
    → let next = next_generation (t.cells id).generation in
      let u = record t { cells = update t.cells id (record (t.cells id) { generation = next }) } in
      look u j g ≡ (
        if id == j && next == g
        then look t id (t.cells id).generation
        else if id == j && (t.cells id).generation == g
        then 0
        else look t j g)
unfolding next_generation
look-transfer_slot t id j g v = elim (Bool-cases (id == j)) [
  | inl same ↦ let e : id ≡ j = (==_iff id j).0 same in rw (← e) (ground (arith, v.generations id))
  | inr other ↦ ground arith
]

pub find-some-get : (t : Table) (h : ℕ) (s : Slot) → find t h ≡ some s → get t h ≡ s.pointer
unfolding find get
find-some-get t h s e = ground arith

next_generation-ne : (g : ℕ) → IsGeneration g → next_generation g ≢ g
unfolding next_generation
next_generation-ne g h = ground arith

pub handle_id-lt : (h : ℕ) → handle_id h < word
unfolding handle_id
handle_id-lt h = omega arith

pub make_handle-IsHandle : (id g : ℕ) → id < word → g < word → IsHandle (make_handle id g)
unfolding make_handle
make_handle-IsHandle id g a b = omega arith

get_moved :
    (t : Table) (h k : ℕ) (s : Slot)
    → Inv t
    → IsHandle h
    → IsHandle k
    → Found t h s
    → get t h ≡ s.pointer
    → let new = make_handle (handle_id h) (next_generation s.generation) in
      let u = record t {
        cells =
            update t.cells (handle_id h) (record s { generation = next_generation s.generation });
      } in
      Inv u → get u k ≡ (if new == k then get t h else if h == k then 0 else get t k)
get_moved t h k s v a b f live w =
    let small = handle_id-lt h in
    let g = next_generation-IsGeneration s.generation in
    let new = make_handle (handle_id h) (next_generation s.generation) in
    rw
      (
        get-look _ k w,
        get-look t k v,
        get-look t h v,
        same_handle h k a b,
        same_handle new k (make_handle-IsHandle (handle_id h) _ small g.1) b,
        handle_id-make_handle (handle_id h) (next_generation s.generation) small,
        handle_generation-make_handle (handle_id h) _ small g.1,
        ← f.current,
        ← f.is_slot,
      )
      (look-transfer_slot t (handle_id h) (handle_id k) (handle_generation k) v)

-- A transfer that succeeds returns a new handle for the object of the old one. The old handle
-- has no object any more, and every other handle is left alone.
pub get-transfer :
    (t : Table) (h k : ℕ) {r : ℕ × Table}
    → Inv t
    → IsHandle h
    → IsHandle k
    → transfer t h ≡ ok r
    → (r.0 ≢ h)
      × (get t h ≢ 0)
      × (get r.1 k ≡ (if r.0 == k then get t h else if h == k then 0 else get t k))
get-transfer t h k {r} v a b e =
    let (s, w) = transfer-Transferred t h e in
    let f = find-Found t h s w.found in
    let live = find-some-get t h s w.found in
    let g = next_generation-IsGeneration s.generation in
    let small = handle_id-lt h in
    let next =
      handle_generation-make_handle (handle_id h) (next_generation s.generation) small g.1 in
    (
      λ same.
          next_generation-ne s.generation (rw f.is_slot at (v.generations (handle_id h)))
            (sym next ∙ ap handle_generation (sym w.new_handle ∙ same) ∙ sym f.current),
      rw live w.live,
      rw (w.new_handle, w.new_table)
          (get_moved t h k s v a b f live (rw w.new_table at (transfer-Inv t h v e))),
    )

-- Only an allocation adds a handle to the map.
pub look-publish :
    (t g : Table) (id j x allocation deleter : ℕ)
    → ((i : ℕ) → i < g.count → (i ≡ id) ⊎ ((i < t.count) × (g.cells i ≡ t.cells i)))
    → ((i : ℕ) → i < t.count → i < g.count)
    → id < g.count
    → look t id (g.cells id).generation ≡ 0
    → look t id x ≡ 0
    → look (publish g id allocation deleter).1 j x
      ≡ (if id == j && (g.cells id).generation == x then allocation else look t j x)
unfolding publish
look-publish t g id j x allocation deleter kept more there empty gone =
    elim (Bool-cases (id == j)) [
      | inl same ↦ let e : id ≡ j = (==_iff id j).0 same in rw (← e) (ground arith)
      | inr other ↦ ground (arith, kept j, more j)
    ]

-- The handle that a transfer returns had no object.
pub transfer_fresh :
    (t : Table) (h : ℕ) {r : ℕ × Table}
    → Inv t
    → transfer t h ≡ ok r
    → (get t r.0 ≡ 0) × IsHandle r.0
transfer_fresh t h v e =
    let (s, w) = transfer-Transferred t h e in
    let f = find-Found t h s w.found in
    let g = next_generation-IsGeneration s.generation in
    let small = handle_id-lt h in
    let id = handle_id-make_handle (handle_id h) (next_generation s.generation) small in
    let next =
      handle_generation-make_handle (handle_id h) (next_generation s.generation) small g.1 in
    let ne = next_generation-ne s.generation (rw f.is_slot at (v.generations (handle_id h))) in
    (
      rw (w.new_handle, get-look t _ v, id, next) (ground (arith, f.is_slot)),
      rw w.new_handle (make_handle-IsHandle (handle_id h) _ small g.1),
    )
