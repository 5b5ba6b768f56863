-- ===== src/Managed.antt =====
-- Absolute-Runtime/src/pointers.cpp: the table of managed pointers. A handle is a slot's number
-- and the generation that the slot had when the handle was made; freeing or transferring an
-- object gives its slot the next generation, so that an old handle is recognised.
-- Each function that takes `slotsMutex` is one step here; the lock-free readers are in
-- Managed/Reader.
pub mod Slots
pub mod Invariant
pub mod Operations
pub mod Refinement
pub mod Allocation
pub mod Stale
pub mod Reader
pub mod Leaks
pub mod Release
mod Examples
pub mod Capsule
use absolute.Prelude.{
  ℕ, suc, zero, ◌+◌, ◌/◌, ◌%◌, Bool, true, not, List, [], ◌∷◌, Option, none, some, Result, ok, err,
  ◌>>=◌, leb, ltb, ◌==◌, if◌then◌else◌,
}
use Slots.{
  Slot, fresh_slot, slots_per_chunk, max_chunks, default_deleter, Table, Abort, table_full,
  chunk_allocation_failed, managed_allocation_failed, leaked, null_or_expired, cannot_transfer,
  word, make_handle, handle_id, handle_generation, update, slot_at, find,
}

-- The lines of `RegisterAllocation` behind the choice of a slot.
unfoldable pub publish : Table → ℕ → ℕ → ℕ → ℕ × Table
unfolding make_handle
publish t id allocation deleter =
    let s = t.cells id in
    (
      make_handle id s.generation,
      record t {
        cells = update t.cells id (record s {
          type = 0;
          deleter = if deleter == 0 then default_deleter else deleter;
          pointer = allocation;
        });
      },
    )

-- The chunk of slot `t.count`, allocated where it is not yet; `memory` says whether
-- `new (std::nothrow)` succeeds.
unfoldable pub grow : Table → Bool → Result Abort Table
grow t memory =
    let chunk = t.count / slots_per_chunk in
    if leb max_chunks chunk
    then err table_full
    else if t.allocated chunk
    then ok (record t { count = t.count + 1 })
    else if memory
    then ok (record t {
      cells = λ id. if id / slots_per_chunk == chunk then fresh_slot else t.cells id;
      allocated = update t.allocated chunk true;
      count = t.count + 1;
    })
    else err chunk_allocation_failed

unfoldable pub register_in : List ℕ → Table → Bool → ℕ → ℕ → Result Abort (ℕ × Table)
unfolding publish grow
register_in (id ∷ rest) t memory allocation deleter =
    ok (publish (record t { free = rest }) id allocation deleter)
register_in [] t memory allocation deleter = do
  grown ← grow t memory
  ok (publish grown t.count allocation deleter)

unfoldable pub register : Table → Bool → ℕ → ℕ → Result Abort (ℕ × Table)
unfolding register_in
register t = register_in t.free t

-- `absolute_managed_create`: `allocation` is what `calloc` returns.
unfoldable pub create : Table → Bool → ℕ → Result Abort (ℕ × Table)
unfolding register
create t memory allocation =
    let checked = record t { leak_check = true } in
    if allocation == 0
    then err managed_allocation_failed
    else register checked memory allocation default_deleter

-- `absolute_managed_adopt_raw`; the handle 0 for a null pointer.
unfoldable pub adopt_raw : Table → Bool → ℕ → ℕ → Result Abort (ℕ × Table)
unfolding register
adopt_raw t memory pointer deleter =
    let checked = record t { leak_check = true } in
    if pointer == 0
    then ok (0, t)
    else register checked memory pointer (if deleter == 0 then default_deleter else deleter)

-- The three loads of `absolute_managed_get`, from the slot as it is at each of them.
unfoldable pub read_pointer : ℕ → Slot → Slot → Slot → ℕ
read_pointer expected first second third =
    if not (first.generation == expected)
    then 0
    else if not (third.generation == expected)
    then 0
    else second.pointer

-- `absolute_managed_type` loads another field in the same way.
unfoldable pub read_type : ℕ → Slot → Slot → Slot → ℕ
read_type expected first second third =
    if not (first.generation == expected)
    then 0
    else if not (third.generation == expected)
    then 0
    else second.type

unfoldable pub read_slot : (Slot → ℕ) → Option Slot → ℕ
read_slot read none = 0
read_slot read (some s) = read s

-- `absolute_managed_get` and `absolute_managed_type`, while nobody else writes.
unfoldable pub get : Table → ℕ → ℕ
unfolding read_slot read_pointer slot_at handle_id handle_generation
get t handle =
    if handle == 0
    then 0
    else if leb t.count (handle_id handle)
    then 0
    else read_slot (λ s. read_pointer (handle_generation handle) s s s)
        (slot_at t (handle_id handle))

unfoldable pub type_of : Table → ℕ → ℕ
unfolding read_slot read_type slot_at handle_id handle_generation
type_of t handle =
    if handle == 0
    then 0
    else if leb t.count (handle_id handle)
    then 0
    else read_slot (λ s. read_type (handle_generation handle) s s s) (slot_at t (handle_id handle))

unfoldable pub valid : Table → ℕ → Bool
unfolding get
valid t handle = not (get t handle == 0)

-- `absolute_managed_require`
unfoldable pub require : Table → ℕ → Result Abort ℕ
unfolding get
require t handle =
    let pointer = get t handle in if not (pointer == 0) then ok pointer else err null_or_expired

unfoldable pub set_type : Table → ℕ → ℕ → Table
unfolding find
set_type t handle type = elim (find t handle) [
  | none ↦ t
  | some s ↦ record t { cells = update t.cells (handle_id handle) (record s { type = type }) }
]

-- `uint32_t next = generation + 1; if (next == 0) next = 1;`
unfoldable pub next_generation : ℕ → ℕ
next_generation generation = let next = (generation + 1) % word in if next == 0 then 1 else next

-- `absolute_managed_destroy`. The deleter runs last, when the lock is given back.
unfoldable pub destroy_slot : Table → ℕ → Slot → Table
unfolding next_generation
destroy_slot t id s = if s.pointer == 0 then t else record t {
  cells =
      update t.cells id
        (record { pointer = 0; generation = next_generation s.generation; type = 0; deleter = 0 });
  free = id ∷ t.free;
  released = (if s.deleter == 0 then default_deleter else s.deleter, s.pointer) ∷ t.released;
}

unfoldable pub destroy : Table → ℕ → Table
unfolding find destroy_slot handle_id
destroy t handle = elim (find t handle) [ none ↦ t | some s ↦ destroy_slot t (handle_id handle) s ]

-- `absolute_managed_transfer`: the object moves to a new handle.
unfoldable pub transfer_slot : Table → ℕ → Slot → Result Abort (ℕ × Table)
unfolding next_generation make_handle
transfer_slot t id s =
    let next = next_generation s.generation in
    if s.pointer == 0
    then err cannot_transfer
    else ok (
      make_handle id next,
      record t { cells = update t.cells id (record s { generation = next }) },
    )

unfoldable pub transfer : Table → ℕ → Result Abort (ℕ × Table)
unfolding find transfer_slot handle_id
transfer t handle = elim (find t handle) [
  | none ↦ err cannot_transfer
  | some s ↦ transfer_slot t (handle_id handle) s
]

-- The loop of `absolute_managed_check_leaks`, over the slots below `i`.
unfoldable pub leaks_below : Table → ℕ → ℕ
unfolding slot_at read_slot
leaks_below t zero = 0
leaks_below t (suc i) =
    (if read_slot (λ s. s.pointer) (slot_at t i) == 0 then 0 else 1) + leaks_below t i

unfoldable pub check_leaks : Table → Result Abort Table
unfolding leaks_below
check_leaks t =
    let leaks = leaks_below t t.count in if ltb 0 leaks then err (leaked leaks) else ok t
