-- ===== src/Managed/Slots.antt =====
-- Absolute-Runtime/src/pointers.cpp: slots, handles, and the lookup of a slot by its handle.
-- An address is a number, and 0 is the null pointer; a deleter is its address. The chunks that
-- hold the slots are the map `allocated`, and `cells` gives the slots of all chunks.
use absolute.Prelude.{
  ℕ, ◌+◌, ◌*◌, ◌/◌, ◌%◌, ◌^◌, Bool, false, List, [], Option, none, some, leb, ◌==◌, if◌then◌else◌,
}

pub record Slot : Type 0 where
  pub pointer : ℕ
  pub generation : ℕ
  pub type : ℕ
  pub deleter : ℕ

-- The initializers of `struct Slot`.
abbrev pub fresh_slot : Slot
fresh_slot = record { pointer = 0; generation = 1; type = 0; deleter = 0 }

abbrev pub slots_per_chunk : ℕ
slots_per_chunk = 4096

abbrev pub max_chunks : ℕ
max_chunks = 65536

-- The address of `DefaultDeleter`.
abbrev pub default_deleter : ℕ
default_deleter = 1

pub record Table : Type 0 where
  pub cells : ℕ → Slot
  pub allocated : ℕ → Bool
  pub count : ℕ
  -- `freeSlots`, its back first.
  pub free : List ℕ
  pub leak_check : Bool
  -- The deleter calls made so far, the last one first: the deleter and the object.
  pub released : List (ℕ × ℕ)

-- The globals as the program starts.
abbrev pub initial : Table
initial = record {
  cells = λ _. fresh_slot;
  allocated = λ _. false;
  count = 0;
  free = [];
  leak_check = false;
  released = [];
}

-- The messages before each `std::abort`, and `fault` for what C++ leaves undefined.
pub data Abort : Type 0 where
  table_full chunk_allocation_failed managed_allocation_failed : Abort
  leaked : ℕ → Abort
  null_or_expired cannot_transfer unwrap_null already_unwrapped fault : Abort

abbrev pub word : ℕ
word = 2 ^ 32

-- `(generation << 32) | id` on 64 bits: the two halves do not overlap.
unfoldable pub make_handle : ℕ → ℕ → ℕ
make_handle id generation = generation * word + id

unfoldable pub handle_id : ℕ → ℕ
handle_id handle = handle % word

unfoldable pub handle_generation : ℕ → ℕ
handle_generation handle = handle / word % word

abbrev pub update {ℓ} : {A : Type ℓ} → (ℕ → A) → ℕ → A → ℕ → A
update f i a j = if i == j then a else f j

unfoldable pub slot_at : Table → ℕ → Option Slot
slot_at t id =
    if leb max_chunks (id / slots_per_chunk)
    then none
    else if t.allocated (id / slots_per_chunk)
    then some (t.cells id)
    else none

unfoldable pub expect : ℕ → Option Slot → Option Slot
expect generation none = none
expect generation (some s) = if s.generation == generation then some s else none

unfoldable pub find : Table → ℕ → Option Slot
unfolding expect handle_id handle_generation slot_at
find t handle =
    if handle == 0
    then none
    else if leb t.count (handle_id handle)
    then none
    else expect (handle_generation handle) (slot_at t (handle_id handle))
