-- ===== src/Managed/Capsule.antt =====
-- Absolute-Runtime/src/pointers.cpp, the transfer capsules: a heap object that carries the
-- handle of a managed object from one task to another. A capsule is taken out of the heap by
-- `delete`; a use of it after that is undefined in C++, and a `fault` here.
pub mod Ownership
use absolute.Prelude.{
  ℕ, suc, ◌+◌, ◌<◌, Bool, true, false, not, ◌&&◌, List, [], ◌∷◌, Option, none, some, Result, ok,
  err, ◌>>=◌, ◌==◌, if◌then◌else◌,
}
use absolute.Managed.Slots.{Table, initial, Abort, unwrap_null, already_unwrapped, fault, update}
use absolute.Managed.{transfer, get, destroy}

pub record Capsule : Type 0 where
  pub handle : ℕ
  pub transferred : Bool
  pub deleter_fn : ℕ

pub record World : Type 0 where
  pub table : Table
  pub capsules : ℕ → Option Capsule
  -- The address of the next `new CapsuleImpl`.
  pub next : ℕ

abbrev pub start : World
start = record { table = initial; capsules = λ _. none; next = 1 }

-- `absolute_capsule_create_typed`; `absolute_capsule_create` passes the deleter 0.
unfoldable pub create_typed : World → ℕ → ℕ → Result Abort (ℕ × World)
create_typed w handle deleter = do
  r ← transfer w.table handle
  let capsule : Capsule = record { handle = r.0; transferred = false; deleter_fn = deleter }
  ok (
    w.next,
    record { table = r.1; capsules = update w.capsules w.next (some capsule); next = w.next + 1 },
  )

-- `absolute_capsule_unwrap`: the flag is exchanged, and the capsule deleted if it was not set.
unfoldable pub unwrap_capsule : World → ℕ → Option Capsule → Result Abort (ℕ × World)
unwrap_capsule w p none = err fault
unwrap_capsule w p (some c) =
    if c.transferred
    then err already_unwrapped
    else ok (c.handle, record w { capsules = update w.capsules p none })

unfoldable pub unwrap : World → ℕ → Result Abort (ℕ × World)
unfolding unwrap_capsule
unwrap w p = if p == 0 then err unwrap_null else unwrap_capsule w p (w.capsules p)

-- The object's own deleter, called before the handle is destroyed.
unfoldable pub drop_object : Table → Capsule → Table
unfolding get
drop_object t c =
    let raw = get t c.handle in
    if not (c.deleter_fn == 0) && not (raw == 0)
    then record t { released = (c.deleter_fn, raw) ∷ t.released }
    else t

-- `absolute_capsule_destroy`
unfoldable pub destroy_capsule : World → ℕ → Option Capsule → Result Abort World
unfolding drop_object
destroy_capsule w p none = err fault
destroy_capsule w p (some c) =
    let left = record w { capsules = update w.capsules p none } in
    if not c.transferred && not (c.handle == 0)
    then ok (record left { table = destroy (drop_object w.table c) c.handle })
    else ok left

unfoldable pub destroy_at : World → ℕ → Result Abort World
unfolding destroy_capsule
destroy_at w p = if p == 0 then ok w else destroy_capsule w p (w.capsules p)
