-- ===== src/Scheduler/Group.antt =====
-- `TaskGroupImpl` of Absolute-Runtime/src/tasks.cpp, of children by their numbers. A call ends with
-- the children on which `absolute_task_destroy` is called, which waits for their end, and those on
-- which cancellation was requested before.
pub mod Histories
use absolute.Prelude.{
  ℕ, ◌^◌, ◌-◌, Bool, true, false, List, [], ◌∷◌, ◌++◌, Option, none, some, ltb, length,
  if◌then◌else◌,
}

pub record Group : Type 0 where
  pub children : List ℕ
  pub closed : Bool

-- What a call does with tasks.
pub record Effects : Type 0 where
  pub cancelled : List ℕ
  pub destroyed : List ℕ

abbrev pub no_effects : Effects
no_effects = record { cancelled = []; destroyed = [] }

abbrev pub initial : Group
initial = record { children = []; closed = false }

-- `absolute_task_group_add`; a group or a child that is null is `none`.
unfoldable pub add : Option ℕ → Option Group → (Bool × Effects) × Option Group
add none group = ((false, no_effects), group)
add (some child) none = ((false, record { cancelled = child ∷ []; destroyed = child ∷ [] }), none)
add (some child) (some g) =
    if g.closed
    then ((false, record { cancelled = child ∷ []; destroyed = child ∷ [] }), some g)
    else ((true, no_effects), some (record g { children = g.children ++ child ∷ [] }))

-- `absolute_task_group_count`
unfoldable pub count : Option Group → ℕ
count none = 0
count (some g) = if ltb (length g.children) (2 ^ 31 - 1) then length g.children else 2 ^ 31 - 1

-- `absolute_task_group_cancel`
unfoldable pub cancel : Group → Effects
cancel g = record { cancelled = g.children; destroyed = [] }

-- `absolute_task_group_join`
unfoldable pub join : Group → Effects × Group
join g =
    (record { cancelled = []; destroyed = g.children }, record { children = []; closed = true })

-- `absolute_task_group_cancel_and_join`, with which `absolute_task_group_destroy` starts.
unfoldable pub cancel_and_join : Group → Effects × Group
unfolding cancel join
cancel_and_join g =
    let (effects, after) = join g in
    (record { cancelled = (cancel g).cancelled; destroyed = effects.destroyed }, after)
