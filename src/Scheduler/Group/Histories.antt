-- ===== src/Scheduler/Group/Histories.antt =====
-- Histories of a group: children are handed over to it, and it is cancelled and joined, in any order.
use absolute.Prelude.{
  ℕ, ◌+◌, ◌≡◌, ◌⊎◌, inl, inr, refl, sym, ◌∙◌, Bool, false, List, [], ◌∷◌, ◌++◌, some, ◌==◌,
  if◌then◌else◌, arith, Bool-cases,
}
use absolute.Sync.{Reach, Reach-keeps}
use absolute.Scheduler.Group.{
  Group, initial, Effects, no_effects, add, cancel, join, cancel_and_join,
}

-- A group, the children that callers handed over to it, and what was done with tasks so far.
pub record System : Type 0 where
  pub group : Group
  pub handed : List ℕ
  pub cancelled : List ℕ
  pub destroyed : List ℕ

abbrev pub start : System
start = record { group = initial; handed = []; cancelled = []; destroyed = [] }

pub data Step (s u : System) : Type 0 where
  adds :
      (child : ℕ) (accepted : Bool) (e : Effects) (g : Group)
      → add (some child) (some s.group) ≡ ((accepted, e), some g)
      → u ≡ record s {
        group = g;
        handed = s.handed ++ child ∷ [];
        cancelled = s.cancelled ++ e.cancelled;
        destroyed = s.destroyed ++ e.destroyed;
      }
      → Step s u
  cancels : u ≡ record s { cancelled = s.cancelled ++ (cancel s.group).cancelled } → Step s u
  joins :
      (let (e, g) = join s.group in
        u ≡ record s { group = g; destroyed = s.destroyed ++ e.destroyed })
      → Step s u
  closes :
      (let (e, g) = cancel_and_join s.group in
        u ≡ record s {
          group = g;
          cancelled = s.cancelled ++ e.cancelled;
          destroyed = s.destroyed ++ e.destroyed;
        })
      → Step s u

-- How often a task occurs.
abbrev pub occurs : ℕ → List ℕ → ℕ
occurs task [] = 0
occurs task (t ∷ tasks) = (if t == task then 1 else 0) + occurs task tasks

-- Each child is in the group or was destroyed, once for each time that it was handed over; a group
-- that is closed has none.
abbrev pub Inv : System → Type 0
Inv s =
    ((task : ℕ) → occurs task s.handed ≡ occurs task s.destroyed + occurs task s.group.children)
    × ((s.group.closed ≡ false) ⊎ (s.group.children ≡ []))

occurs-append :
    (task : ℕ) (xs ys : List ℕ) → occurs task (xs ++ ys) ≡ occurs task xs + occurs task ys
occurs-append task [] ys = omega arith
occurs-append task (x ∷ xs) ys = omega (arith, occurs-append task xs ys)

add-cases :
    (child : ℕ) (g g' : Group) (accepted : Bool) (e : Effects)
    → add (some child) (some g) ≡ ((accepted, e), some g')
    → ((g.closed ≡ false)
        × (e ≡ no_effects)
        × (g' ≡ record g { children = g.children ++ child ∷ [] }))
      ⊎ ((e ≡ record { cancelled = child ∷ []; destroyed = child ∷ [] }) × (g' ≡ g))
unfolding add
add-cases child g g' accepted e h = elim (Bool-cases g.closed) [
  | inl shut ↦ inr (ground (arith, h, shut))
  | inr open_still ↦ inl (ground (arith, h, open_still))
]

Step-Inv : (s u : System) → Step s u → Inv s → Inv u
unfolding join cancel_and_join
Step-Inv s u (adds child accepted e g f h) (o, c) = elim (add-cases child s.group g accepted e f) [
  | inl (going, i, j) ↦
      rw (h, i, j)
        (
          (λ task. omega (
            arith,
            o task,
            occurs-append task s.handed (child ∷ []),
            occurs-append task s.destroyed [],
            occurs-append task s.group.children (child ∷ []),
          )),
          inl going,
        )
  | inr (i, j) ↦
      rw (h, i, j)
        (
          (λ task. omega (
            arith,
            o task,
            occurs-append task s.handed (child ∷ []),
            occurs-append task s.destroyed (child ∷ []),
          )),
          c,
        )
]
Step-Inv s u (cancels h) v = rw h v
Step-Inv s u (joins h) (o, c) =
    rw h
      ((λ task. omega (arith, o task, occurs-append task s.destroyed s.group.children)), inr refl)
Step-Inv s u (closes h) (o, c) =
    rw h
      ((λ task. omega (arith, o task, occurs-append task s.destroyed s.group.children)), inr refl)

-- No child escapes a group: in every history, whether the group is open or closed, each child that was
-- handed over is in the group or was destroyed, once for each time that it was handed over. When a
-- group is destroyed, all that were handed over have been destroyed, and those that were left in it
-- were cancelled before.
pub Reach-Group :
    (u : System)
    → Reach Step start u
    → Inv u
      × (let (e, g) = cancel_and_join u.group in
          (g.children ≡ [])
          × (e.cancelled ≡ u.group.children)
          × ((task : ℕ) → occurs task u.handed ≡ occurs task (u.destroyed ++ e.destroyed)))
unfolding cancel_and_join cancel join
Reach-Group u r =
    let (o, c) = Reach-keeps Step Inv Step-Inv ((λ task. refl), inl refl) r in
    ((o, c), (refl, refl, λ task. o task ∙ sym (occurs-append task u.destroyed u.group.children)))
