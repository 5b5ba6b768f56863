-- ===== src/Scheduler/Pool/Finding.antt =====
-- A worker finds work where there is any that it may take.
use absolute.Prelude.{
  ℕ, ◌+◌, ◌%◌, ◌<◌, ◌≡◌, ◌≢◌, inl, inr, refl, sym, ◌∙◌, ltb, ◌==◌, ==_iff, arith, length,
  Bool-cases,
}
use mathlib.Core.Path.{subst}
use native.Mathlib.Nat.{mod-lt}
use absolute.Scheduler.Queue.{Took, take_local}
use absolute.Scheduler.Queue.Sizes.{work_in}
use absolute.Scheduler.Queue.Taking.{size, TakesOne, take_local-TakesOne}
use absolute.Scheduler.Pool.{
  Pool, queue_at, cursor_at, Taking, nothing, takes, aborts, with_queue, steal, take_from_others,
  after_local, take_locked,
}
use absolute.Scheduler.Pool.Rings.{ring_visits}
use absolute.Scheduler.Pool.Sizes.{
  PoolFits, queue_at-fits, queue_at-size, set_at-fits, set_at-shares, same-size, SamePinned,
  SameReady,
}
use absolute.Scheduler.Pool.Sizes.{set_at-other}
use absolute.Scheduler.Pool.Removal.{TakesOut, set_at-TakesOut, TakesOut-before}
use absolute.Scheduler.Pool.Stealing.{Emptied, Stolen, steal-Stolen}

-- What `TakeLocked` does: it takes out one piece of work, which was queued and is counted, or finds
-- nothing where the worker has none and the others have only pinned work. What is pinned stays at the
-- other workers.
abbrev pub Finds : ℕ → Pool → Taking → Type 0
Finds worker p (nothing p') =
    PoolFits p'
    × (size (queue_at worker p.queues) ≡ 0)
    × ((i : ℕ) → i < length p.queues → work_in (queue_at i p.queues).ready ≡ 0)
Finds worker p (takes work p') =
    PoolFits p'
    × (p.queued ≡ p'.queued + 1)
    × ((i : ℕ) → i ≢ worker → (queue_at i p'.queues).pinned ≡ (queue_at i p.queues).pinned)
    × TakesOut worker work p p'
Finds worker p aborts = ⊥

total-empty : (i : ℕ) (p : Pool) → PoolFits p → p.queued ≡ 0 → size (queue_at i p.queues) ≡ 0
total-empty i p (f, c, y) z = omega (arith, c, z, queue_at-size i p.queues)

Finds-before :
    (worker : ℕ) (p q : Pool) (t : Taking)
    → SameReady p q
    → SamePinned p q
    → q.queued ≡ p.queued
    → length q.queues ≡ length p.queues
    → Finds worker q t
    → Finds worker p t
Finds-before worker p q (nothing p') a b c l (f, z, n) = (
  f,
  omega (
    arith,
    z,
    same-size (queue_at worker p.queues) (queue_at worker q.queues) (a worker) (b worker),
  ),
  λ i k. subst (λ x. work_in x ≡ 0) (a i) (n i (omega (arith, k, l))),
)
Finds-before worker p q (takes work p') a b c l (f, e, s, t) =
    (f, sym c ∙ e, (λ i o. s i o ∙ b i), TakesOut-before worker work p q p' a b t)
Finds-before worker p q aborts a b c l h = h

Stolen-Finds :
    (worker victim : ℕ) (p : Pool) (t : Taking)
    → victim < length p.queues
    → size (queue_at worker p.queues) ≡ 0
    → Stolen (length p.queues) worker (length p.queues) victim p t
    → Finds worker p t
Stolen-Finds worker victim p (nothing p') h z (f, r, s, v) = (
  f,
  z,
  λ i k.
      let (steps, less, there) = ring_visits (length p.queues) victim i h k in
      elim (subst (λ x. Emptied (length p.queues) worker x p) there (v steps less)) [
        | inl own ↦ rw own (omega (arith, z))
        | inr none_left ↦ none_left
      ],
)
Stolen-Finds worker victim p (takes work p') h z (f, e, s, t) = (f, e, (λ i o. s i), inl (t, s))
Stolen-Finds worker victim p aborts h z a = a

others-Finds :
    (worker : ℕ) (p : Pool)
    → PoolFits p
    → worker < length p.queues
    → size (queue_at worker p.queues) ≡ 0
    → Finds worker p (take_from_others worker p)
unfolding take_from_others
others-Finds worker p f h z = elim (Bool-cases (ltb (length p.queues) 2)) [
  | inl alone ↦
      rw alone (
        f,
        z,
        λ i k. let own : i ≡ worker = ground (arith, alone, k, h) in rw own (omega (arith, z)),
      )
  | inr several ↦
      let cursor = cursor_at worker p.steal_cursors % length p.queues in
      let inside : cursor < length p.queues =
        mod-lt (cursor_at worker p.steal_cursors) (omega (arith, h)) in
      rw several (
        Stolen-Finds worker cursor p (steal (length p.queues) worker cursor p) inside z
          (steal-Stolen (length p.queues) worker (length p.queues) cursor p f refl inside))
]

-- A worker that looks for work calls no `std::abort` and takes one piece of work, which is counted and
-- is taken out of the front of a lane where it was queued: pinned to the worker, or not pinned. It finds nothing only where its own queues are empty
-- and the other workers have no work that is not pinned.
pub take_locked-Finds :
    (worker : ℕ) (p : Pool)
    → PoolFits p
    → worker < length p.queues
    → Finds worker p (take_locked worker p)
unfolding take_locked
take_locked-Finds worker p (f, c, y) h = elim (Bool-cases (p.queued == 0)) [
  | inl none_queued ↦
      let z : p.queued ≡ 0 = (==_iff p.queued 0).0 none_queued in
      rw none_queued (
        (f, c, y),
        total-empty worker p (f, c, y) z,
        λ i k. omega (arith, total-empty i p (f, c, y) z),
      )
  | inr some_queued ↦ rw some_queued (
      from (take_local (queue_at worker p.queues) p.queued) (
        take_local-TakesOne (queue_at worker p.queues) p.queued (queue_at-fits worker p.queues h f)
          (omega (arith, c, queue_at-size worker p.queues))))
]
  where
    from :
        (t : Took)
        → TakesOne (queue_at worker p.queues) p.queued (size (queue_at worker p.queues)) t
        → Finds worker p (after_local worker p t)
    from (Took.nothing q) (g, z, r, s) =
        let (a, t, l) = set_at-fits worker q p.queues h f g in
        let same = same-size (queue_at worker p.queues) q r s in
        let p' = with_queue worker q p in
        Finds-before worker p p' (take_from_others worker p')
          (λ i. set_at-shares (λ x. x.ready) worker i q p.queues r)
          (λ i. set_at-shares (λ x. x.pinned) worker i q p.queues s) refl l
          (others-Finds worker p' (a, omega (arith, c, t, same), omega (arith, h, l))
            (omega (arith, h, l))
            (omega (arith, z, set_at-shares size worker worker q p.queues same)))
    from (Took.takes work q queued) (g, e, r, o) =
        let (a, t, l) = set_at-fits worker q p.queues h f g in
        (
          (a, omega (arith, c, t, e, r), omega (arith, h, l)),
          r,
          (λ i n. set_at-other (λ x. x.pinned) worker i q p.queues n),
          set_at-TakesOut worker work q p h o,
        )
    from Took.aborts a = absurd a
