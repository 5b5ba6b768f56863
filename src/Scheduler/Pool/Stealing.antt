-- ===== src/Scheduler/Pool/Stealing.antt =====
-- The loop in which a worker takes from the queues of others.
use absolute.Prelude.{
  ℕ, zero, suc, ◌+◌, ◌%◌, ◌<◌, ◌≡◌, ◌⊎◌, inl, inr, refl, sym, ap, ◌∙◌, Bool, true, false, ◌==◌,
  ==_iff, arith, length,
}
use mathlib.Core.Path.{subst}
use absolute.Scheduler.Queue.{WorkerQueue, Took, take_stealable}
use absolute.Scheduler.Queue.Sizes.{work_in}
use absolute.Scheduler.Queue.Taking.{
  QueueFits, size, TakesOne, KeepsPinned, take_stealable-TakesOne, take_stealable-KeepsPinned,
}
use absolute.Scheduler.Pool.{
  Pool, queue_at, Taking, nothing, takes, aborts, with_queue, with_cursor, next_victim, steal,
}
use absolute.Scheduler.Pool.Rings.{ring, step_in}
use absolute.Scheduler.Queue.Removal.{Removes-same}
use absolute.Scheduler.Pool.Removal.{TakesReady, set_at-TakesReady, TakesReady-before}
use absolute.Scheduler.Pool.Sizes.{
  total_size, AllFit, PoolFits, queue_at-fits, queue_at-size, set_at-fits, set_at-shares, same-size,
  SamePinned, SameReady,
}

module _ (count worker : ℕ) where
  abbrev pub Emptied : ℕ → Pool → Type 0
  Emptied victim p = (victim ≡ worker) ⊎ (work_in (queue_at victim p.queues).ready ≡ 0)

  -- What the loop does with the rounds that are left, from a victim on.
  abbrev pub Stolen : (rounds victim : ℕ) → Pool → Taking → Type 0
  Stolen rounds victim p (nothing p') =
      PoolFits p'
      × SameReady p p'
      × SamePinned p p'
      × ((steps : ℕ) → steps < rounds → Emptied (ring count victim steps) p)
  Stolen rounds victim p (takes work p') =
      PoolFits p' × (p.queued ≡ p'.queued + 1) × SamePinned p p' × TakesReady work p p'
  Stolen rounds victim p aborts = ⊥

  Stolen-next :
      (rounds victim : ℕ) (p : Pool) (t : Taking)
      → Emptied victim p
      → Stolen rounds ((victim + 1) % count) p t
      → Stolen (suc rounds) victim p t
  Stolen-next rounds victim p (nothing p') e (f, r, s, v) = (f, r, s, visited)
    where
      visited : (steps : ℕ) → steps < suc rounds → Emptied (ring count victim steps) p
      visited zero h = e
      visited (suc steps) h = v steps (omega (arith, h))
  Stolen-next rounds victim p (takes work p') e h = h
  Stolen-next rounds victim p aborts e h = h

  Stolen-before :
      (rounds victim : ℕ) (p q : Pool) (t : Taking)
      → SameReady p q
      → SamePinned p q
      → q.queued ≡ p.queued
      → Stolen rounds victim q t
      → Stolen rounds victim p t
  Stolen-before rounds victim p q (nothing p') a b c (f, r, s, v) = (
    f,
    (λ i. r i ∙ a i),
    (λ i. s i ∙ b i),
    λ steps h.
        subst (λ x. (ring count victim steps ≡ worker) ⊎ (work_in x ≡ 0))
          (a (ring count victim steps)) (v steps h),
  )
  Stolen-before rounds victim p q (takes work p') a b c (f, e, s, t) =
      (f, sym c ∙ e, (λ i. s i ∙ b i), TakesReady-before work p q p' a t)
  Stolen-before rounds victim p q aborts a b c h = h

  -- A victim's queue behind a look that found nothing.
  replaced-fits :
      (victim : ℕ) (q : WorkerQueue) (p : Pool) (n : ℕ)
      → victim < length p.queues
      → AllFit p.queues
      → QueueFits q
      → n + size (queue_at victim p.queues) ≡ total_size p.queues + size q
      → PoolFits (record (with_queue victim q p) { queued = n })
  replaced-fits victim q p n h f g e =
      let (a, t, l) = set_at-fits victim q p.queues h f g in
      (a, omega (arith, e, t), omega (arith, h, l))

  -- Behind the look into a victim's queue.
  found-Stolen :
      (rounds victim : ℕ) (p : Pool) (t : Took) (loop : Pool → Taking)
      → PoolFits p
      → victim < length p.queues
      → TakesOne (queue_at victim p.queues) p.queued (work_in (queue_at victim p.queues).ready) t
      → KeepsPinned (queue_at victim p.queues) t
      → ((q : Pool)
          → PoolFits q
          → length q.queues ≡ length p.queues
          → Stolen rounds ((victim + 1) % count) q (loop q))
      → Stolen (suc rounds) victim p (elim t [
        | Took.nothing q ↦ loop (with_queue victim q p)
        | Took.takes work q queued ↦ takes work (
            with_cursor worker
              (next_victim p victim)
              (record (with_queue victim q p) { queued = queued }))
        | Took.aborts ↦ aborts
      ])
  found-Stolen rounds victim p (Took.nothing q) loop (f, c, z) h (g, e, r, s) k next =
      let (a, t, l) = set_at-fits victim q p.queues h f g in
      let fits : PoolFits (with_queue victim q p) =
        (a, omega (arith, c, t, same-size (queue_at victim p.queues) q r s), omega (arith, h, l)) in
      Stolen-next rounds victim p (loop (with_queue victim q p)) (inr e) (
        Stolen-before rounds ((victim + 1) % count) p (with_queue victim q p)
          (loop (with_queue victim q p)) (λ i. set_at-shares (λ x. x.ready) victim i q p.queues r)
          (λ i. set_at-shares (λ x. x.pinned) victim i q p.queues s) refl
          (next (with_queue victim q p) fits l))
  found-Stolen rounds victim p (Took.takes work q queued) loop (f, c, z) h (g, e, r, o) k next = (
    replaced-fits victim q p queued h f g (omega (arith, c, e, r)),
    r,
    (λ i. set_at-shares (λ x. x.pinned) victim i q p.queues k),
    elim o [
      | inl (t, same) ↦ set_at-TakesReady victim work q p h t
      | inr (t, same) ↦ absurd (Removes-same work _ _ t k)
    ],
  )
  found-Stolen rounds victim p Took.aborts loop f h a k next = absurd a

  pub steal-Stolen :
      (rounds victim : ℕ) (p : Pool)
      → PoolFits p
      → length p.queues ≡ count
      → victim < count
      → Stolen rounds victim p (steal rounds worker victim p)
  unfolding steal
  steal-Stolen zero victim p f l h =
      (f, (λ i. refl), (λ i. refl), λ steps k. absurd (omega (arith, k)))
  steal-Stolen (suc rounds) victim p f l h =
      at (λ q g m. steal-Stolen rounds ((victim + 1) % count) q g m (step_in count victim h))
        (victim == worker) refl
    where
      next :
          ((q : Pool)
            → PoolFits q
            → length q.queues ≡ count
            → Stolen rounds ((victim + 1) % count) q (steal rounds worker ((victim + 1) % count) q))
          → (q : Pool) → PoolFits q
          → length q.queues ≡ length p.queues
          → Stolen rounds ((victim + 1) % count) q (steal rounds worker (next_victim p victim) q)
      next again q g m =
          subst (λ x. Stolen rounds ((victim + 1) % count) q (steal rounds worker x q))
            (ap (λ x. (victim + 1) % x) (sym l)) (again q g (m ∙ l))

      at :
          ((q : Pool)
            → PoolFits q
            → length q.queues ≡ count
            → Stolen rounds ((victim + 1) % count) q (steal rounds worker ((victim + 1) % count) q))
          → (b : Bool) → (victim == worker) ≡ b
          → Stolen (suc rounds) victim p (elim b [
            | true ↦ steal rounds worker (next_victim p victim) p
            | false ↦ elim (take_stealable (queue_at victim p.queues) p.queued) [
              | Took.nothing q ↦ steal rounds worker (next_victim p victim) (with_queue victim q p)
              | Took.takes work q queued ↦ takes work (
                  with_cursor worker
                    (next_victim p victim)
                    (record (with_queue victim q p) { queued = queued }))
              | Took.aborts ↦ aborts
            ]
          ])
      at again true e =
          Stolen-next rounds victim p (steal rounds worker (next_victim p victim) p)
            (inl ((==_iff victim worker).0 e)) (next again p f refl)
      at again false e =
          found-Stolen rounds victim p (take_stealable (queue_at victim p.queues) p.queued)
            (steal rounds worker (next_victim p victim)) f (omega (arith, h, l))
            (take_stealable-TakesOne (queue_at victim p.queues) p.queued
              (queue_at-fits victim p.queues (omega (arith, h, l)) (f.0))
              (omega (arith, f.1, queue_at-size victim p.queues)))
            (take_stealable-KeepsPinned (queue_at victim p.queues) p.queued) (next again)
