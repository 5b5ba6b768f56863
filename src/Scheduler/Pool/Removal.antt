-- ===== src/Scheduler/Pool/Removal.antt =====
-- What is left in the queues of all workers from which a piece of work was taken.
use absolute.Prelude.{
  ℕ, zero, suc, ◌<◌, ◌≡◌, ◌≢◌, ◌⊎◌, inl, inr, refl, sym, ◌∙◌, List, [], ◌∷◌, arith, length,
}
use mathlib.Core.Path.{subst}
use absolute.Scheduler.Lanes.{Work}
use absolute.Scheduler.Queue.{WorkerQueue, set_at}
use absolute.Scheduler.Queue.Removal.{Removes, TakesFrom}
use absolute.Scheduler.Pool.{Pool, queue_at, with_queue}
use absolute.Scheduler.Pool.Sizes.{SamePinned, SameReady, set_at-shares, set_at-other}

-- One of the workers loses the work, which is not pinned, and the others lose none.
abbrev pub TakesReady : Work → Pool → Pool → Type 0
TakesReady work p p' =
    (v : ℕ) × Removes work (queue_at v p.queues).ready (queue_at v p'.queues).ready
    × ((i : ℕ) → i ≢ v → (queue_at i p'.queues).ready ≡ (queue_at i p.queues).ready)

-- The work was queued, and is taken out: it is not pinned, or it is pinned to the worker.
abbrev pub TakesOut : (worker : ℕ) → Work → Pool → Pool → Type 0
TakesOut worker work p p' =
    (TakesReady work p p' × SamePinned p p')
    ⊎ (Removes work (queue_at worker p.queues).pinned (queue_at worker p'.queues).pinned
        × SameReady p p')

queue_at-set_at :
    (k : ℕ) (q : WorkerQueue) (qs : List WorkerQueue)
    → k < length qs
    → queue_at k (set_at k q qs) ≡ q
queue_at-set_at k q [] h = absurd (omega (arith, h))
queue_at-set_at zero q (x ∷ qs) h = refl
queue_at-set_at (suc k) q (x ∷ qs) h = queue_at-set_at k q qs (omega (arith, h))

pub set_at-TakesReady :
    (v : ℕ) (work : Work) (q : WorkerQueue) (p : Pool)
    → v < length p.queues
    → Removes work (queue_at v p.queues).ready q.ready
    → TakesReady work p (with_queue v q p)
set_at-TakesReady v work q p h r = (
  v,
  subst (λ x. Removes work (queue_at v p.queues).ready x.ready)
      (sym (queue_at-set_at v q p.queues h)) r,
  λ i o. set_at-other (λ x. x.ready) v i q p.queues o,
)

pub set_at-TakesOut :
    (worker : ℕ) (work : Work) (q : WorkerQueue) (p : Pool)
    → worker < length p.queues
    → TakesFrom work (queue_at worker p.queues) q
    → TakesOut worker work p (with_queue worker q p)
set_at-TakesOut worker work q p h (inl (r, s)) = inl (
  set_at-TakesReady worker work q p h r,
  λ i. set_at-shares (λ x. x.pinned) worker i q p.queues s,
)
set_at-TakesOut worker work q p h (inr (r, s)) = inr (
  subst (λ x. Removes work (queue_at worker p.queues).pinned x.pinned)
      (sym (queue_at-set_at worker q p.queues h)) r,
  λ i. set_at-shares (λ x. x.ready) worker i q p.queues s,
)

-- The same, of a pool before whose lanes are the same.
pub TakesReady-before :
    (work : Work) (p q r : Pool) → SameReady p q → TakesReady work q r → TakesReady work p r
TakesReady-before work p q r a (v, t, o) =
    (v, subst (λ x. Removes work x (queue_at v r.queues).ready) (a v) t, λ i n. o i n ∙ a i)

pub TakesOut-before :
    (worker : ℕ) (work : Work) (p q r : Pool)
    → SameReady p q
    → SamePinned p q
    → TakesOut worker work q r
    → TakesOut worker work p r
TakesOut-before worker work p q r a b (inl (t, s)) =
    inl (TakesReady-before work p q r a t, λ i. s i ∙ b i)
TakesOut-before worker work p q r a b (inr (t, s)) =
    inr (subst (λ x. Removes work x (queue_at worker r.queues).pinned) (b worker) t, λ i. s i ∙ a i)
