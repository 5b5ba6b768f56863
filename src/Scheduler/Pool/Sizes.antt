-- ===== src/Scheduler/Pool/Sizes.antt =====
-- The queues of all workers: how much work they have, and a queue that is replaced.
use absolute.Prelude.{ℕ, zero, suc, ◌+◌, ◌≤◌, ◌<◌, ◌≡◌, ◌≢◌, refl, ap, List, [], ◌∷◌, arith, length}
use absolute.Scheduler.Queue.{WorkerQueue, set_at}
use absolute.Scheduler.Queue.Sizes.{work_in}
use absolute.Scheduler.Queue.Taking.{QueueFits, size}
use absolute.Scheduler.Pool.{Pool, queue_at}

abbrev pub total_size : List WorkerQueue → ℕ
total_size [] = 0
total_size (q ∷ qs) = size q + total_size qs

abbrev pub AllFit : List WorkerQueue → Type 0
AllFit [] = Unit
AllFit (q ∷ qs) = QueueFits q × AllFit qs

-- There are queues, they are well formed, and all that is queued in them is counted.
abbrev pub PoolFits : Pool → Type 0
PoolFits p = AllFit p.queues × (p.queued ≡ total_size p.queues) × (0 < length p.queues)

pub queue_at-fits :
    (k : ℕ) (qs : List WorkerQueue) → k < length qs → AllFit qs → QueueFits (queue_at k qs)
queue_at-fits k [] h f = absurd (omega (arith, h))
queue_at-fits zero (q ∷ qs) h (f, fs) = f
queue_at-fits (suc k) (q ∷ qs) h (f, fs) = queue_at-fits k qs (omega (arith, h)) fs

pub queue_at-size : (k : ℕ) (qs : List WorkerQueue) → size (queue_at k qs) ≤ total_size qs
queue_at-size zero [] = omega arith
queue_at-size (suc k) [] = omega arith
queue_at-size zero (q ∷ qs) = omega arith
queue_at-size (suc k) (q ∷ qs) = omega (arith, queue_at-size k qs)

-- A queue that is replaced.
pub set_at-fits :
    (k : ℕ) (q : WorkerQueue) (qs : List WorkerQueue)
    → k < length qs
    → AllFit qs
    → QueueFits q
    → AllFit (set_at k q qs)
      × (total_size (set_at k q qs) + size (queue_at k qs) ≡ total_size qs + size q)
      × (length (set_at k q qs) ≡ length qs)
set_at-fits k q [] h f g = absurd (omega (arith, h))
set_at-fits zero q (x ∷ qs) h (f, fs) g = ((g, fs), omega arith, refl)
set_at-fits (suc k) q (x ∷ qs) h (f, fs) g =
    let (a, t, l) = set_at-fits k q qs (omega (arith, h)) fs g in
    ((f, a), omega (arith, t), ap suc l)

-- A property of queues that the new one shares with the old one, at every index.
pub set_at-shares :
    {A : Type 0} (f : WorkerQueue → A) (k i : ℕ) (q : WorkerQueue) (qs : List WorkerQueue)
    → f q ≡ f (queue_at k qs)
    → f (queue_at i (set_at k q qs)) ≡ f (queue_at i qs)
set_at-shares f k i q [] h = refl
set_at-shares f zero zero q (x ∷ qs) h = h
set_at-shares f zero (suc i) q (x ∷ qs) h = refl
set_at-shares f (suc k) zero q (x ∷ qs) h = refl
set_at-shares f (suc k) (suc i) q (x ∷ qs) h = set_at-shares f k i q qs h

pub set_at-other :
    {A : Type 0} (f : WorkerQueue → A) (k i : ℕ) (q : WorkerQueue) (qs : List WorkerQueue)
    → i ≢ k
    → f (queue_at i (set_at k q qs)) ≡ f (queue_at i qs)
set_at-other f k i q [] h = refl
set_at-other f zero zero q (x ∷ qs) h = absurd (h refl)
set_at-other f zero (suc i) q (x ∷ qs) h = refl
set_at-other f (suc k) zero q (x ∷ qs) h = refl
set_at-other f (suc k) (suc i) q (x ∷ qs) h = set_at-other f k i q qs (λ e. h (ap suc e))

-- Each worker keeps the work that is pinned, and that which is not.
abbrev pub SamePinned : Pool → Pool → Type 0
SamePinned p p' = (i : ℕ) → (queue_at i p'.queues).pinned ≡ (queue_at i p.queues).pinned

abbrev pub SameReady : Pool → Pool → Type 0
SameReady p p' = (i : ℕ) → (queue_at i p'.queues).ready ≡ (queue_at i p.queues).ready

pub same-size : (q q' : WorkerQueue) → q'.ready ≡ q.ready → q'.pinned ≡ q.pinned → size q' ≡ size q
same-size q q' e f = omega (arith, ap work_in e, ap work_in f)
