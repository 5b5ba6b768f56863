-- ===== src/Scheduler/Pool/Histories.antt =====
-- Histories of the queues of all workers: tasks are queued and taken in any order.
use absolute.Prelude.{
  ℕ, zero, suc, ◌+◌, ◌%◌, ◌^◌, ◌<◌, ◌≡◌, inr, refl, sym, ap, ◌∙◌, List, [], ◌∷◌, Option, none, some,
  arith, length,
}
use mathlib.Core.Path.{subst}
use native.Mathlib.Nat.{mod-lt}
use absolute.Prelude.Int.{ℤ, pos, negsuc, ◌≤ℤ◌, ◌+ℤ◌}
use absolute.Sync.{Reach, Reach-keeps}
use absolute.Scheduler.Lanes.{Work, Bucket, no_work, enqueue}
use absolute.Scheduler.Lanes.Forms.{WellFormed, enqueue-lem}
use absolute.Scheduler.Queue.{WorkerQueue, bucket_at, set_at}
use absolute.Scheduler.Queue.Sizes.{work_in, AllFormed}
use absolute.Scheduler.Queue.Taking.{QueueFits, size, bucket_at-WellFormed}
use absolute.Scheduler.Pool.{
  Pool, queue_at, nothing, takes, with_queue, take_locked, bucket_index, enqueue_pinned,
  enqueue_ready, enqueue_locked, fresh_queue, fresh_queues, create,
}
use absolute.Scheduler.Pool.Sizes.{total_size, AllFit, PoolFits, queue_at-fits, set_at-fits}
use absolute.Scheduler.Pool.Finding.{Finds, take_locked-Finds}

-- The owner or the worker that calls is one of the workers.
abbrev pub IsWorker : ℕ → Option ℕ → Type 0
IsWorker count none = Unit
IsWorker count (some worker) = worker < count

abbrev pub InRange : ℤ → Type 0
InRange priority = (negsuc 2 ≤ℤ priority) × (priority ≤ℤ pos 3)

pub data Step (p u : Pool) : Type 0 where
  enqueues :
      (owner current : Option ℕ) (work : Work)
      → IsWorker (length p.queues) owner
      → IsWorker (length p.queues) current
      → InRange work.priority
      → u ≡ enqueue_locked owner current work p
      → Step p u
  serves :
      (worker : ℕ) (work : Work)
      → worker < length p.queues
      → take_locked worker p ≡ takes work u
      → Step p u
  finds_nothing :
      (worker : ℕ) → worker < length p.queues → take_locked worker p ≡ nothing u → Step p u

bucket_index-lt : (priority : ℤ) → InRange priority → bucket_index priority < 7
unfolding bucket_index ◌+ℤ◌
bucket_index-lt priority (h, k) = ground (arith, h, k)

-- A bucket that has one piece of work more.
set_at-grown :
    (k : ℕ) (b : Bucket) (bs : List Bucket)
    → k < length bs
    → AllFormed bs
    → WellFormed b
    → b.count ≡ (bucket_at k bs).count + 1
    → AllFormed (set_at k b bs)
      × (work_in (set_at k b bs) ≡ work_in bs + 1)
      × (length (set_at k b bs) ≡ length bs)
set_at-grown k b [] l h f c = absurd (omega (arith, l))
set_at-grown zero b (x ∷ bs) l (g, h) f c = ((f, h), omega (arith, c), refl)
set_at-grown (suc k) b (x ∷ bs) l (g, h) f c =
    let (a, w, m) = set_at-grown k b bs (omega (arith, l)) h f c in
    ((g, a), omega (arith, w), ap suc m)

-- A queue that has one piece of work more.
grown-fits :
    (k : ℕ) (q : WorkerQueue) (p : Pool) (queued : ℕ)
    → PoolFits p
    → k < length p.queues
    → QueueFits q
    → size q ≡ size (queue_at k p.queues) + 1
    → queued ≡ p.queued + 1
    → PoolFits (record (with_queue k q p) { queued = queued })
grown-fits k q p queued (f, c, z) l g e n =
    let (a, t, m) = set_at-fits k q p.queues l f g in
    (a, omega (arith, c, e, n, t), omega (arith, l, m))

enqueue_pinned-fits :
    (k : ℕ) (work : Work) (p : Pool)
    → PoolFits p
    → k < length p.queues
    → InRange work.priority
    → PoolFits (enqueue_pinned k work p)
unfolding enqueue_pinned
enqueue_pinned-fits k work p (f, c, z) l h =
    let (r, (m, a), x, y) = queue_at-fits k p.queues l f in
    let i = bucket_index work.priority in
    let old = bucket_at i (queue_at k p.queues).pinned in
    let (w, n, e, o) =
      enqueue-lem work old p.queued (bucket_at-WellFormed i (queue_at k p.queues).pinned a) in
    let (a', s, m') =
      set_at-grown i (enqueue work (old, p.queued)).0 (queue_at k p.queues).pinned
        (omega (arith, bucket_index-lt work.priority h, m)) a w n in
    grown-fits k
      (record (queue_at k p.queues) {
        pinned = set_at i (enqueue work (old, p.queued)).0 (queue_at k p.queues).pinned;
      })
      p (enqueue work (old, p.queued)).1 (f, c, z) l (r, (m' ∙ m, a'), x, y) (omega (arith, s)) e

enqueue_ready-fits :
    (k : ℕ) (work : Work) (p : Pool)
    → PoolFits p
    → k < length p.queues
    → InRange work.priority
    → PoolFits (enqueue_ready k work p)
unfolding enqueue_ready
enqueue_ready-fits k work p (f, c, z) l h =
    let ((m, a), r, x, y) = queue_at-fits k p.queues l f in
    let i = bucket_index work.priority in
    let old = bucket_at i (queue_at k p.queues).ready in
    let (w, n, e, o) =
      enqueue-lem work old p.queued (bucket_at-WellFormed i (queue_at k p.queues).ready a) in
    let (a', s, m') =
      set_at-grown i (enqueue work (old, p.queued)).0 (queue_at k p.queues).ready
        (omega (arith, bucket_index-lt work.priority h, m)) a w n in
    grown-fits k
      (record (queue_at k p.queues) {
        ready = set_at i (enqueue work (old, p.queued)).0 (queue_at k p.queues).ready;
      })
      p (enqueue work (old, p.queued)).1 (f, c, z) l ((m' ∙ m, a'), r, x, y) (omega (arith, s)) e

enqueue_locked-fits :
    (owner current : Option ℕ) (work : Work) (p : Pool)
    → PoolFits p
    → IsWorker (length p.queues) owner
    → IsWorker (length p.queues) current
    → InRange work.priority
    → PoolFits (enqueue_locked owner current work p)
unfolding enqueue_locked
enqueue_locked-fits (some owner) current work p f h k l = enqueue_pinned-fits owner work p f h l
enqueue_locked-fits none (some worker) work p f h k l =
    enqueue_ready-fits worker work
      (record p { next_submission_queue = (p.next_submission_queue + 1) % 2 ^ 64 }) f k l
enqueue_locked-fits none none work p f h k l =
    enqueue_ready-fits (p.next_submission_queue % length p.queues) work
      (record p { next_submission_queue = (p.next_submission_queue + 1) % 2 ^ 64 }) f
      (mod-lt p.next_submission_queue (f.2)) l

Step-fits : (p u : Pool) → Step p u → PoolFits p → PoolFits u
Step-fits p u (enqueues owner current work h k l e) f =
    rw e (enqueue_locked-fits owner current work p f h k l)
Step-fits p u (serves worker work l e) f =
    (subst (Finds worker p) e (take_locked-Finds worker p f l)).0
Step-fits p u (finds_nothing worker l e) f =
    (subst (Finds worker p) e (take_locked-Finds worker p f l)).0

no_work-WellFormed : WellFormed no_work
no_work-WellFormed = (tt, (λ role. inr (refl, refl)), refl)

fresh-fits : QueueFits fresh_queue
fresh-fits =
    let e = no_work-WellFormed in
    (
      (refl, (e, (e, (e, (e, (e, (e, (e, tt)))))))),
      (refl, (e, (e, (e, (e, (e, (e, (e, tt)))))))),
      refl,
      refl,
    )

create-fits :
    (count : ℕ)
    → AllFit (fresh_queues count)
      × (total_size (fresh_queues count) ≡ 0)
      × (length (fresh_queues count) ≡ count)
create-fits zero = (tt, refl, refl)
create-fits (suc count) =
    let (a, t, l) = create-fits count in ((fresh-fits, a), omega (arith, t), ap suc l)

-- In every history of a scheduler with workers, all that is queued is counted; a further worker that
-- looks for work calls no `std::abort` and takes one piece of work, which it takes out of the front of
-- a lane: of its own lanes of pinned work, or of any worker's lanes of work that is not pinned. Every
-- other lane stays as it is. It finds nothing only where its own queues are empty and the other workers have no work
-- that is not pinned.
pub Reach-Pool :
    (count : ℕ) (u : Pool) (worker : ℕ)
    → 0 < count
    → Reach Step (create count) u
    → worker < length u.queues
    → PoolFits u × Finds worker u (take_locked worker u)
Reach-Pool count u worker some_worker r h =
    let (a, t, l) = create-fits count in
    let f = Reach-keeps Step PoolFits Step-fits (a, sym t, omega (arith, some_worker, l)) r in
    (f, take_locked-Finds worker u f h)
