-- ===== src/Scheduler/Queue/Taking.antt =====
-- What a worker takes from its own queues, and what another takes from them.
use absolute.Prelude.{
  ℕ, zero, suc, ◌+◌, ◌≤◌, ◌<◌, ◌≡◌, ◌⊎◌, inl, inr, refl, sym, ap, ◌∙◌, Bool, true, false, List, [],
  ◌∷◌, Option, none, some, if◌then◌else◌, arith, length,
}
use absolute.Scheduler.Priority.{active, choose, choose_priority, priority_weights}
use absolute.Scheduler.Priority.Scan.{NoneActive}
use absolute.Scheduler.Lanes.{Bucket, Taken, take}
use absolute.Scheduler.Lanes.Forms.{WellFormed}
use absolute.Scheduler.Lanes.Service.{Serves, take-Serves}
use absolute.Scheduler.Queue.{
  WorkerQueue, counts, bucket_at, set_at, Took, nothing, takes, aborts, put_back, take_pinned,
  take_ready_at, use_pinned, turn, take_local_at, take_local, take_stealable_at, take_stealable,
}
use absolute.Scheduler.Queue.Removal.{TakesFrom, set_at-Removes}
use absolute.Scheduler.Queue.Sizes.{work_in, AllFormed, ActiveAt, Selects, choose-Selects}

length-active : (rs ps : List Bucket) → length (active (counts rs) (some (counts ps))) ≡ length rs
unfolding active
length-active [] ps = refl
length-active (r ∷ rs) [] = ap suc (length-active rs [])
length-active (r ∷ rs) (p ∷ ps) = ap suc (length-active rs ps)

length-active_ready : (rs : List Bucket) → length (active (counts rs) none) ≡ length rs
unfolding active
length-active_ready [] = refl
length-active_ready (r ∷ rs) = ap suc (length-active_ready rs)

ActiveAt-both :
    (k : ℕ) (rs ps : List Bucket)
    → ActiveAt k (active (counts rs) (some (counts ps)))
    → (0 < (bucket_at k rs).count) ⊎ (0 < (bucket_at k ps).count)
unfolding active
ActiveAt-both zero [] ps h = absurd h
ActiveAt-both (suc k) [] ps h = absurd h
ActiveAt-both zero (r ∷ rs) [] h = inl (ground (arith, h))
ActiveAt-both zero (r ∷ rs) (p ∷ ps) h = ground (arith, h)
ActiveAt-both (suc k) (r ∷ rs) [] h = ActiveAt-both k rs [] h
ActiveAt-both (suc k) (r ∷ rs) (p ∷ ps) h = ActiveAt-both k rs ps h

ActiveAt-ready :
    (k : ℕ) (rs : List Bucket) → ActiveAt k (active (counts rs) none) → 0 < (bucket_at k rs).count
unfolding active
ActiveAt-ready zero [] h = absurd h
ActiveAt-ready (suc k) [] h = absurd h
ActiveAt-ready zero (r ∷ rs) h = ground (arith, h)
ActiveAt-ready (suc k) (r ∷ rs) h = ActiveAt-ready k rs h

NoneActive-both :
    (rs ps : List Bucket)
    → length ps ≡ length rs
    → NoneActive (active (counts rs) (some (counts ps)))
    → work_in rs + work_in ps ≡ 0
unfolding active
NoneActive-both [] [] h n = refl
NoneActive-both [] (p ∷ ps) h n = ground (arith, h)
NoneActive-both (r ∷ rs) [] h n = ground (arith, h)
NoneActive-both (r ∷ rs) (p ∷ ps) h (e, n) =
    ground (arith, e, NoneActive-both rs ps (omega (arith, h)) n)

NoneActive-ready : (rs : List Bucket) → NoneActive (active (counts rs) none) → work_in rs ≡ 0
unfolding active
NoneActive-ready [] n = refl
NoneActive-ready (r ∷ rs) (e, n) = ground (arith, e, NoneActive-ready rs n)

pub bucket_at-WellFormed : (k : ℕ) (bs : List Bucket) → AllFormed bs → WellFormed (bucket_at k bs)
bucket_at-WellFormed zero [] h = (tt, (λ r. inr (refl, refl)), refl)
bucket_at-WellFormed (suc k) [] h = (tt, (λ r. inr (refl, refl)), refl)
bucket_at-WellFormed zero (b ∷ bs) (f, h) = f
bucket_at-WellFormed (suc k) (b ∷ bs) (f, h) = bucket_at-WellFormed k bs h

bucket_at-work_in : (k : ℕ) (bs : List Bucket) → (bucket_at k bs).count ≤ work_in bs
bucket_at-work_in zero [] = omega arith
bucket_at-work_in (suc k) [] = omega arith
bucket_at-work_in zero (b ∷ bs) = omega arith
bucket_at-work_in (suc k) (b ∷ bs) = omega (arith, bucket_at-work_in k bs)

-- A bucket with work that is replaced.
set_at-lem :
    (k : ℕ) (b : Bucket) (bs : List Bucket)
    → AllFormed bs
    → WellFormed b
    → 0 < (bucket_at k bs).count
    → AllFormed (set_at k b bs)
      × (work_in (set_at k b bs) + (bucket_at k bs).count ≡ work_in bs + b.count)
      × (length (set_at k b bs) ≡ length bs)
set_at-lem zero b [] h f p = absurd (omega (arith, p))
set_at-lem (suc k) b [] h f p = absurd (omega (arith, p))
set_at-lem zero b (x ∷ bs) (g, h) f p = ((f, h), omega arith, refl)
set_at-lem (suc k) b (x ∷ bs) (g, h) f p =
    let (a, w, l) = set_at-lem k b bs h f p in ((g, a), omega (arith, w), ap suc l)

abbrev pub QueueFits : WorkerQueue → Type 0
QueueFits q =
    ((length q.ready ≡ 7) × AllFormed q.ready)
    × ((length q.pinned ≡ 7) × AllFormed q.pinned)
    × (length q.local_credits ≡ 7)
    × (length q.steal_credits ≡ 7)

abbrev pub size : WorkerQueue → ℕ
size q = work_in q.ready + work_in q.pinned

-- A call that takes one piece of work out of the queue, or finds `left` to be 0.
abbrev pub TakesOne : WorkerQueue → ℕ → (left : ℕ) → Took → Type 0
TakesOne q queued left (nothing q') =
    QueueFits q' × (left ≡ 0) × (q'.ready ≡ q.ready) × (q'.pinned ≡ q.pinned)
TakesOne q queued left (takes work q' rest) =
    QueueFits q' × (size q ≡ size q' + 1) × (queued ≡ rest + 1) × TakesFrom work q q'
TakesOne q queued left aborts = ⊥

ready-taken :
    (k : ℕ) (q : WorkerQueue) (queued left : ℕ) (t : Taken)
    → QueueFits q
    → 0 < (bucket_at k q.ready).count
    → Serves (bucket_at k q.ready) queued t
    → TakesOne q queued left (put_back (λ b. record q { ready = set_at k b q.ready }) q t)
ready-taken k q queued left Taken.nothing h p (e, f) = absurd (omega (arith, e, p))
ready-taken k q queued left Taken.aborts h p s = absurd s
ready-taken k q queued left (Taken.takes work b rest) ((l, a), h, x, y) p (w, c, r, s, o) =
    let (a', e, l') = set_at-lem k b q.ready a w p in
    (
      ((l' ∙ l, a'), h, x, y),
      omega (arith, e, c),
      r,
      inl (set_at-Removes k work b q.ready p s, refl),
    )

pinned-taken :
    (k : ℕ) (q : WorkerQueue) (queued left : ℕ) (t : Taken)
    → QueueFits q
    → 0 < (bucket_at k q.pinned).count
    → Serves (bucket_at k q.pinned) queued t
    → TakesOne q queued left (put_back (λ b. record q { pinned = set_at k b q.pinned }) q t)
pinned-taken k q queued left Taken.nothing h p (e, f) = absurd (omega (arith, e, p))
pinned-taken k q queued left Taken.aborts h p s = absurd s
pinned-taken k q queued left (Taken.takes work b rest) (r, (l, a), x, y) p (w, c, n, s, o) =
    let (a', e, l') = set_at-lem k b q.pinned a w p in
    (
      (r, (l' ∙ l, a'), x, y),
      omega (arith, e, c),
      n,
      inr (set_at-Removes k work b q.pinned p s, refl),
    )

pinned-positive :
    (k : ℕ) (q : WorkerQueue) → use_pinned k q ≡ true → 0 < (bucket_at k q.pinned).count
pinned-positive k q h = ground (arith, h)

ready-positive :
    (k : ℕ) (q : WorkerQueue)
    → use_pinned k q ≡ false
    → (0 < (bucket_at k q.ready).count) ⊎ (0 < (bucket_at k q.pinned).count)
    → 0 < (bucket_at k q.ready).count
ready-positive k q h p = ground (arith, h, p)

local-taken :
    (k : ℕ) (q : WorkerQueue) (queued left : ℕ)
    → QueueFits q
    → size q ≤ queued
    → ActiveAt k (active (counts q.ready) (some (counts q.pinned)))
    → TakesOne q queued left (take_local_at (some k) q queued)
unfolding take_local_at
local-taken k q queued left (r, p, x, y) n a = by_turn (use_pinned k q) refl
  where
    by_turn :
        (b : Bool)
        → use_pinned k q ≡ b
        → TakesOne q queued left
            (if b then take_pinned k (turn k q) queued else take_ready_at k (turn k q) queued)
    by_turn true e =
        pinned-taken k (turn k q) queued left (take (bucket_at k q.pinned) queued) (r, p, x, y)
          (pinned-positive k q e)
          (take-Serves (bucket_at k q.pinned) queued (bucket_at-WellFormed k q.pinned (p.1))
            (omega (arith, n, bucket_at-work_in k q.pinned)))
    by_turn false e =
        ready-taken k (turn k q) queued left (take (bucket_at k q.ready) queued) (r, p, x, y)
          (ready-positive k q e (ActiveAt-both k q.ready q.pinned a))
          (take-Serves (bucket_at k q.ready) queued (bucket_at-WellFormed k q.ready (r.1))
            (omega (arith, n, bucket_at-work_in k q.ready)))

local_at-taken :
    (selected : Option ℕ) (q : WorkerQueue) (queued : ℕ)
    → QueueFits q
    → size q ≤ queued
    → Selects (active (counts q.ready) (some (counts q.pinned))) selected
    → TakesOne q queued (size q) (take_local_at selected q queued)
unfolding take_local_at
local_at-taken none q queued (r, p, x, y) n s =
    ((r, p, x, y), NoneActive-both q.ready q.pinned (p.0 ∙ sym (r.0)) s, refl, refl)
local_at-taken (some k) q queued h n s = local-taken k q queued (size q) h n s

stealable_at-taken :
    (selected : Option ℕ) (q : WorkerQueue) (queued : ℕ)
    → QueueFits q
    → size q ≤ queued
    → Selects (active (counts q.ready) none) selected
    → TakesOne q queued (work_in q.ready) (take_stealable_at selected q queued)
unfolding take_stealable_at
stealable_at-taken none q queued h n s = (h, NoneActive-ready q.ready s, refl, refl)
stealable_at-taken (some k) q queued (r, p, x, y) n s =
    ready-taken k q queued (work_in q.ready) (take (bucket_at k q.ready) queued) (r, p, x, y)
      (ActiveAt-ready k q.ready s)
      (take-Serves (bucket_at k q.ready) queued (bucket_at-WellFormed k q.ready (r.1))
        (omega (arith, n, bucket_at-work_in k q.ready)))

-- A worker that looks in its own queues takes one piece of work, which is counted, and finds nothing
-- only where they are empty: a priority with work is chosen, and no call of `std::abort` is reached.
pub take_local-TakesOne :
    (q : WorkerQueue) (queued : ℕ)
    → QueueFits q
    → size q ≤ queued
    → TakesOne q queued (size q) (take_local q queued)
unfolding take_local choose_priority
take_local-TakesOne q queued (r, p, x, y) n =
    let flags = active (counts q.ready) (some (counts q.pinned)) in
    let (l, s) = choose-Selects flags q.local_credits (length-active q.ready q.pinned ∙ r.0) x in
    local_at-taken (choose priority_weights flags q.local_credits).1
      (record q { local_credits = (choose priority_weights flags q.local_credits).0 }) queued
      (r, p, l, y) n s

-- So does a worker that takes from the queues of another, but it finds only work that is not pinned.
pub take_stealable-TakesOne :
    (q : WorkerQueue) (queued : ℕ)
    → QueueFits q
    → size q ≤ queued
    → TakesOne q queued (work_in q.ready) (take_stealable q queued)
unfolding take_stealable choose_priority
take_stealable-TakesOne q queued (r, p, x, y) n =
    let flags = active (counts q.ready) none in
    let (l, s) = choose-Selects flags q.steal_credits (length-active_ready q.ready ∙ r.0) y in
    stealable_at-taken (choose priority_weights flags q.steal_credits).1
      (record q { steal_credits = (choose priority_weights flags q.steal_credits).0 }) queued
      (r, p, x, l) n s

abbrev pub KeepsPinned : WorkerQueue → Took → Type 0
KeepsPinned q (nothing q') = q'.pinned ≡ q.pinned
KeepsPinned q (takes work q' queued) = q'.pinned ≡ q.pinned
KeepsPinned q aborts = Unit

put_back-KeepsPinned :
    (k : ℕ) (q : WorkerQueue) (t : Taken)
    → KeepsPinned q (put_back (λ b. record q { ready = set_at k b q.ready }) q t)
put_back-KeepsPinned k q Taken.nothing = refl
put_back-KeepsPinned k q (Taken.takes work b queued) = refl
put_back-KeepsPinned k q Taken.aborts = tt

stealable_at-KeepsPinned :
    (selected : Option ℕ) (q : WorkerQueue) (queued : ℕ)
    → KeepsPinned q (take_stealable_at selected q queued)
unfolding take_stealable_at
stealable_at-KeepsPinned none q queued = refl
stealable_at-KeepsPinned (some k) q queued =
    put_back-KeepsPinned k q (take (bucket_at k q.ready) queued)

pub take_stealable-KeepsPinned :
    (q : WorkerQueue) (queued : ℕ) → KeepsPinned q (take_stealable q queued)
unfolding take_stealable choose_priority
take_stealable-KeepsPinned q queued =
    let flags = active (counts q.ready) none in
    stealable_at-KeepsPinned (choose priority_weights flags q.steal_credits).1
      (record q { steal_credits = (choose priority_weights flags q.steal_credits).0 }) queued
