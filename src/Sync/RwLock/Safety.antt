-- ===== src/Sync/RwLock/Safety.antt =====
-- The invariant of a read-write lock, in every history.
use absolute.Prelude.{
  ℕ, suc, ◌+◌, ◌<◌, ◌≡◌, ◌⊎◌, inl, inr, refl, sym, ap, ap₂, ◌∙◌, ==_iff, Bool, true, false, List,
  [], ◌∷◌, arith, length, ◌==◌, if◌then◌else◌, Bool-cases, none, some, length-append,
}
use absolute.Sync.{Caller, queue_up, front, behind, Reach, Reach-keeps}
use absolute.Sync.RwLock.{RwLock, one_less, unlock_read, registered_writers, unlock_write}
use absolute.Sync.RwLock.Histories.{
  System, start, native, Step, reads, reader_sleeps, tries_read, stops_reading, writes,
  writer_sleeps, tries_write, stops_writing, stray_unlock_read, stray_unlock_write, Inv,
  lock_read-returns, lock_read-waits, try_lock_read-true, lock_write-returns, lock_write-waits,
  try_lock_write-true,
}

queue_up-length :
    (caller : Caller) (xs : List ℕ) → native caller + length (queue_up caller xs) ≡ suc (length xs)
queue_up-length none xs = omega arith
queue_up-length (some task) xs = omega (arith, length-append xs (task ∷ []))

front-length : (xs : List ℕ) → length (behind xs) + length (front xs) ≡ length xs
front-length [] = refl
front-length (x ∷ xs) = omega arith

behind-empty : (n : ℕ) (xs : List ℕ) → (behind xs ≡ []) ⊎ (0 < n + length (front xs))
behind-empty n [] = inl refl
behind-empty n (x ∷ xs) = inr (omega arith)

List-cases : (xs : List ℕ) → (xs ≡ []) ⊎ ((y : ℕ) × (ys : List ℕ) × (xs ≡ y ∷ ys))
List-cases [] = inl refl
List-cases (x ∷ xs) = inr (x, xs, refl)

-- A writer that is new, resumed or outside the scheduler is counted once.
counted :
    (registered : Bool) (l : RwLock) (woken outside n k : ℕ)
    → woken + outside ≡ (if registered then 1 else 0)
    → l.waiting_writers ≡ length l.writer_waiters + (woken + n) + (outside + k)
    → registered_writers registered l ≡ suc (length l.writer_waiters + n + k)
counted true l woken outside n k e c = omega arith
counted false l woken outside n k e c = omega arith

-- A reader that stops.
unlock_read-Inv :
    (s : System) (h : ℕ)
    → s.reading ≡ suc h
    → Inv s
    → (let (m, tasks) = unlock_read s.lock in
        Inv (record s { lock = m; reading = h; woken_writers = s.woken_writers + length tasks }))
unfolding unlock_read
unlock_read-Inv s h held ((r, w, x), c, (a, b)) = elim (Bool-cases (s.lock.readers == 0)) [
  | inl zero_left ↦ ground (arith, held, r, zero_left)
  | inr some_left ↦ elim (Bool-cases (s.lock.readers == 1)) [
    | inl last ↦
        rw (some_left, last)
          (
            (omega (arith, held, r, (==_iff s.lock.readers 1).0 last), w, inr refl),
            omega (arith, c, front-length s.lock.writer_waiters),
            (
              a,
              elim (behind-empty s.woken_writers s.lock.writer_waiters) [
                | inl none_left ↦ inl none_left
                | inr one_woken ↦ inr (inr (inr one_woken))
              ],
            ),
          )
    | inr others ↦
        let before : s.lock.readers ≡ suc h = sym r ∙ held in
        let fewer : one_less s.lock.readers ≡ h = ap one_less before in
        rw (some_left, others, fewer)
          (
            (refl, w, ground (arith, x, before, others)),
            omega (arith, c),
            (a, inr (inr (inl (ground (arith, before, others))))),
          )
  ]
]

unlock_write-Inv :
    (s : System) (h : ℕ)
    → s.writing ≡ suc h
    → Inv s
    → (let (m, (writers, readers)) = unlock_write s.lock in
        Inv (record s {
          lock = m;
          writing = h;
          woken_writers = s.woken_writers + length writers;
          woken_readers = s.woken_readers + length readers;
        }))
unfolding unlock_write
unlock_write-Inv s h held ((r, w, x), c, (a, b)) = elim (Bool-cases s.lock.writer) [
  | inr free ↦ ground (arith, held, w, free)
  | inl busy ↦ elim (List-cases s.lock.writer_waiters) [
    | inl empty ↦
        rw (busy, empty)
          ((r, ground (arith, held, w, busy), inl refl), omega (arith, c), (inl refl, inl empty))
    | inr (y, ys, e) ↦
        rw (busy, e)
          (
            (r, ground (arith, held, w, busy), inl refl),
            omega (arith, c, ap length e),
            (inr (inr (omega (arith, c, ap length e))), inr (inr (inr (omega arith)))),
          )
  ]
]

unlock_read-unheld : (l : RwLock) → l.readers ≡ 0 → unlock_read l ≡ (l, [])
unfolding unlock_read
unlock_read-unheld l h = ground (arith, h)

unlock_write-unheld : (l : RwLock) → l.writer ≡ false → unlock_write l ≡ (l, ([], []))
unfolding unlock_write
unlock_write-unheld l h = rw h refl

Step-Inv : (s u : System) → Step s u → Inv s → Inv u
Step-Inv s u (reads caller again n m k e f g) ((r, w, x), c, (a, b)) =
    let (free, alone, i) = lock_read-returns caller s.lock m f in
    rw (g, i) ((omega (arith, r), w, inl free), c, (a, inr (inr (inl (omega arith)))))
Step-Inv s u (reader_sleeps caller again n m k e f g) ((r, w, x), c, (a, b)) =
    let (busy, i) = lock_read-waits caller s.lock m f in rw (g, i) ((r, w, x), c, (inr busy, b))
Step-Inv s u (tries_read m f g) ((r, w, x), c, (a, b)) =
    let (free, alone, i) = try_lock_read-true s.lock m f in
    rw (g, i) ((omega (arith, r), w, inl free), c, (a, inr (inr (inl (omega arith)))))
Step-Inv s u (stops_reading h held g) v = rw g (unlock_read-Inv s h held v)
Step-Inv s u (writes registered caller woken outside n k m e f g i j) ((r, w, x), c, (a, b)) =
    let (free, alone, l) = lock_write-returns registered caller s.lock m i in
    rw (j, l)
      (
        (r, ground (arith, w, free), inr alone),
        omega (
          arith,
          counted registered s.lock woken outside n k e
              (c ∙ ap₂ (λ p q. length s.lock.writer_waiters + p + q) f g),
        ),
        (inr (inl refl), inr (inl refl)),
      )
Step-Inv s u (writer_sleeps registered caller woken outside n k m e f g i j)
      ((r, w, x), c, (a, b)) =
    let (busy, l) = lock_write-waits registered caller s.lock m i in
    let counts =
      counted registered s.lock woken outside n k e
        (c ∙ ap₂ (λ p q. length s.lock.writer_waiters + p + q) f g) in
    rw (j, l)
      (
        (r, w, x),
        omega (arith, counts, queue_up-length caller s.lock.writer_waiters),
        (
          inr (inr (omega (arith, counts))),
          elim busy [ inl q ↦ inr (inl q) | inr q ↦ inr (inr (inl q)) ],
        ),
      )
Step-Inv s u (tries_write m f g) ((r, w, x), c, (a, b)) =
    let (free, alone, i) = try_lock_write-true s.lock m f in
    rw (g, i) ((r, ground (arith, w, free), inr alone), c, (inr (inl refl), inr (inl refl)))
Step-Inv s u (stops_writing h held g) v = rw g (unlock_write-Inv s h held v)
Step-Inv s u (stray_unlock_read none_reads g) ((r, w, x), c, (a, b)) =
    rw (g, unlock_read-unheld s.lock (sym r ∙ none_reads))
      ((r, w, x), omega (arith, c), (a, ground (arith, b)))
Step-Inv s u (stray_unlock_write none_writes g) ((r, w, x), c, (a, b)) =
    rw (g, unlock_write-unheld s.lock (ground (arith, w, none_writes)))
      ((r, w, x), omega (arith, c), (a, ground (arith, b)))

-- In every history in which no caller gives back a lock that only others hold (it may give back one
-- that nobody holds), the lock has one writer and no reader, or no writer and any number of readers.
-- A reader that waits does so while there is a writer or one is registered, and a writer while the
-- lock is held or a resumed writer has not run yet: no wake-up is lost.
pub Reach-RwLock : (u : System) → Reach Step start u → Inv u
Reach-RwLock u = Reach-keeps Step Inv Step-Inv ((refl, refl, inl refl), refl, (inl refl, inl refl))
