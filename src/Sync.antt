-- ===== src/Sync.antt =====
-- Absolute-Runtime/src/tasks.cpp: the objects by which tasks wait for one another. A function that
-- waits is modelled by one round of its loop, which holds the lock of the object from start to end;
-- rounds of several callers follow one another in any order. A task that is resumed goes through the
-- loop again; a thread outside the scheduler waits for its condition, and also does so.
pub mod Mutex
pub mod Semaphore
pub mod RwLock
pub mod Condition
pub mod Once
pub mod Channel
pub mod Atomic
mod Examples
use mathlib.Core.List.{append_assoc}
use absolute.Prelude.{
  ℕ, ◌+◌, ◌<◌, ◌≡◌, ◌⊎◌, inl, inr, true, false, refl, sym, ap, ◌∙◌, arith, length, List, [], ◌∷◌,
  ◌++◌, Option, none, some,
}

-- Who runs a round: a task, by its number, or a thread outside the scheduler (`currentTask` null).
abbrev pub Caller : Type 0
Caller = Option ℕ

-- The end of a round: the call returns and resumes tasks, or the caller waits.
pub data Round (S A : Type 0) : Type 0 where
  returns : A → S → List ℕ → Round S A
  waits : S → Round S A

-- `waiters.push_back(currentTask)`, where there is one.
abbrev pub queue_up : Caller → List ℕ → List ℕ
queue_up none waiters = waiters
queue_up (some task) waiters = waiters ++ task ∷ []

-- The front of a queue, as a list of one or none, and what is behind it.
abbrev pub front : {A : Type 0} → List A → List A
front [] = []
front (x ∷ xs) = x ∷ []

abbrev pub behind : {A : Type 0} → List A → List A
behind [] = []
behind (x ∷ xs) = xs

-- A call on a null handle returns `default` and does nothing.
abbrev pub on_handle : {S A : Type 0} → A → (S → A × S) → Option S → A × Option S
on_handle default call none = (default, none)
on_handle default call (some state) = let (a, after) = call state in (a, some after)

-- What a chain of steps leads to.
pub data Reach {S : Type 0} (Step : S → S → Type 0) (s : S) : S → Type 0 where
  here : Reach Step s s
  next : {t u : S} → Reach Step s t → Step t u → Reach Step s u

-- An invariant that holds at the start and is kept by each step holds in what is reached.
pub Reach-keeps :
    {S : Type 0} (Step : S → S → Type 0) (I : S → Type 0) {s u : S}
    → ((t t' : S) → Step t t' → I t → I t')
    → I s
    → Reach Step s u
    → I u
Reach-keeps Step I keeps h here = h
Reach-keeps Step I keeps h (next r step) = keeps _ _ step (Reach-keeps Step I keeps h r)

pub front-behind : {A : Type 0} (xs : List A) → front xs ++ behind xs ≡ xs
front-behind [] = refl
front-behind (x ∷ xs) = refl

pub queue_up-append :
    (caller : Caller) (xs ys : List ℕ) → queue_up caller (xs ++ ys) ≡ xs ++ queue_up caller ys
queue_up-append none xs ys = refl
queue_up-append (some task) xs ys = append_assoc xs ys (task ∷ [])

-- A queue is empty behind its front, or its front was there.
pub behind-woken :
    {A : Type 0} (xs : List A) (n : ℕ)
    → (behind xs ≡ []) ⊎ ((false ≡ true) ⊎ (0 < n + length (front xs)))
behind-woken [] n = inl refl
behind-woken (x ∷ xs) n = inr (inr (omega arith))

pub resumed-front : {A : Type 0} (xs ys : List A) → xs ++ ys ≡ (xs ++ front ys) ++ behind ys
resumed-front xs ys =
    ap (xs ++◌) (sym (front-behind ys)) ∙ sym (append_assoc xs (front ys) (behind ys))
