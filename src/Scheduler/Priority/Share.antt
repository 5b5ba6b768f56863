-- ===== src/Scheduler/Priority/Share.antt =====
-- How often each priority is chosen, as long as the same ones have tasks.
use absolute.Prelude.{
  ℕ, zero, suc, ◌+◌, ◌*◌, ◌≤◌, ◌<◌, ◌≡◌, ◌⊎◌, inl, inr, refl, sym, ap, ◌∙◌, Bool, true, false, List,
  [], ◌∷◌, Option, none, some, arith, length,
}
use absolute.Prelude.Int.{ℤ, pos, ◌+ℤ◌, ◌-ℤ◌, pos_part, neg_part, +ℤ_parts, -ℤ_parts}
use absolute.Prelude.Words.{parts_normal}
use absolute.Scheduler.Priority.{Best, scan, spend_at, settle, choose, priority_weights}
use absolute.Scheduler.Priority.Scan.{
  gained, active_weight, Chosen, Most, NoneActive, Found, scan-gained, scan-Found,
}

-- One more for what was chosen.
abbrev pub tick : ℕ → List ℕ → List ℕ
tick k [] = []
tick zero (t ∷ ts) = suc t ∷ ts
tick (suc k) (t ∷ ts) = t ∷ tick k ts

abbrev pub count_choice : Option ℕ → List ℕ → List ℕ
count_choice none ts = ts
count_choice (some k) ts = tick k ts

-- The credits, and how often each priority was chosen, behind a number of choices.
unfoldable pub rounds : ℕ → List ℕ → List Bool → List ℤ × List ℕ → List ℤ × List ℕ
unfolding choose
rounds zero ws flags s = s
rounds (suc n) ws flags s =
    let (cs, ts) = rounds n ws flags s in
    let (cs', chosen) = choose ws flags cs in (cs', count_choice chosen ts)

abbrev pub zeros : List ℕ → List ℤ × List ℕ
zeros [] = ([], [])
zeros (w ∷ ws) = let (cs, ts) = zeros ws in (pos 0 ∷ cs, 0 ∷ ts)

-- Behind `n` choices, an active priority has earned its weight in each and paid `total` each time it
-- was chosen; others have no credit and were not chosen.
pub data Kept (n total : ℕ) : List ℕ → List Bool → List ℤ → List ℕ → Type 0 where
  ends : Kept n total [] [] [] []
  earns :
      (w : ℕ) (c : ℤ) (t : ℕ) {ws : List ℕ} {flags : List Bool} {cs : List ℤ} {ts : List ℕ}
      → pos_part c + total * t ≡ neg_part c + n * w
      → neg_part c ≤ total
      → Kept n total ws flags cs ts
      → Kept n total (w ∷ ws) (true ∷ flags) (c ∷ cs) (t ∷ ts)
  rests :
      (w : ℕ) {ws : List ℕ} {flags : List Bool} {cs : List ℤ} {ts : List ℕ}
      → Kept n total ws flags cs ts
      → Kept n total (w ∷ ws) (false ∷ flags) (pos 0 ∷ cs) (0 ∷ ts)

abbrev pub owned : List ℤ → ℕ
owned [] = 0
owned (c ∷ cs) = pos_part c + owned cs

abbrev pub owing : List ℤ → ℕ
owing [] = 0
owing (c ∷ cs) = neg_part c + owing cs

-- The share of each priority, with the bounds of its credits.
pub data Shares (n total bound : ℕ) : List ℕ → List Bool → List ℤ → List ℕ → Type 0 where
  ends : Shares n total bound [] [] [] []
  has :
      (w : ℕ) (c : ℤ) (t : ℕ) {ws : List ℕ} {flags : List Bool} {cs : List ℤ} {ts : List ℕ}
      → total * t ≤ n * w + total
      → n * w ≤ total * t + bound
      → neg_part c ≤ total
      → pos_part c ≤ bound
      → Shares n total bound ws flags cs ts
      → Shares n total bound (w ∷ ws) (true ∷ flags) (c ∷ cs) (t ∷ ts)
  rests :
      (w : ℕ) {ws : List ℕ} {flags : List Bool} {cs : List ℤ} {ts : List ℕ}
      → Shares n total bound ws flags cs ts
      → Shares n total bound (w ∷ ws) (false ∷ flags) (pos 0 ∷ cs) (0 ∷ ts)

module _ (n total : ℕ) where
  gained-Kept :
      {ws : List ℕ} {flags : List Bool} {cs : List ℤ} {ts : List ℕ}
      → Kept n total ws flags cs ts
      → Kept (suc n) total ws flags (gained ws flags cs) ts
        × (owned (gained ws flags cs) + owing cs
            ≡ owing (gained ws flags cs) + owned cs + active_weight ws flags)
  unfolding gained
  gained-Kept Kept.ends = (Kept.ends, refl)
  gained-Kept (earns w c t e b h) =
      let (k, s) = gained-Kept h in
      let p = +ℤ_parts c (pos w) in
      let x = parts_normal (c +ℤ pos w) in
      (earns w (c +ℤ pos w) t (omega (arith, e, p)) (omega (arith, b, p, x)) k, omega (arith, s, p))
  gained-Kept (Kept.rests w h) = let (k, s) = gained-Kept h in (Kept.rests w k, omega (arith, s))

  -- Where the greatest credit is negative, so are all.
  Most-negative :
      {ws : List ℕ} {flags : List Bool} {cs : List ℤ} {ts : List ℕ} (c : ℤ)
      → Kept n total ws flags cs ts
      → Most flags cs c
      → 0 < neg_part c
      → owned cs ≡ 0
  Most-negative c Kept.ends m k = refl
  Most-negative c (earns w x t e b h) (l, m) k =
      omega (arith, Most-negative c h m k, l, k, parts_normal c, parts_normal x)
  Most-negative c (Kept.rests w h) m k = omega (arith, Most-negative c h m k)

  Chosen-owing :
      (k : ℕ) {ws : List ℕ} {flags : List Bool} {cs : List ℤ} {ts : List ℕ} (c : ℤ)
      → Kept n total ws flags cs ts
      → Chosen k flags cs c
      → neg_part c ≤ owing cs
  Chosen-owing zero c Kept.ends h = absurd h
  Chosen-owing (suc k) c Kept.ends h = absurd h
  Chosen-owing zero c (earns w x t e b h) (f, g) = rw (sym g) (omega arith)
  Chosen-owing zero c (Kept.rests w h) (f, g) = ground (arith, f)
  Chosen-owing (suc k) c (earns w x t e b h) f = omega (arith, Chosen-owing k c h f)
  Chosen-owing (suc k) c (Kept.rests w h) f = omega (arith, Chosen-owing k c h f)

  spend_at-Kept :
      (k : ℕ) {ws : List ℕ} {flags : List Bool} {cs : List ℤ} {ts : List ℕ} (c : ℤ)
      → Kept n total ws flags cs ts
      → Chosen k flags cs c
      → neg_part c ≡ 0
      → Kept n total ws flags (spend_at k total cs) (tick k ts)
        × (owned (spend_at k total cs) + owing cs + total ≡ owing (spend_at k total cs) + owned cs)
  unfolding spend_at
  spend_at-Kept zero c Kept.ends f z = absurd f
  spend_at-Kept (suc k) c Kept.ends f z = absurd f
  spend_at-Kept zero c (earns w x t e b h) (f, g) z =
      let p = -ℤ_parts x (pos total) in
      let y = parts_normal (x -ℤ pos total) in
      let x_positive : neg_part x ≡ 0 = ap neg_part g ∙ z in
      (
        earns w (x -ℤ pos total) (suc t) (omega (arith, e, p)) (omega (arith, p, y, x_positive)) h,
        omega (arith, p),
      )
  spend_at-Kept zero c (Kept.rests w h) (f, g) z = ground (arith, f)
  spend_at-Kept (suc k) c (earns w x t e b h) f z =
      let (m, s) = spend_at-Kept k c h f z in (earns w x t e b m, omega (arith, s))
  spend_at-Kept (suc k) c (Kept.rests w h) f z =
      let (m, s) = spend_at-Kept k c h f z in (Kept.rests w m, omega (arith, s))

  owing-bound :
      {ws : List ℕ} {flags : List Bool} {cs : List ℤ} {ts : List ℕ}
      → Kept n total ws flags cs ts
      → owing cs ≤ length ws * total
  owing-bound Kept.ends = omega arith
  owing-bound (earns w x t e b h) = omega (arith, b, owing-bound h)
  owing-bound (Kept.rests w h) = omega (arith, owing-bound h)

  Kept-Shares :
      {ws : List ℕ} {flags : List Bool} {cs : List ℤ} {ts : List ℕ} (bound : ℕ)
      → Kept n total ws flags cs ts
      → owned cs ≤ bound
      → Shares n total bound ws flags cs ts
  Kept-Shares bound Kept.ends h = Shares.ends
  Kept-Shares bound (earns w x t e b k) h =
      has w x t (omega (arith, e, b)) (omega (arith, e, h)) b (omega (arith, h))
        (Kept-Shares bound k (omega (arith, h)))
  Kept-Shares bound (Kept.rests w k) h = Shares.rests w (Kept-Shares bound k (omega (arith, h)))

  Kept-lengths :
      {ws : List ℕ} {flags : List Bool} {cs : List ℤ} {ts : List ℕ}
      → Kept n total ws flags cs ts
      → (length flags ≡ length ws) × (length cs ≡ length ws)
  Kept-lengths Kept.ends = (refl, refl)
  Kept-lengths (earns w x t e b h) =
      let (p, q) = Kept-lengths h in (omega (arith, p), omega (arith, q))
  Kept-lengths (Kept.rests w h) =
      let (p, q) = Kept-lengths h in (omega (arith, p), omega (arith, q))

NoneActive-weight :
    (ws : List ℕ) (flags : List Bool) → NoneActive flags → active_weight ws flags ≡ 0
NoneActive-weight [] flags h = refl
NoneActive-weight (w ∷ ws) [] h = refl
NoneActive-weight (w ∷ ws) (true ∷ flags) (e, h) = ground (arith, e)
NoneActive-weight (w ∷ ws) (false ∷ flags) (e, h) = NoneActive-weight ws flags h

module _ (n : ℕ) (ws : List ℕ) (flags : List Bool) where
  settle-Kept :
      (cs : List ℤ) (ts : List ℕ) (last : Best)
      → Kept (suc n) (active_weight ws flags) ws flags cs ts
      → owned cs ≡ owing cs + active_weight ws flags
      → Found 0 none flags cs last
      → (let (cs', chosen) = settle (cs, active_weight ws flags, last) in
          Kept (suc n) (active_weight ws flags) ws flags cs' (count_choice chosen ts)
          × (owned cs' ≡ owing cs'))
  settle-Kept cs ts none k e (f, g) = (k, omega (arith, e, NoneActive-weight ws flags g))
  settle-Kept cs ts (some (c, j)) k e (inl f, m, b) = ground (arith, f)
  settle-Kept cs ts (some (c, j)) k e (inr (i, f, g), m, b) =
      let solvent : neg_part c ≡ 0 = elim (zero_or_more (neg_part c)) [
        | inl z ↦ z
        | inr owes ↦ absurd (
            omega (
              arith,
              e,
              owes,
              Most-negative (suc n) (active_weight ws flags) c k m owes,
              Chosen-owing (suc n) (active_weight ws flags) i c k g,
            ))
      ] in
      let same : j ≡ i = omega (arith, f) in
      let (l, s) = spend_at-Kept (suc n) (active_weight ws flags) i c k g solvent in
      rw same (l, omega (arith, s, e))
    where
      zero_or_more : (x : ℕ) → (x ≡ 0) ⊎ (0 < x)
      zero_or_more x = omega arith

  settled-Kept :
      (x : List ℤ × ℕ × Best) (cs : List ℤ) (ts : List ℕ)
      → x.0 ≡ cs
      → x.1 ≡ active_weight ws flags
      → Kept (suc n) (active_weight ws flags) ws flags cs ts
      → owned cs ≡ owing cs + active_weight ws flags
      → Found 0 none flags cs x.2
      → (let (cs', chosen) = settle x in
          Kept (suc n) (active_weight ws flags) ws flags cs' (count_choice chosen ts)
          × (owned cs' ≡ owing cs'))
  settled-Kept (credits, weight, last) cs ts p q k e f = rw (p, q) (settle-Kept cs ts last k e f)

  choose-Kept :
      (cs : List ℤ) (ts : List ℕ)
      → Kept n (active_weight ws flags) ws flags cs ts
      → owned cs ≡ owing cs
      → (let (cs', chosen) = choose ws flags cs in
          Kept (suc n) (active_weight ws flags) ws flags cs' (count_choice chosen ts)
          × (owned cs' ≡ owing cs'))
  unfolding choose
  choose-Kept cs ts k e =
      let (same_flags, same_credits) = Kept-lengths n (active_weight ws flags) k in
      let (p, q) = scan-gained 0 none ws flags cs same_flags same_credits in
      let (l, s) = gained-Kept n (active_weight ws flags) k in
      settled-Kept (scan 0 none ws flags cs) (gained ws flags cs) ts p q l (omega (arith, s, e))
        (scan-Found 0 none ws flags cs same_flags same_credits)

zeros-Kept :
    (total : ℕ) (ws : List ℕ) (flags : List Bool)
    → length flags ≡ length ws
    → Kept 0 total ws flags (zeros ws).0 (zeros ws).1
      × (owned (zeros ws).0 ≡ 0)
      × (owing (zeros ws).0 ≡ 0)
zeros-Kept total [] [] h = (Kept.ends, refl, refl)
zeros-Kept total [] (flag ∷ flags) h = ground (arith, h)
zeros-Kept total (w ∷ ws) [] h = ground (arith, h)
zeros-Kept total (w ∷ ws) (true ∷ flags) h =
    let (k, p, q) = zeros-Kept total ws flags (omega (arith, h)) in
    (earns w (pos 0) 0 (omega arith) (omega arith) k, omega (arith, p), omega (arith, q))
zeros-Kept total (w ∷ ws) (false ∷ flags) h =
    let (k, p, q) = zeros-Kept total ws flags (omega (arith, h)) in
    (Kept.rests w k, omega (arith, p), omega (arith, q))

rounds-Kept :
    (n : ℕ) (ws : List ℕ) (flags : List Bool)
    → length flags ≡ length ws
    → (let (cs, ts) = rounds n ws flags (zeros ws) in
        Kept n (active_weight ws flags) ws flags cs ts × (owned cs ≡ owing cs))
unfolding rounds
rounds-Kept zero ws flags h =
    let (k, p, q) = zeros-Kept (active_weight ws flags) ws flags h in (k, omega (arith, p, q))
rounds-Kept (suc n) ws flags h =
    let (k, p) = rounds-Kept n ws flags h in choose-Kept n ws flags _ _ k p

-- Each priority gets its share: where every credit is 0 at first, as in a new scheduler, and the same
-- priorities have tasks from then on, behind `n` choices one of weight `w` was chosen `t` times, where `t` times the weight of all that have tasks is not more
-- than `n * w` and once that weight, and not less than `n * w` without a bound: the weight for each
-- priority that there is. The bound also holds for its credit, and a priority without tasks is never
-- chosen.
pub rounds-Shares :
    (n : ℕ) (flags : List Bool)
    → length flags ≡ length priority_weights
    → let total = active_weight priority_weights flags in
      let (cs, ts) = rounds n priority_weights flags (zeros priority_weights) in
      Shares n total (7 * total) priority_weights flags cs ts
rounds-Shares n flags h =
    let total = active_weight priority_weights flags in
    let (k, p) = rounds-Kept n priority_weights flags h in
    Kept-Shares n total (7 * total) k (omega (arith, p, owing-bound n total k))
