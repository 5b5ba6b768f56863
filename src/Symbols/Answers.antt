-- ===== src/Symbols/Answers.antt =====
-- Absolute-Analyzer/src/symbol_table.cpp: what `Lookup` finds after any calls.
use absolute.Prelude.{
  ℕ, zero, suc, ◌+◌, ◌≤◌, ◌<◌, ◌≡◌, ◌⊎◌, inl, inr, refl, ap, ◌∙◌, List, [], ◌∷◌, Option, none, some,
  arith, length, get_elem?, Option-cases,
}
use absolute.Prelude.Texts.{Text}
use absolute.Sync.{Reach, Reach-keeps}
use absolute.Symbols.{
  Symbol, invalid_symbol_id, Scope, SymbolTable, reset, scope_depth, find, get, lookup_in, lookup,
}
use absolute.Symbols.Histories.{Step, AllBound, Numbered, WellFormed, Step-WellFormed}

abbrev pub IsUnknown : Text → List Scope → Type 0
IsUnknown name [] = Unit
IsUnknown name (s ∷ ss) = (find name s ≡ none) × IsUnknown name ss

abbrev pub Answered : List Symbol → List Scope → Text → Type 0
Answered symbols scopes name =
    (IsUnknown name scopes × (lookup_in scopes name ≡ invalid_symbol_id))
    ⊎ ((s : Symbol) × (get_elem? symbols (lookup_in scopes name) ≡ some s)
        × (s.name ≡ name)
        × (s.scope_depth < length scopes))

lookup_in-none :
    (s : Scope) (ss : List Scope) (name : Text)
    → find name s ≡ none
    → lookup_in (s ∷ ss) name ≡ lookup_in ss name
unfolding lookup_in
lookup_in-none s ss name e = rw (e, lookup_in) refl

lookup_in-some :
    (s : Scope) (ss : List Scope) (name : Text) (id : ℕ)
    → find name s ≡ some id
    → lookup_in (s ∷ ss) name ≡ id
unfolding lookup_in
lookup_in-some s ss name id e = rw (e, lookup_in) refl

lookup_in-Answered :
    (symbols : List Symbol) (scopes : List Scope) (name : Text)
    → AllBound symbols scopes
    → Answered symbols scopes name
unfolding lookup_in
lookup_in-Answered symbols [] name h = inl (tt, refl)
lookup_in-Answered symbols (s ∷ ss) name (h, later) = elim (Option-cases (find name s)) [
  | inr (id, e) ↦
      let (x, g, n, d) = h name id e in
      inr (x, rw (lookup_in-some s ss name id e) g, n, omega (arith, d))
  | inl e ↦ elim (lookup_in-Answered symbols ss name later) [
    | inl (u, i) ↦ inl ((e, u), lookup_in-none s ss name e ∙ i)
    | inr (x, g, n, d) ↦ inr (x, rw (lookup_in-none s ss name e) g, n, omega (arith, d))
  ]
]

Numbered-id :
    (i j : ℕ) (ss : List Symbol) (s : Symbol)
    → Numbered i ss
    → get_elem? ss j ≡ some s
    → s.id ≡ i + j
Numbered-id i j [] s h g = cc
Numbered-id i zero (x ∷ ss) s (e, h) g = omega (arith, e, ap (λ r. r.id) (some-injective g))
  where
    some-injective : {a b : Symbol} → ◌≡◌ {A = Option Symbol} (some a) (some b) → a ≡ b
    some-injective q = cc
Numbered-id i (suc j) (x ∷ ss) s (e, h) g = omega (arith, Numbered-id (suc i) j ss s h g)

reset-WellFormed : WellFormed reset
unfolding find
reset-WellFormed = (omega arith, tt, (λ name id f. absurd (none_some f), tt))
  where
    none_some : {id : ℕ} → ◌≡◌ {A = Option ℕ} none (some id) → ⊥
    none_some h = cc

-- After any calls on a symbol table, with fewer symbols than `InvalidSymbolId`, each symbol that
-- `Get` returns has the id that it was asked for, and for each name either no scope has the name
-- and `Lookup` returns `InvalidSymbolId`, or it returns an id whose symbol has that name and was
-- declared at a depth that is not left.
pub Reach-SymbolTable :
    (t : SymbolTable)
    → Reach Step reset t
    → ((id : ℕ) (s : Symbol) → get t id ≡ some s → s.id ≡ id)
      × ((name : Text)
          → (IsUnknown name t.scopes × (lookup t name ≡ invalid_symbol_id))
            ⊎ ((s : Symbol) × (get t (lookup t name) ≡ some s)
                × (s.name ≡ name)
                × (s.scope_depth ≤ scope_depth t)))
unfolding get lookup scope_depth
Reach-SymbolTable t r =
    let (l, n, b) = Reach-keeps Step WellFormed Step-WellFormed reset-WellFormed r in
    (
      λ id s g. omega (arith, Numbered-id 0 id t.symbols s n g),
      λ name. elim (lookup_in-Answered t.symbols t.scopes name b) [
        | inl unknown ↦ inl unknown
        | inr (s, g, e, d) ↦ inr (s, g, e, omega (arith, d, l))
      ],
    )
