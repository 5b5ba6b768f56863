-- ===== src/Symbols/Histories.antt =====
-- Absolute-Analyzer/src/symbol_table.cpp: the calls on a symbol table, in any order, with fewer
-- symbols than `InvalidSymbolId`.
use absolute.Prelude.{
  ℕ, zero, suc, ◌+◌, ◌-◌, ◌<◌, ◌≡◌, ◌⊎◌, inl, inr, refl, sym, ap, ◌∙◌, List, [], ◌∷◌, ◌++◌, Option,
  none, some, Bool-cases, Option-cases, arith, length, get_elem?,
}
use mathlib.Core.Path.{subst}
use absolute.Prelude.Texts.{Text, text_eq, text_eq→eq}
use absolute.Symbols.{
  SymbolKind, SymbolDetails, Symbol, invalid_symbol_id, Scope, SymbolTable, enter_scope, outer,
  exit_scope, scope_depth, find, try_emplace, innermost, with_scope, is_refused, next_id,
  bind_innermost, default_details, appended, declare, append_specialization,
}

-- A write through the pointer of `Get` to the fields the table does not look at.
abbrev pub with_details : ℕ → SymbolDetails → List Symbol → List Symbol
with_details i d [] = []
with_details zero d (s ∷ ss) = record s { details = d } ∷ ss
with_details (suc i) d (s ∷ ss) = s ∷ with_details i d ss

abbrev pub HasRoom : SymbolTable → Type 0
HasRoom t = length t.symbols < invalid_symbol_id

pub data Step (t u : SymbolTable) : Type 0 where
  enters : u ≡ enter_scope t → Step t u
  exits : u ≡ exit_scope t → Step t u
  declares :
      (kind : SymbolKind) (name type_name : Text) (types : List Text) (result : Option ℕ)
      → HasRoom t
      → declare kind name type_name types t ≡ (result, u)
      → Step t u
  specializes : (s : Symbol) (id : ℕ) → HasRoom t → append_specialization s t ≡ (id, u) → Step t u
  changes :
      (i : ℕ) (d : SymbolDetails) → u ≡ record t { symbols = with_details i d t.symbols } → Step t u

-- The symbol of an id has the name and the depth it is bound at.
abbrev pub Bound : List Symbol → ℕ → Text → ℕ → Type 0
Bound symbols depth name id =
    (s : Symbol) × (get_elem? symbols id ≡ some s) × (s.name ≡ name) × (s.scope_depth ≡ depth)

abbrev pub AllBound : List Symbol → List Scope → Type 0
AllBound symbols [] = Unit
AllBound symbols (scope ∷ scopes) =
    ((name : Text) (id : ℕ) → find name scope ≡ some id → Bound symbols (length scopes) name id)
    × AllBound symbols scopes

abbrev pub Numbered : ℕ → List Symbol → Type 0
Numbered i [] = Unit
Numbered i (s ∷ ss) = (s.id ≡ i) × Numbered (suc i) ss

abbrev pub WellFormed : SymbolTable → Type 0
WellFormed t = (0 < length t.scopes) × Numbered 0 t.symbols × AllBound t.symbols t.scopes

-- Symbols keep their place, their name and their depth.
abbrev pub Keeps : List Symbol → List Symbol → Type 0
Keeps old new =
    (i : ℕ) (s : Symbol)
    → get_elem? old i ≡ some s
    → (r : Symbol) × (get_elem? new i ≡ some r)
      × (r.name ≡ s.name)
      × (r.scope_depth ≡ s.scope_depth)

pub Keeps-append : (old more : List Symbol) → Keeps old (old ++ more)
Keeps-append [] more i s h = cc
Keeps-append (x ∷ old) more zero s h = (s, h, refl, refl)
Keeps-append (x ∷ old) more (suc i) s h = Keeps-append old more i s h

pub Keeps-details :
    (j : ℕ) (d : SymbolDetails) (old : List Symbol) → Keeps old (with_details j d old)
Keeps-details j d [] i s h = cc
Keeps-details zero d (x ∷ old) zero s h = (
  record x { details = d },
  refl,
  ap (λ r. r.name) (some-injective h),
  ap (λ r. r.scope_depth) (some-injective h),
)
  where
    some-injective : {a b : Symbol} → ◌≡◌ {A = Option Symbol} (some a) (some b) → a ≡ b
    some-injective e = cc
Keeps-details zero d (x ∷ old) (suc i) s h = (s, h, refl, refl)
Keeps-details (suc j) d (x ∷ old) zero s h = (s, h, refl, refl)
Keeps-details (suc j) d (x ∷ old) (suc i) s h = Keeps-details j d old i s h

AllBound-Keeps :
    (old new : List Symbol) (scopes : List Scope)
    → Keeps old new
    → AllBound old scopes
    → AllBound new scopes
AllBound-Keeps old new [] k h = tt
AllBound-Keeps old new (scope ∷ scopes) k (h, later) = (
  λ name id f.
      let (s, g, n, d) = h name id f in let (r, g', n', d') = k id s g in (r, g', n' ∙ n, d' ∙ d),
  AllBound-Keeps old new scopes k later,
)

Numbered-append :
    (i : ℕ) (old : List Symbol) (s : Symbol)
    → Numbered i old
    → s.id ≡ i + length old
    → Numbered i (old ++ s ∷ [])
Numbered-append i [] s h e = (omega (arith, e), tt)
Numbered-append i (x ∷ old) s (e, h) f = (e, Numbered-append (suc i) old s h (omega (arith, f)))

Numbered-details :
    (i j : ℕ) (d : SymbolDetails) (old : List Symbol)
    → Numbered i old
    → Numbered i (with_details j d old)
Numbered-details i j d [] h = tt
Numbered-details i zero d (x ∷ old) h = h
Numbered-details i (suc j) d (x ∷ old) (e, h) = (e, Numbered-details (suc i) j d old h)

last-append : (old : List Symbol) (s : Symbol) → get_elem? (old ++ s ∷ []) (length old) ≡ some s
last-append [] s = refl
last-append (x ∷ old) s = last-append old s

-- What a scope has for a name behind `try_emplace`.
pub find-try_emplace :
    (other name : Text) (id j : ℕ) (scope : Scope)
    → find other (try_emplace name id scope) ≡ some j
    → (find other scope ≡ some j) ⊎ ((other ≡ name) × (j ≡ id))
unfolding try_emplace
find-try_emplace other name id j scope h = elim (Option-cases (find name scope)) [
  | inr (there, e) ↦ inl (sym (rw (e, try_emplace) refl) ∙ h)
  | inl e ↦
      let front : find other ((name, id) ∷ scope) ≡ some j = sym (rw (e, try_emplace) refl) ∙ h in
      elim (Bool-cases (text_eq other name)) [
        | inl same ↦
            inr (text_eq→eq other name same, some-injective (sym front ∙ rw (same, find) refl))
        | inr apart ↦ inl (sym (rw (apart, find) refl) ∙ front)
      ]
]
  where
    some-injective : {a b : ℕ} → ◌≡◌ {A = Option ℕ} (some a) (some b) → a ≡ b
    some-injective e = cc

pub next_id-length : (t : SymbolTable) → HasRoom t → next_id t ≡ length t.symbols
unfolding next_id
next_id-length t h = omega (arith, h)

-- What `Declare` does: the scope that it makes sure of, and then a symbol behind the others.
pub declare-cases :
    (kind : SymbolKind) (name type_name : Text) (types : List Text) (t : SymbolTable)
    → (declare kind name type_name types t ≡ (none, with_scope t))
      ⊎ (declare kind name type_name types t
          ≡ (some (next_id (with_scope t)), appended kind name type_name types (with_scope t)))
unfolding declare
declare-cases kind name type_name types t =
    elim (Bool-cases
      (is_refused (with_scope t) kind name types (find name (innermost (with_scope t).scopes)))) [
        | inl refused ↦ inl (rw (refused, declare) refl)
        | inr new ↦ inr (rw (new, declare) refl)
      ]

-- With a scope, there is none to make.
with_scope-WellFormed : (t : SymbolTable) → WellFormed t → WellFormed (with_scope t)
with_scope-WellFormed t h = go t.symbols t.scopes h
  where
    go :
        (symbols : List Symbol) (scopes : List Scope)
        → WellFormed (record { symbols = symbols; scopes = scopes })
        → WellFormed (with_scope (record { symbols = symbols; scopes = scopes }))
    go symbols [] (l, n, b) = absurd (omega (arith, l))
    go symbols (s ∷ ss) h = h

new-AllBound :
    (old : List Symbol) (x : Symbol) (scope : Scope) (scopes : List Scope) (id : ℕ)
    → id ≡ length old
    → x.scope_depth ≡ length scopes
    → AllBound old (scope ∷ scopes)
    → AllBound (old ++ x ∷ []) (try_emplace x.name id scope ∷ scopes)
new-AllBound old x scope scopes id e d h =
    let keeps = Keeps-append old (x ∷ []) in
    let (first, later) = AllBound-Keeps old (old ++ x ∷ []) (scope ∷ scopes) keeps h in
    (
      λ name j f. elim (find-try_emplace name x.name id j scope f) [
        | inl before ↦ first name j before
        | inr (same, number) ↦ (x, rw (number ∙ e) (last-append old x), sym same, d)
      ],
      later,
    )

appended-WellFormed :
    (kind : SymbolKind) (name type_name : Text) (types : List Text) (t : SymbolTable)
    → HasRoom t
    → WellFormed t
    → WellFormed (appended kind name type_name types t)
unfolding appended scope_depth bind_innermost
appended-WellFormed kind name type_name types t room (l, n, b) =
    go t.scopes l b (next_id t) (next_id-length t room)
  where
    go :
        (scopes : List Scope)
        → 0 < length scopes
        → AllBound t.symbols scopes
        → (id : ℕ) → id ≡ length t.symbols
        → let x : Symbol = record {
          id = id;
          kind = kind;
          name = name;
          type_name = type_name;
          parameter_types = types;
          scope_depth = length scopes - 1;
          details = default_details;
        } in
          WellFormed
            (record { symbols = t.symbols ++ x ∷ []; scopes = bind_innermost name id scopes })
    go [] l b id e = absurd (omega (arith, l))
    go (s ∷ ss) l b id e =
        let x : Symbol = record {
          id = id;
          kind = kind;
          name = name;
          type_name = type_name;
          parameter_types = types;
          scope_depth = length (s ∷ ss) - 1;
          details = default_details;
        } in
        (
          omega arith,
          Numbered-append 0 t.symbols x n (omega (arith, e)),
          new-AllBound t.symbols x s ss id e (omega arith) b,
        )

pub Step-WellFormed : (t u : SymbolTable) → Step t u → WellFormed t → WellFormed u
unfolding enter_scope exit_scope append_specialization find
Step-WellFormed t u (enters e) (l, n, b) = rw e (omega arith, n, (no_names, b))
  where
    no_names :
        (name : Text) (id : ℕ) → find name [] ≡ some id → Bound t.symbols (length t.scopes) name id
    no_names name id f = cc
Step-WellFormed t u (exits e) (l, n, b) = rw e (outer-WellFormed t.scopes l b)
  where
    outer-WellFormed :
        (scopes : List Scope)
        → 0 < length scopes
        → AllBound t.symbols scopes
        → WellFormed (record { symbols = t.symbols; scopes = outer scopes })
    outer-WellFormed [] l b = absurd (omega (arith, l))
    outer-WellFormed (s ∷ []) l b = (l, n, b)
    outer-WellFormed (s ∷ r ∷ rs) l (_, b) = (omega arith, n, b)
Step-WellFormed t u (declares kind name type_name types result room e) h =
    elim (declare-cases kind name type_name types t) [
      | inl refused ↦ subst WellFormed (ap (λ p. p.1) (sym refused ∙ e)) (with_scope-WellFormed t h)
      | inr new ↦ subst WellFormed (ap (λ p. p.1) (sym new ∙ e)) (
          appended-WellFormed kind name type_name types (with_scope t) room
            (with_scope-WellFormed t h))
    ]
Step-WellFormed t u (specializes s id room e) (l, n, b) =
    let x : Symbol = record s { id = next_id t; scope_depth = scope_depth t } in
    subst WellFormed (ap (λ p. p.1) e) (
      l,
      Numbered-append 0 t.symbols x n (omega (arith, next_id-length t room)),
      AllBound-Keeps t.symbols (t.symbols ++ x ∷ []) t.scopes (Keeps-append t.symbols (x ∷ [])) b,
    )
Step-WellFormed t u (changes i d e) (l, n, b) = rw e (
  l,
  Numbered-details 0 i d t.symbols n,
  AllBound-Keeps t.symbols (with_details i d t.symbols) t.scopes (Keeps-details i d t.symbols) b,
)
