-- ===== src/Symbols/Scoping.antt =====
-- Absolute-Analyzer/src/symbol_table.cpp: what is declared between `EnterScope` and `ExitScope`.
use absolute.Prelude.{
  ℕ, ◌<◌, ◌≡◌, inl, inr, refl, ap, ◌∙◌, List, [], ◌∷◌, Option, some, arith, length,
}
use mathlib.Core.Path.{subst}
use absolute.Prelude.Texts.{Text}
use absolute.Symbols.{
  SymbolKind, SymbolDetails, Symbol, Scope, SymbolTable, enter_scope, outer, exit_scope,
  scope_depth, get, with_scope, next_id, bind_innermost, appended, declare, lookup, lookup_current,
  append_specialization,
}
use absolute.Symbols.Histories.{with_details, Keeps, Keeps-append, Keeps-details, declare-cases}

-- The calls between the entry of a scope and its exit, with blocks inside of it.
pub data Block : SymbolTable → SymbolTable → Type 0 where
  done : {t : SymbolTable} → Block t t
  declared :
      {t u v : SymbolTable} (kind : SymbolKind) (name type_name : Text) (types : List Text)
      (result : Option ℕ)
      → Block t u
      → declare kind name type_name types u ≡ (result, v)
      → Block t v
  specialized :
      {t u v : SymbolTable} (s : Symbol) (id : ℕ)
      → Block t u
      → append_specialization s u ≡ (id, v)
      → Block t v
  changed :
      {t u v : SymbolTable} (i : ℕ) (d : SymbolDetails)
      → Block t u
      → v ≡ record u { symbols = with_details i d u.symbols }
      → Block t v
  nested :
      {t u v w : SymbolTable} → Block t u → Block (enter_scope u) v → w ≡ exit_scope v → Block t w

-- The scopes are some scope and these.
abbrev Inside : List Scope → SymbolTable → Type 0
Inside ss t = (s : Scope) × (t.scopes ≡ s ∷ ss)

Keeps-trans : (a b c : List Symbol) → Keeps a b → Keeps b c → Keeps a c
Keeps-trans a b c k l i s h =
    let (r, g, n, d) = k i s h in let (r', g', n', d') = l i r g in (r', g', n' ∙ n, d' ∙ d)

appended-scopes :
    (kind : SymbolKind) (name type_name : Text) (types : List Text) (t : SymbolTable)
    → (appended kind name type_name types t).scopes ≡ bind_innermost name (next_id t) t.scopes
unfolding appended bind_innermost
appended-scopes kind name type_name types t = refl

appended-Keeps :
    (kind : SymbolKind) (name type_name : Text) (types : List Text) (t : SymbolTable)
    → Keeps t.symbols (appended kind name type_name types t).symbols
unfolding appended
appended-Keeps kind name type_name types t = Keeps-append t.symbols _

with_scope-Inside :
    (ss : List Scope) (t : SymbolTable) → Inside ss t → (with_scope t).scopes ≡ t.scopes
with_scope-Inside ss t (s, e) = rw e refl

bind-Inside :
    (ss scopes : List Scope) (name : Text) (id : ℕ)
    → (s : Scope) × (scopes ≡ s ∷ ss)
    → (r : Scope) × (bind_innermost name id scopes ≡ r ∷ ss)
unfolding bind_innermost
bind-Inside ss scopes name id (s, e) = (_, ap (bind_innermost name id) e)

declare-Inside :
    (kind : SymbolKind) (name type_name : Text) (types : List Text) (ss : List Scope)
    (t : SymbolTable)
    → Inside ss t
    → Inside ss (declare kind name type_name types t).1
      × Keeps t.symbols (declare kind name type_name types t).1.symbols
unfolding appended bind_innermost
declare-Inside kind name type_name types ss t (s, e) =
    let same = with_scope-Inside ss t (s, e) in
    elim (declare-cases kind name type_name types t) [
      | inl refused ↦
          rw refused ((s, same ∙ e), subst (Keeps t.symbols) refl (Keeps-refl t.symbols))
      | inr new ↦ rw new (
        bind-Inside ss (with_scope t).scopes name (next_id (with_scope t)) (s, same ∙ e),
        appended-Keeps kind name type_name types (with_scope t),
      )
    ]
  where
    Keeps-refl : (symbols : List Symbol) → Keeps symbols symbols
    Keeps-refl symbols i r h = (r, h, refl, refl)

exit-Inside :
    (ss : List Scope) (t : SymbolTable) → 0 < length ss → Inside ss t → (exit_scope t).scopes ≡ ss
unfolding exit_scope
exit-Inside [] t l (s, e) = absurd (omega (arith, l))
exit-Inside (r ∷ rs) t l (s, e) = ap outer e

Block-Inside :
    (t u : SymbolTable) (ss : List Scope)
    → Block t u
    → Inside ss t
    → Inside ss u × Keeps t.symbols u.symbols
unfolding enter_scope exit_scope append_specialization
Block-Inside t u ss done h = (h, λ i s g. (s, g, refl, refl))
Block-Inside t u ss (declared {u = m} kind name type_name types result b e) h =
    let (inside, k) = Block-Inside t m ss b h in
    let (inside', k') = declare-Inside kind name type_name types ss m inside in
    subst (λ z. Inside ss z × Keeps t.symbols z.symbols) (ap (λ p. p.1) e)
      (inside', Keeps-trans t.symbols m.symbols _ k k')
Block-Inside t u ss (specialized {u = m} s id b e) h =
    let (inside, k) = Block-Inside t m ss b h in
    subst (λ z. Inside ss z × Keeps t.symbols z.symbols) (ap (λ p. p.1) e)
      (inside, Keeps-trans t.symbols m.symbols _ k (Keeps-append m.symbols _))
Block-Inside t u ss (changed {u = m} i d b e) h =
    let (inside, k) = Block-Inside t m ss b h in
    rw e (inside, Keeps-trans t.symbols m.symbols _ k (Keeps-details i d m.symbols))
Block-Inside t u ss (nested {u = m} {v = v} b c q) h =
    let ((s, e), k) = Block-Inside t m ss b h in
    let (inside, k') = Block-Inside (enter_scope m) v (s ∷ ss) c ([], ap (◌∷◌ []) e) in
    rw q ((s, exit-Inside (s ∷ ss) v (omega arith) inside), Keeps-trans t.symbols m.symbols _ k k')

-- Whatever is declared in a scope that is entered, in any blocks inside of it too, is gone behind its
-- exit: each name has the answer that it had, as has the depth, and each id still has a symbol of
-- the same name and depth.
pub Block-scopes :
    (t u : SymbolTable)
    → 0 < length t.scopes
    → Block (enter_scope t) u
    → ((name : Text) → lookup (exit_scope u) name ≡ lookup t name)
      × ((name : Text) → lookup_current (exit_scope u) name ≡ lookup_current t name)
      × (scope_depth (exit_scope u) ≡ scope_depth t)
      × ((id : ℕ) (s : Symbol)
          → get t id ≡ some s
          → (r : Symbol) × (get (exit_scope u) id ≡ some r)
            × (r.name ≡ s.name)
            × (r.scope_depth ≡ s.scope_depth))
unfolding lookup lookup_current scope_depth get enter_scope exit_scope
Block-scopes t u l b =
    let (inside, k) = Block-Inside (enter_scope t) u t.scopes b ([], refl) in
    let same = exit-Inside t.scopes u l inside in
    (λ name. rw same refl, λ name. rw same refl, rw same refl, k)
