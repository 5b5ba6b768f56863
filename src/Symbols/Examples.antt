-- ===== src/Symbols/Examples.antt =====
-- Absolute-Analyzer/src/symbol_table.cpp at a concrete table.
use absolute.Prelude.{ℕ, ◌≤◌, ◌<◌, ◌≡◌, ◌⊎◌, refl, [], ◌∷◌, none, some, arith, length}
use absolute.Prelude.Texts.{Text}
use absolute.Sync.{Reach, here, next}
use absolute.Symbols.{
  Symbol, variable, function, invalid_symbol_id, SymbolTable, reset, enter_scope, exit_scope,
  scope_depth, get, declare, lookup, lookup_current,
}
use absolute.Symbols.Histories.{Step, declares, enters}
use absolute.Symbols.Answers.{IsUnknown, Reach-SymbolTable}
use absolute.Symbols.Scoping.{Block, done, declared, Block-scopes}

abbrev x : Text
x = b'x' ∷ []

abbrev int_type : Text
int_type = b'i' ∷ b'n' ∷ b't' ∷ []

abbrev const_int_reference : Text
const_int_reference = b'c' ∷ b'o' ∷ b'n' ∷ b's' ∷ b't' ∷ b' ' ∷ b'i' ∷ b'n' ∷ b't' ∷ b'&' ∷ []

-- `x` outside, and `x` again in a scope inside.
abbrev first_table : SymbolTable
unfolding declare
first_table = (declare variable x int_type [] reset).1

abbrev second_table : SymbolTable
unfolding declare
second_table = (declare variable x int_type [] (enter_scope first_table)).1

second-Reach : Reach Step reset second_table
unfolding declare first_table second_table enter_scope
second-Reach =
    next
      (next (next here (declares variable x int_type [] (some 0) (omega arith) refl)) (enters refl))
      (declares variable x int_type [] (some 1) (omega arith) refl)

shadowed-test : lookup second_table x ≡ 1
unfolding lookup second_table first_table declare enter_scope
shadowed-test = refl

-- A parameter `int` and one `const int&` are of the same storage.
overload-test :
    (declare function x int_type
      (const_int_reference ∷ [])
      (declare function x int_type (int_type ∷ []) reset).1).0
    ≡ none
unfolding declare
overload-test = refl

other_overload-test :
    (declare function x int_type [] (declare function x int_type (int_type ∷ []) reset).1).0
    ≡ some 1
unfolding declare
other_overload-test = refl

Reach-SymbolTable_example :
    ((id : ℕ) (s : Symbol) → get second_table id ≡ some s → s.id ≡ id)
    × ((name : Text)
        → (IsUnknown name second_table.scopes × (lookup second_table name ≡ invalid_symbol_id))
          ⊎ ((s : Symbol) × (get second_table (lookup second_table name) ≡ some s)
              × (s.name ≡ name)
              × (s.scope_depth ≤ scope_depth second_table)))
Reach-SymbolTable_example = Reach-SymbolTable second_table second-Reach

inner-Block : Block (enter_scope first_table) second_table
unfolding second_table declare enter_scope
inner-Block = declared variable x int_type [] (some 1) done inner-declare
  where
    inner-declare :
        declare variable x int_type [] (enter_scope first_table) ≡ (some 1, second_table)
    inner-declare = refl

first-scopes : 0 < length (first_table.scopes)
unfolding first_table declare
first-scopes = omega arith

Block-scopes_example :
    ((name : Text) → lookup (exit_scope second_table) name ≡ lookup first_table name)
    × ((name : Text)
        → lookup_current (exit_scope second_table) name ≡ lookup_current first_table name)
    × (scope_depth (exit_scope second_table) ≡ scope_depth first_table)
    × ((id : ℕ) (s : Symbol)
        → get first_table id ≡ some s
        → (r : Symbol) × (get (exit_scope second_table) id ≡ some r)
          × (r.name ≡ s.name)
          × (r.scope_depth ≡ s.scope_depth))
Block-scopes_example = Block-scopes first_table second_table first-scopes inner-Block
