-- ===== src/Symbols.antt =====
-- Absolute-Analyzer/src/symbol_table.cpp: `SymbolTable`, with the symbols of
-- Absolute-Analyzer/include/analyzer.h. The innermost scope is the first of the list.
pub mod Histories
pub mod Answers
pub mod Scoping
mod Examples
use absolute.Prelude.{
  ℕ, zero, suc, ◌-◌, ◌+◌, ◌%◌, ◌^◌, Bool, true, false, ◌&&◌, ◌||◌, not, List, [], ◌∷◌, ◌++◌, Option,
  none, some, ltb, ◌==◌, if◌then◌else◌, length, get_elem?,
}
use absolute.Prelude.Texts.{Text, text_eq}

pub data SymbolKind : Type 0 where
  variable parameter function type_symbol field property indexer method constructor namespace :
      SymbolKind

pub data AccessLevel : Type 0 where
  public protected private : AccessLevel

-- The fields of `Symbol` that the table itself does not look at. An expression is a number.
pub record SymbolDetails : Type 0 where
  pub managed_owner : Bool
  pub managed_borrower : Bool
  pub async_function : Bool
  pub extension_function : Bool
  pub external_function : Bool
  pub exported_function : Bool
  pub is_const : Bool
  pub is_static : Bool
  pub value_reference : Bool
  pub const_value_reference : Bool
  pub variadic_parameter : Bool
  pub can_read : Bool
  pub can_write : Bool
  pub array_storage_escapes : Bool
  pub owns_array_storage : Bool
  pub role_polymorphic : Bool
  pub requires_owner : Bool
  pub parameter_index : ℕ
  pub callable_owner : ℕ
  pub parameter_requires_owner : List Bool
  pub parameter_defaults : List ℕ
  pub defaulted_parameters : ℕ
  pub access : AccessLevel
  pub read_access : AccessLevel
  pub write_access : AccessLevel
  pub member_owner : Text
  pub generic_parameters : List Text
  pub generic_arguments : List Text
  pub generic_origin : ℕ

pub record Symbol : Type 0 where
  pub id : ℕ
  pub kind : SymbolKind
  pub name : Text
  pub type_name : Text
  pub parameter_types : List Text
  pub scope_depth : ℕ
  pub details : SymbolDetails

-- `static_cast<SymbolId>(-1)` and `static_cast<size_t>(-1)`
abbrev pub invalid_symbol_id : ℕ
invalid_symbol_id = 0xffffffff

abbrev pub no_index : ℕ
no_index = 0xffffffffffffffff

abbrev pub default_details : SymbolDetails
default_details = record {
  managed_owner = false;
  managed_borrower = false;
  async_function = false;
  extension_function = false;
  external_function = false;
  exported_function = false;
  is_const = false;
  is_static = false;
  value_reference = false;
  const_value_reference = false;
  variadic_parameter = false;
  can_read = true;
  can_write = true;
  array_storage_escapes = false;
  owns_array_storage = false;
  role_polymorphic = false;
  requires_owner = false;
  parameter_index = no_index;
  callable_owner = invalid_symbol_id;
  parameter_requires_owner = [];
  parameter_defaults = [];
  defaulted_parameters = 0;
  access = public;
  read_access = public;
  write_access = public;
  member_owner = [];
  generic_parameters = [];
  generic_arguments = [];
  generic_origin = invalid_symbol_id;
}

abbrev pub Scope : Type 0
Scope = List (Text × ℕ)

pub record SymbolTable : Type 0 where
  pub symbols : List Symbol
  pub scopes : List Scope

abbrev pub reset : SymbolTable
reset = record { symbols = []; scopes = [] ∷ [] }

unfoldable pub enter_scope : SymbolTable → SymbolTable
enter_scope t = record t { scopes = [] ∷ t.scopes }

abbrev pub outer : List Scope → List Scope
outer [] = []
outer (s ∷ []) = s ∷ []
outer (s ∷ r ∷ rs) = r ∷ rs

unfoldable pub exit_scope : SymbolTable → SymbolTable
exit_scope t = record t { scopes = outer t.scopes }

unfoldable pub scope_depth : SymbolTable → ℕ
scope_depth t = length t.scopes - 1

-- `scope.find(name)` and `scope.try_emplace(name, id)`
unfoldable pub find : Text → Scope → Option ℕ
unfolding text_eq
find name [] = none
find name ((other, id) ∷ scope) = elim (text_eq name other) [
  | true ↦ some id
  | false ↦ find name scope
]

abbrev pub emplaced : Text → ℕ → Scope → Option ℕ → Scope
emplaced name id scope (some there) = scope
emplaced name id scope none = (name, id) ∷ scope

unfoldable pub try_emplace : Text → ℕ → Scope → Scope
unfolding find
try_emplace name id scope = emplaced name id scope (find name scope)

-- `Get`
unfoldable pub get : SymbolTable → ℕ → Option Symbol
get t id = get_elem? t.symbols id

abbrev pub is_callable : SymbolKind → Bool
is_callable function = true
is_callable method = true
is_callable indexer = true
is_callable constructor = true
is_callable _ = false

abbrev pub callable_symbol : Option Symbol → Bool
callable_symbol none = false
callable_symbol (some s) = is_callable s.kind

-- `CanonicalValueReferenceBaseType`: without `&` at the end, and then without `const ` in front.
abbrev pub before_reference : Text → Option Text
before_reference [] = none
before_reference (c ∷ []) = if c == b'&' then some [] else none
before_reference (c ∷ d ∷ ds) = elim (before_reference (d ∷ ds)) [
  | none ↦ none
  | some front ↦ some (c ∷ front)
]

abbrev pub const_prefix : Text
const_prefix = b'c' ∷ b'o' ∷ b'n' ∷ b's' ∷ b't' ∷ b' ' ∷ []

abbrev pub without_prefix : Text → Text → Text → Text
without_prefix [] s whole = s
without_prefix (p ∷ ps) [] whole = whole
without_prefix (p ∷ ps) (c ∷ cs) whole = if c == p then without_prefix ps cs whole else whole

abbrev pub base_or : Text → Option Text → Text
base_or type_name none = type_name
base_or type_name (some base) = without_prefix const_prefix base base

unfoldable pub base_type : Text → Text
base_type type_name = base_or type_name (before_reference type_name)

-- `parameterTypes.size() == …` and `std::equal` with `sameParameterStorage`.
unfoldable pub same_storage : List Text → List Text → Bool
unfolding text_eq base_type
same_storage [] [] = true
same_storage [] (b ∷ bs) = false
same_storage (a ∷ as_) [] = false
same_storage (a ∷ as_) (b ∷ bs) = text_eq (base_type a) (base_type b) && same_storage as_ bs

-- The loop over all symbols.
unfoldable pub is_declared : ℕ → Text → List Text → List Symbol → Bool
unfolding text_eq same_storage
is_declared depth name types [] = false
is_declared depth name types (s ∷ ss) =
    (s.scope_depth == depth)
      && text_eq s.name name
      && is_callable s.kind
      && same_storage s.parameter_types types
    || is_declared depth name types ss

-- The innermost scope, and the table where it was made if there was none.
abbrev pub innermost : List Scope → Scope
innermost [] = []
innermost (s ∷ ss) = s

abbrev pub with_scope : SymbolTable → SymbolTable
with_scope t = record t { scopes = innermost t.scopes ∷ outer_scopes t.scopes }
  where
    outer_scopes : List Scope → List Scope
    outer_scopes [] = []
    outer_scopes (s ∷ ss) = ss

-- Whether `Declare` returns `std::nullopt`, at what the scope has for the name.
unfoldable pub is_refused : SymbolTable → SymbolKind → Text → List Text → Option ℕ → Bool
unfolding get scope_depth is_declared
is_refused t kind name types none = false
is_refused t kind name types (some id) =
    not (is_callable kind)
    || not (callable_symbol (get t id))
    || is_declared (scope_depth t) name types t.symbols

-- `static_cast<SymbolId>(symbols.size())`
unfoldable pub next_id : SymbolTable → ℕ
next_id t = length t.symbols % 2 ^ 32

unfoldable pub bind_innermost : Text → ℕ → List Scope → List Scope
unfolding try_emplace
bind_innermost name id [] = []
bind_innermost name id (s ∷ ss) = try_emplace name id s ∷ ss

unfoldable pub appended : SymbolKind → Text → Text → List Text → SymbolTable → SymbolTable
unfolding next_id scope_depth bind_innermost
appended kind name type_name types t =
    let id = next_id t in
    record {
      symbols =
          t.symbols
          ++ (record {
            id = id;
            kind = kind;
            name = name;
            type_name = type_name;
            parameter_types = types;
            scope_depth = scope_depth t;
            details = default_details;
          })
            ∷ [];
      scopes = bind_innermost name id t.scopes;
    }

-- `Declare`
unfoldable pub declare : SymbolKind → Text → Text → List Text → SymbolTable → Option ℕ × SymbolTable
unfolding find is_refused next_id appended
declare kind name type_name types table =
    let t = with_scope table in
    if is_refused t kind name types (find name (innermost t.scopes))
    then (none, t)
    else (some (next_id t), appended kind name type_name types t)

-- The loop of `Lookup`, from the innermost scope outwards.
unfoldable pub lookup_in : List Scope → Text → ℕ
unfolding find
lookup_in [] name = invalid_symbol_id
lookup_in (s ∷ ss) name = elim (find name s) [ some id ↦ id | none ↦ lookup_in ss name ]

unfoldable pub lookup : SymbolTable → Text → ℕ
unfolding lookup_in
lookup t name = lookup_in t.scopes name

unfoldable pub lookup_current : SymbolTable → Text → ℕ
unfolding find
lookup_current t name = elim (find name (innermost t.scopes)) [
  | some id ↦ id
  | none ↦ invalid_symbol_id
]

-- `AppendSpecialization`
unfoldable pub append_specialization : Symbol → SymbolTable → ℕ × SymbolTable
unfolding next_id scope_depth
append_specialization s t =
    let id = next_id t in
    (
      id,
      record t { symbols = t.symbols ++ (record s { id = id; scope_depth = scope_depth t }) ∷ [] },
    )
