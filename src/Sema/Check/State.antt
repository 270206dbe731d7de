-- ===== src/Sema/Check/State.antt =====
-- What the checker keeps (`Sema` of src/sema/sema.c), and its smallest steps. `syms` holds the
-- records of the global symbols and `items` the items of all files, each named by its number, as a
-- pointer names them in C. A step takes the state and gives the new one with its result; `none`
-- means that NULL was followed or that fuel ran out. The wording of messages is left out.
use slop.Base.{ℕ, List, [], ◌∷◌, ◌++◌, length, get_elem?, set, Option, none, some, false}
use slop.Ast.{Item}
use slop.Support.Diag.{Diag, SrcPos, diag_error, diag_note}
use slop.Support.StrView.{StrView}
use slop.Sema.Types.{Ty, TyRef, TypeTable, deref, ty_core, ty_ptr, ty_array}
use slop.Sema.Types.Kind.{TyKind}
use slop.Sema.Scope.{
  Sym, SymKind, Globals, Scopes, globals_find_type, globals_find_value, globals_add_type,
  globals_add_value, scope_find, scope_find_current, scope_declare, scope_push, scope_pop,
}

pub record Sema : Type 0 where
  pub diag : Diag
  pub types : TypeTable
  pub globals : Globals
  pub scopes : Scopes
  pub cur_fn : Option ℕ
  pub loop_depth : ℕ
  pub syms : List Sym
  pub items : List (Option Item)

abbrev pub Check {ℓ} : Type ℓ → Type ℓ
Check A = Sema → Option (Sema × A)

infixl 5 ◌>>=◌ ◌>>◌
unfoldable pub ◌>>=◌ {ℓ κ} : {A : Type ℓ} {B : Type κ} → Check A → (A → Check B) → Check B
(m >>= f) s = elim (m s) [ none ↦ none | some r ↦ f r.1 r.0 ]

abbrev pub ◌>>◌ {ℓ κ} : {A : Type ℓ} {B : Type κ} → Check A → Check B → Check B
m >> k = m >>= λ _. k

abbrev pub pure {ℓ} : {A : Type ℓ} → A → Check A
pure a s = some (s, a)

abbrev pub skip : Check (Unit {0})
skip = pure tt

-- A pointer that the C follows.
abbrev pub follow {ℓ} : {A : Type ℓ} → Option A → Check A
follow none s = none
follow (some a) s = some (s, a)

abbrev pub out_of_fuel {ℓ} : {A : Type ℓ} → Check A
out_of_fuel s = none

-- A part of the state, read.
abbrev pub gets {ℓ} : {A : Type ℓ} → (Sema → A) → Check A
gets f s = some (s, f s)

abbrev pub put : (Sema → Sema) → Check (Unit {0})
put f s = some (f s, tt)

abbrev pub error : SrcPos → Check (Unit {0})
error pos = put (λ s. record s { diag = diag_error s.diag pos })

abbrev pub note : SrcPos → Check (Unit {0})
note pos = put (λ s. record s { diag = diag_note s.diag pos })

-- The record of a type, as it stands now.
abbrev pub ty : TyRef → Check Ty
ty r = gets (λ s. deref s.types r)

abbrev pub set_ty : TyRef → (Ty → Ty) → Check (Unit {0})
set_ty r f =
    put (λ s. record s {
      types = record (s.types) { heap = set s.types.heap r (f (deref s.types r)) };
    })

unfoldable pub core : TyKind → Check TyRef
core kind s = follow (ty_core s.types kind) s

unfoldable pub poison : Check TyRef
unfolding core
poison = core TyKind.poison

-- An error, and the type that stands for one.
unfoldable pub fails : SrcPos → Check TyRef
unfolding poison
fails pos = do _ ← error pos; poison

unfoldable pub ptr_to : TyRef → Check TyRef
ptr_to r s = let t = ty_ptr s.types r in some (record s { types = t.0 }, t.1)

unfoldable pub array_of : TyRef → ℕ → Check TyRef
array_of r len s = let t = ty_array s.types r len in some (record s { types = t.0 }, t.1)

unfoldable pub find_type : StrView → Check (Option TyRef)
find_type name s = elim (globals_find_type s.globals name) [ none ↦ none | some o ↦ some (s, o) ]

-- The number of a global symbol.
unfoldable pub find_global : StrView → Check (Option ℕ)
find_global name s = elim (globals_find_value s.globals name) [ none ↦ none | some o ↦ some (s, o) ]

abbrev pub sym_at : ℕ → Check Sym
sym_at n = do syms ← gets (λ s. s.syms); follow (get_elem? syms n)

abbrev pub set_sym : ℕ → Sym → Check (Unit {0})
set_sym n sym = put (λ s. record s { syms = set s.syms n sym })

unfoldable pub add_type : StrView → TyRef → Check (Unit {0})
add_type name r s = elim (globals_add_type s.globals name r) [
  | none ↦ none
  | some g ↦ some (record s { globals = g.0 }, tt)
]

-- The record of a new global symbol, under its name.
unfoldable pub add_sym : Sym → Check (Unit {0})
add_sym sym s = elim (globals_add_value s.globals sym.name (length s.syms)) [
  | none ↦ none
  | some g ↦ some (record s { globals = g.0; syms = s.syms ++ (sym ∷ []) }, tt)
]

-- A name in scope: a local one, or else a global one.
unfoldable pub find_sym : StrView → Check (Option Sym)
unfolding find_global
find_sym name = do
  inner ← gets (λ s. scope_find s.scopes name)
  elim inner [
    | some sym ↦ pure (some sym)
    | none ↦ do
      outer ← find_global name
      elim outer [ none ↦ pure none | some n ↦ do sym ← sym_at n; pure (some sym) ]
  ]

abbrev pub find_current : StrView → Check (Option Sym)
find_current name = gets (λ s. scope_find_current s.scopes name)

abbrev pub declare : Sym → Check (Unit {0})
declare sym = put (λ s. record s { scopes = scope_declare s.scopes sym })

-- `m` in a scope of its own.
unfoldable pub scoped {ℓ} : {A : Type ℓ} → Check A → Check A
scoped m = do
  _ ← put (λ s. record s { scopes = scope_push s.scopes })
  a ← m
  _ ← put (λ s. record s { scopes = scope_pop s.scopes })
  pure a

abbrev pub sym_new : SymKind → StrView → SrcPos → Sym
sym_new kind name pos = record {
  kind = kind;
  name = name;
  pos = pos;
  type = none;
  is_mut = false;
  value = 0;
  decl = none;
  params = [];
  is_variadic = false;
  is_extern = false;
  item = none;
}
