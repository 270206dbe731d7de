-- ===== src/Sema/Scope.antt =====
-- The names in scope (src/sema/scope.h, scope.c): two global namespaces, and one stack of local
-- symbols with a mark for every open scope. `syms` and `marks` hold the elements of the growable
-- arrays of those names, the newest last.
pub mod Shadow
use slop.Base.{
  ℕ, zero, suc, ◌+◌, ◌-◌, List, [], ◌∷◌, ◌++◌, Bool, ◌==◌, if◌then◌else◌, length, get_or, get_elem?,
  take, Option, none, some,
}
use slop.Sema.Types.{TyRef}
use slop.Support.Diag.{SrcPos}
use slop.Support.Map.{Map, map_init, map_free, map_get, map_put}
use slop.Support.StrView.{StrView, strview_eq_view}

pub data SymKind : Type 0 where
  fn global enum_member local param : SymKind

-- `item` is the number of the item in the program, and `decl` that of the item and of the function
-- in it, which is not 0 in an `extern` block only.
pub record Sym : Type 0 where
  pub kind : SymKind
  pub name : StrView
  pub pos : SrcPos
  pub type : Option TyRef
  pub is_mut : Bool
  pub value : ℕ
  pub decl : Option (ℕ × ℕ)
  pub params : List TyRef
  pub is_variadic : Bool
  pub is_extern : Bool
  pub item : Option ℕ

-- A symbol of the value namespace is the number of its record.
pub record Globals : Type 0 where
  pub types : Map TyRef
  pub values : Map ℕ

unfoldable pub globals_init : Globals
globals_init = record { types = map_init; values = map_init }

unfoldable pub globals_free : Globals → Globals
globals_free g = record { types = map_free g.types; values = map_free g.values }

unfoldable pub globals_find_type : Globals → StrView → Option (Option TyRef)
globals_find_type g name = map_get g.types name

unfoldable pub globals_find_value : Globals → StrView → Option (Option ℕ)
globals_find_value g name = map_get g.values name

unfoldable pub globals_add_type : Globals → StrView → TyRef → Option (Globals × Bool)
globals_add_type g name type = elim (map_put g.types name type) [
  | none ↦ none
  | some r ↦ some (record g { types = r.0 }, r.1)
]

unfoldable pub globals_add_value : Globals → StrView → ℕ → Option (Globals × Bool)
globals_add_value g name sym = elim (map_put g.values name sym) [
  | none ↦ none
  | some r ↦ some (record g { values = r.0 }, r.1)
]

pub record Scopes : Type 0 where
  pub syms : List Sym
  pub marks : List ℕ

unfoldable pub current_mark : Scopes → ℕ
current_mark sc = if length sc.marks == 0 then 0 else get_or sc.marks (length sc.marks - 1) 0

unfoldable pub scopes_init : Scopes
scopes_init = record { syms = []; marks = [] }

unfoldable pub scopes_free : Scopes → Scopes
unfolding scopes_init
scopes_free sc = scopes_init

unfoldable pub scope_push : Scopes → Scopes
scope_push sc = record sc { marks = sc.marks ++ (length sc.syms ∷ []) }

unfoldable pub scope_pop : Scopes → Scopes
unfolding current_mark
scope_pop sc = if length sc.marks == 0 then sc else record sc {
  syms = take (current_mark sc) sc.syms;
  marks = take (length sc.marks - 1) sc.marks;
}

-- The loop of both lookups: `n` symbols remain above the first `start`.
unfoldable pub find_down : List Sym → ℕ → ℕ → StrView → Option Sym
find_down syms start zero name = none
find_down syms start (suc n) name = elim (get_elem? syms (start + n)) [
  | none ↦ none
  | some s ↦ if strview_eq_view s.name name then some s else find_down syms start n name
]

unfoldable pub scope_find : Scopes → StrView → Option Sym
unfolding find_down
scope_find sc name = find_down sc.syms 0 (length sc.syms) name

unfoldable pub scope_find_current : Scopes → StrView → Option Sym
unfolding find_down current_mark
scope_find_current sc name =
    find_down sc.syms (current_mark sc) (length sc.syms - current_mark sc) name

unfoldable pub scope_declare : Scopes → Sym → Scopes
scope_declare sc sym = record sc { syms = sc.syms ++ (sym ∷ []) }
