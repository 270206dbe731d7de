-- ===== src/Sema/Tests.antt =====
-- The theorems on scopes and types at concrete inputs.
use slop.Base.{
  ℕ, zero, suc, ◌+◌, ◌-◌, ◌<◌, ◌≡◌, refl, ◌↔◌, List, [], ◌∷◌, ◌++◌, false, arith, none, some,
  length, take, some_injective, true,
}
use slop.Lexer.Kind.{codes}
use slop.Support.StrView.{StrView}
use slop.Ast.{Expr, Stmt, Stmts}
use slop.Support.Diag.{SrcPos}
use slop.Sema.Convert.{assignable, assignable_real}
use slop.Sema.Convert.Widen.{IsLaidOut, Widens, assignable-fits}
use slop.Sema.Diverge.{Ends, falls, stmt_diverges}
use slop.Sema.Diverge.Falls.{stmt_diverges_iff}
use slop.Sema.Types.{deref, ty_int_fits}
use slop.Sema.Scope.{Sym, SymKind, Scopes, scope_push, scope_pop, scope_find, scope_find_current}
use slop.Sema.Scope.Shadow.{
  Body, done, declare, block, exec, declared, or_else, newest, block-restores, scope_find-shadows,
  scope_find_current-declared,
}
use slop.Sema.Types.Kind.{TyKind}
use slop.Sema.Types.{TyRef, TypeTable, blank, types_init, ty_ptr, ty_array}
use slop.Sema.Types.Core.{FitsRange, ty_int_fits-range}
use slop.Sema.Types.Intern.{IsInterned}
use slop.Sema.Types.Canonical.{Call, pointer, array, run, ty_ptr_iff, ty_array_iff}
use slop.Sema.Types.Rendered.{IsLayered, Begins, spelled, ty_str-truncates}
use slop.Sema.Types.Spell.{ty_str}

local : StrView → Sym
local name = record {
  kind = SymKind.local;
  name = name;
  pos = record { line = 1; col = 1 };
  type = some 3;
  is_mut = false;
  value = 0;
  decl = none;
  params = [];
  is_variadic = false;
  is_extern = false;
  item = none;
}

outer : Scopes
outer = record { syms = local (codes "x") ∷ local (codes "y") ∷ []; marks = 0 ∷ [] }

body : Body
body = block (declare (local (codes "z")) done) (declare (local (codes "x")) done)

block-restores_example : scope_pop (exec body (scope_push outer)) ≡ outer
block-restores_example = block-restores body outer

scope_find-shadows_example :
    scope_find (exec body (scope_push outer)) (codes "x")
    ≡ or_else (newest (declared body) (codes "x")) (scope_find outer (codes "x"))
scope_find-shadows_example = scope_find-shadows body outer (codes "x")

scope_find_current-declared_example :
    scope_find_current (exec body (scope_push outer)) (codes "y")
    ≡ newest (declared body) (codes "y")
scope_find_current-declared_example = scope_find_current-declared body outer (codes "y")

types_init-IsInterned : IsInterned types_init
unfolding types_init
types_init-IsInterned = record {
  inside = λ r i. elim i [ ];
  ptrs = λ e q r i. elim i [ ];
  arrays = λ e n q r i. elim i [ ];
}

abbrev i32_ref : TyRef
i32_ref = 3

abbrev i64_ref : TyRef
i64_ref = 5

abbrev ten : ℕ
ten = 10

abbrev twelve : ℕ
twelve = 12

between : List Call
between = array 3 10 ∷ pointer 17 ∷ []

ty_ptr_iff_example :
    ((ty_ptr types_init i32_ref).1 ≡ (ty_ptr (run between (ty_ptr types_init i32_ref).0) i64_ref).1)
    ↔ (i32_ref ≡ i64_ref)
ty_ptr_iff_example = ty_ptr_iff types_init i32_ref i64_ref between types_init-IsInterned

ty_array_iff_example :
    ((ty_array types_init i32_ref ten).1
      ≡ (ty_array (run between (ty_array types_init i32_ref ten).0) i32_ref twelve).1)
    ↔ ((i32_ref ≡ i32_ref) × (ten ≡ twelve))
ty_array_iff_example =
    ty_array_iff types_init i32_ref i32_ref ten twelve between types_init-IsInterned

ty_int_fits-range_example : FitsRange TyKind.i8 200
ty_int_fits-range_example = ty_int_fits-range TyKind.i8 200 refl (omega arith)

-- One pointer to `i32`.
table : TypeTable
table = record {
  heap =
      record (blank TyKind.i32) { size = 4; align = 4 }
      ∷ record (blank TyKind.ptr) { elem = some 0; size = 8; align = 8 }
      ∷ [];
  core = [];
  derived = 1 ∷ [];
}

table_IsLayered : IsLayered table
unfolding table
table_IsLayered zero q e = cc
table_IsLayered (suc zero) q e = omega (arith, some_injective e)
table_IsLayered (suc (suc r)) q e = cc

-- A printer of lengths for the parameter.
print : ℕ → List ℕ
print n = codes "0"

in_table : (r : TyRef) → some 1 ≡ some r → r < length table.heap
unfolding table
in_table r e = omega (arith, some_injective e)

short : List ℕ
short = 9 ∷ 9 ∷ 9 ∷ []

ty_str-truncates_example :
    (s out : List ℕ) × (spelled print table (length table.heap + 1) (some 1) ≡ some s)
    × (ty_str print table 3 (some 1) short ≡ some out)
    × (length out ≡ 3)
    × Begins (take (3 - 1) s ++ (0 ∷ [])) out
unfolding short
ty_str-truncates_example =
    ty_str-truncates print table 3 (some 1) short table_IsLayered in_table (omega arith) refl

-- The types `u8` and `u32`.
words : TypeTable
words = record {
  heap = record (blank TyKind.u8) { size = 1 } ∷ record (blank TyKind.u32) { size = 4 } ∷ [];
  core = [];
  derived = [];
}

words-IsLaidOut : IsLaidOut words
unfolding words
words-IsLaidOut zero h = refl
words-IsLaidOut (suc zero) h = refl
words-IsLaidOut (suc (suc r)) h = cc

assignable-fits_example :
    Widens (deref words 0) (deref words 1)
    × (ty_int_fits words (deref words 0) 200 ≡ true → ty_int_fits words (deref words 1) 200 ≡ true)
assignable-fits_example =
    assignable-fits words 0 1 200 words-IsLaidOut (unfold words in refl) (unfold words in refl)
      (omega arith) (unfold words assignable assignable_real in refl)

at_start : SrcPos
at_start = record { line = 1; col = 1 }

-- `if c { return; } else { break; }`
both_jump : Stmt
both_jump =
    Stmt.if_stmt at_start (Expr.bool_lit at_start true)
      (Stmts.first (Stmt.ret at_start Expr.missing) Stmts.stop)
      (Stmt.block at_start (Stmts.first (Stmt.break_stmt at_start) Stmts.stop))

stmt_diverges_iff_example : (stmt_diverges both_jump ≡ true) ↔ ¬ Ends both_jump falls
stmt_diverges_iff_example = stmt_diverges_iff both_jump
