-- ===== src/Sema/Check/Tests.antt =====
-- Runs of the checker, and its theorems at concrete inputs.
use slop.Base.{
  some_injective, sym, zero, suc, if_both, arith, Bool, get_elem?, bytes_eq, ◌&&◌, ◌+◌, ◌<◌, ◌^◌,
  List, ◌≤◌, ◌≡◌, [], true, none, some, inr, ◌∷◌, false, ℕ, refl, inl,
}
use mathlib.Core.Path.{subst}
use slop.Sema.Check.Stmts.{member_of}
use slop.Ast.{FnDecl, fn_item, Expr, Stmt, Stmts, Syntax, Field}
use slop.Lexer.Kind.{TokenKind, codes}
use slop.Support.Diag.{SrcPos}
use slop.Sema.Types.{TyRef}
use slop.Support.StrView.{StrView}
use slop.Support.Map.{Map, map_init, map_put, map_get}
use slop.Support.Map.Linear.{occupied}
use slop.Support.Map.Put.{IsValid, Puts, view, map_put-Puts, map_get-view}
use slop.Sema.Scope.{Sym, SymKind, globals_find_type, globals_find_value}
use slop.Sema.Check.State.{Sema, sym_new}
use slop.Sema.Check.Tree.{Typed, TypedStmts, enter}
use slop.Sema.Check.Layout.{resolve_type, Placed, place_fields, layout_struct, nothing_placed}
use slop.Sema.Check.Layout.Spread.{Part, AreRead, fields_in, place_all, AllAligned, room, IsLaid}
use slop.Sema.Check.Exprs.{check_expr}
use slop.Sema.Check.Stmts.{check_block}
use slop.Sema.Check.Program.{sema_init, check_program}
use slop.Sema.Check.Ready.{Good, There, Member}
use slop.Sema.Check.Total.Program.{AllBodies}
use slop.Sema.Check.Start.{sema_init-Good}
use slop.Sema.Check.Whole.{AllTyped}
use slop.Sema.Check.Total.Blocks.{AllStmts}
use slop.Sema.Check.Contract.{
  check_expr-AllTyped, check_block-restores, resolve_type-returns, place_fields-IsLaid,
  check_program-AllBodies,
}

abbrev at_start : SrcPos
at_start = record { line = 1; col = 1 }

abbrev empty_state : Sema
empty_state = sema_init []

-- `1 + (1.5).as(u8)`, whose cast checks its operand twice.
abbrev sum : Expr
sum = Expr.binary at_start TokenKind.plus (Expr.int_lit at_start 1) (
    Expr.cast at_start (Expr.float_lit at_start (codes "1.5"))
      (Syntax.core_type at_start TokenKind.kw_u8))

check_expr-AllTyped_example :
    (q : Sema) × (r : Typed × TyRef) × (check_expr (enter sum) none empty_state ≡ some (q, r))
    × Good q
    × (empty_state.diag.count ≤ q.diag.count)
    × (q.diag.count ≡ empty_state.diag.count → AllTyped r.0)
check_expr-AllTyped_example =
    check_expr-AllTyped sum none empty_state (sema_init-Good []) (tt, (tt, tt))

-- `{ let mut i32 x = 1; while true { x += 1; break; } }`
abbrev counting : Stmts
counting =
    Stmts.first
      (Stmt.var at_start true (Syntax.core_type at_start TokenKind.kw_i32) (codes "x")
        (Expr.int_lit at_start 1))
      (Stmts.first
        (Stmt.while_stmt at_start (Expr.bool_lit at_start true) (
          Stmts.first
            (Stmt.assign at_start (Expr.name at_start (codes "x")) TokenKind.plus_eq
              (Expr.int_lit at_start 1))
            (Stmts.first (Stmt.break_stmt at_start) Stmts.stop)))
        Stmts.stop)

check_block-restores_example :
    (q : Sema) × (y : TypedStmts) × (check_block counting empty_state ≡ some (q, y))
    × (q.scopes ≡ empty_state.scopes)
    × (q.loop_depth ≡ empty_state.loop_depth)
    × Good q
    × (empty_state.diag.count ≤ q.diag.count)
    × (q.diag.count ≡ empty_state.diag.count → AllStmts y)
check_block-restores_example =
    check_block-restores counting empty_state (sema_init-Good [])
      ((tt, inr tt), ((tt, ((tt, tt), (tt, tt))), tt))

-- `u8*[4]`
abbrev table_type : Syntax
table_type =
    Syntax.array_type at_start
      (Syntax.pointer_type at_start (Syntax.core_type at_start TokenKind.kw_u8)) 4

resolve_type-returns_example :
    (q : Sema) × (r : TyRef) × (resolve_type table_type empty_state ≡ some (q, r)) × Good q
resolve_type-returns_example = resolve_type-returns table_type empty_state (sema_init-Good [])

-- `u8 a; i32 b;`
abbrev two_fields : List Field
two_fields =
    record { pos = at_start; type = Syntax.core_type at_start TokenKind.kw_u8; name = codes "a" }
    ∷ record { pos = at_start; type = Syntax.core_type at_start TokenKind.kw_i32; name = codes "b" }
    ∷ []

place_fields-IsLaid_example :
    (q : Sema) × (p : Placed) × (xs : List Part) × (place_fields layout_struct two_fields
        nothing_placed empty_state
      ≡ some (q, p))
    × AreRead layout_struct two_fields empty_state xs
    × (fields_in xs ≡ two_fields)
    × (p ≡ place_all nothing_placed xs)
    × AllAligned xs
    × (room xs + 8 < 2 ^ 32 → IsLaid xs p)
place_fields-IsLaid_example = place_fields-IsLaid two_fields empty_state (sema_init-Good [])

-- A function `f` with the block above as its body.
abbrev counter : FnDecl
counter = record {
  pos = at_start;
  name = codes "f";
  params = [];
  is_variadic = false;
  ret = Syntax.core_type at_start TokenKind.kw_void;
  body = counting;
  has_body = true;
}

abbrev counter_sym : Sym
counter_sym = record (sym_new SymKind.fn (codes "f") at_start) { decl = some (0, 0) }

-- The values with `f` alone.
values : Map ℕ
values = elim (map_put {V = ℕ} map_init (codes "f") 0) [ none ↦ map_init | some r ↦ r.0 ]

abbrev counter_state : Sema
counter_state = record empty_state {
  globals = record { types = map_init; values = values };
  syms = counter_sym ∷ [];
}

empty-IsValid : IsValid (map_init {V = ℕ})
unfolding map_init occupied
empty-IsValid = record { shape = inl (refl, refl, refl); count = refl; load = omega arith }

empty_small : (map_init {V = ℕ}).cap ≤ 2 ^ 29
unfolding map_init
empty_small = omega arith

view-none : (name : StrView) → view (map_init {V = ℕ}) name ≡ none
unfolding map_get map_init
view-none name = sym (some_injective (map_get-view map_init name empty-IsValid))

put-There :
    (r : Map ℕ × Bool)
    → Puts map_init (codes "f") 0 r
    → (name : StrView) → There (map_get r.0 name) 1
put-There r p name = rw (map_get-view r.0 name p.valid) (
    rw (p.reads name) (
      if_both (λ o. There (some o) 1) (r.1 && bytes_eq (codes "f") name) (λ _. omega arith)
        (λ _. rw (view-none name) tt)))

values-There : (name : StrView) → There (map_get values name) 1
unfolding values
values-There name =
    let (r, run, p) = map_put-Puts map_init (codes "f") 0 empty-IsValid empty_small in
    rw (run, values) (put-There r p name)

counter_state-Good : Good counter_state
unfolding globals_find_type map_get map_init globals_find_value
counter_state-Good =
    let g = sema_init-Good [] in
    record {
      types = g.types;
      names = record { types = λ name. tt; values = values-There; members = counter-Member };
      fn = tt;
    }
  where
    counter-Member : (i : ℕ) (x : Sym) → get_elem? (counter_sym ∷ []) i ≡ some x → Member x
    counter-Member zero x e m f =
        let none_there =
          subst (λ (y : Sym). member_of (some y) ≡ some m) (sym (some_injective e)) f in
        cc none_there
    counter-Member (suc i) x e m f = cc

check_program-AllBodies_example :
    (q : Sema) × (bodies : List TypedStmts) × (check_program 0
        (some (fn_item at_start counter) ∷ [])
        counter_state
      ≡ some (q, bodies))
    × Good q
    × (counter_state.diag.count ≤ q.diag.count)
    × (q.diag.count ≡ counter_state.diag.count → AllBodies bodies)
check_program-AllBodies_example =
    check_program-AllBodies 0 (some (fn_item at_start counter) ∷ []) counter_state
      counter_state-Good refl ((tt, (tt, ((tt, inr tt), ((tt, ((tt, tt), (tt, tt))), tt)))), tt)
