-- ===== src/Sema/Check/Contract.antt =====
-- What a caller may rely on of the checker's parts (src/sema/sema.c).
use slop.Base.{suc, ◌+◌, ◌<◌, ◌^◌, sym, arith, List, ◌≤◌, ◌≡◌, Option, some, ℕ}
use mathlib.Core.Path.{subst}
use slop.Ast.{Item, Expr, Stmts, Field}
use slop.Parser.Total.Exprs.{WholeExpr}
use slop.Parser.Total.Stmts.{WholeStmts}
use slop.Sema.Types.{TyRef}
use slop.Sema.Check.State.{Sema}
use slop.Sema.Check.Tree.{Typed, TypedStmts, enter}
use slop.Sema.Check.Layout.{resolve_type, layout_struct, Placed, place_fields, nothing_placed}
use slop.Sema.Check.Exprs.{check_expr}
use slop.Sema.Check.Stmts.{check_stmts, check_block}
use slop.Sema.Check.Layout.Spread.{
  Part, AreRead, fields_in, place_all, AllAligned, room, IsLaid, place_all-IsLaid,
}
use slop.Sema.Check.Program.{check_program}
use slop.Sema.Check.Total.Program.{WholeFile, AllBodies, check_program-Runs}
use slop.Sema.Check.Ready.{work, Good}
use slop.Sema.Check.Whole.{AllTyped}
use slop.Ast.{Syntax}
use slop.Sema.Check.Total.Layout.{resolve_type-Runs, place_fields-Runs, layout_struct-Lays}
use slop.Sema.Check.Total.Check.{check_expr-Runs}
use slop.Sema.Check.Total.Scoped.{scoped-Restores}
use slop.Sema.Check.Total.Blocks.{AllStmts, check_stmts-Runs}

-- In a good state the check of an expression with no child missing returns, whatever type is
-- expected of it: it runs out of no fuel and follows no NULL. The state is good again, no report is
-- taken back, and where none was made every expression in the resulting tree has its type, the
-- callees of calls apart.
pub check_expr-AllTyped :
    (e : Expr) (expected : Option TyRef) (s : Sema)
    → Good s
    → WholeExpr e
    → (q : Sema) × (r : Typed × TyRef) × (check_expr (enter e) expected s ≡ some (q, r))
      × Good q
      × (s.diag.count ≤ q.diag.count)
      × (q.diag.count ≡ s.diag.count → AllTyped r.0)
check_expr-AllTyped e expected s g h =
    let c = check_expr-Runs e expected g h in
    (c.next, c.result, c.run, c.moves.good, c.moves.count, c.clean)

-- In a good state the check of a block with no child missing returns. The scopes and the depth of
-- loops are what they were before, the state is good again, no report is taken back, and where none
-- was made every expression of the statements has its type, the callees of calls and what stands
-- below the root of a label apart.
pub check_block-restores :
    (b : Stmts) (s : Sema)
    → Good s
    → WholeStmts b
    → (q : Sema) × (y : TypedStmts) × (check_block b s ≡ some (q, y))
      × (q.scopes ≡ s.scopes)
      × (q.loop_depth ≡ s.loop_depth)
      × Good q
      × (s.diag.count ≤ q.diag.count)
      × (q.diag.count ≡ s.diag.count → AllStmts y)
unfolding check_block
check_block-restores b s g h =
    let c = scoped-Restores (check_stmts b) g (λ q gq. check_stmts-Runs b gq h) in
    (
      c.runs.next, c.runs.result, c.runs.run, c.scopes, c.runs.moves.loop_depth, c.runs.moves.good,
      c.runs.moves.count, c.runs.clean,
    )

-- In a good state the resolution of every written type returns: its fuel is enough for however deep
-- structs lie within structs, and a struct that contains itself does not keep it going.
pub resolve_type-returns :
    (t : Syntax) (s : Sema)
    → Good s
    → (q : Sema) × (r : TyRef) × (resolve_type t s ≡ some (q, r)) × Good q
resolve_type-returns t s g =
    let c = resolve_type-Runs t g in (c.next, c.result, c.run, c.moves.good)

-- In a good state the loop over the fields of a struct returns. What it gives is the fields `xs`
-- placed one behind the other. They are the struct's fields, read in their order, each with the
-- type that its resolution gives and that type's record as it stands then. Where the fields with their gaps
-- stay below 2^32 bytes, every field starts at a multiple of its alignment and no earlier than the
-- one before it ends, the last one ends within the struct's size, and the size is a multiple of the
-- struct's alignment, which is a multiple of every field's.
pub place_fields-IsLaid :
    (fs : List Field) (s : Sema)
    → Good s
    → (q : Sema) × (p : Placed) × (xs : List Part) × (place_fields layout_struct fs nothing_placed s
        ≡ some (q, p))
      × AreRead layout_struct fs s xs
      × (fields_in xs ≡ fs)
      × (p ≡ place_all nothing_placed xs)
      × AllAligned xs
      × (room xs + 8 < 2 ^ 32 → IsLaid xs p)
place_fields-IsLaid fs s g =
    let n : ℕ = suc (work s.types.heap) in
    let c =
      place_fields-Runs n layout_struct (layout_struct-Lays n) fs nothing_placed g (omega arith) in
    let v = c.always in
    (
      c.next,
      c.result,
      v.parts,
      c.run,
      v.read,
      v.declared,
      v.placed,
      v.aligned,
      λ h. subst (IsLaid v.parts) (sym v.placed) (place_all-IsLaid v.parts v.aligned h),
    )

-- From a good state outside of loops the check of the bodies of a file with no child missing
-- returns. The state is good again, no report is taken back, and where none was made every
-- expression of the bodies has its type, the callees of calls and what stands below the root of a
-- label apart.
pub check_program-AllBodies :
    (n : ℕ) (items : List (Option Item)) (s : Sema)
    → Good s
    → s.loop_depth ≡ 0
    → WholeFile items
    → (q : Sema) × (bodies : List TypedStmts) × (check_program n items s ≡ some (q, bodies))
      × Good q
      × (s.diag.count ≤ q.diag.count)
      × (q.diag.count ≡ s.diag.count → AllBodies bodies)
check_program-AllBodies n items s g e h =
    let c = check_program-Runs n items g e h in
    (c.next, c.result, c.run, c.moves.good, c.moves.count, c.clean)
