-- ===== src/Parser/Stmts.antt =====
-- Statements (src/parser/parser.c). The parser of a nested statement is a parameter, `stmt`;
-- `parse_stmt` ties the knot on fuel. A statement that C returns as NULL is `missing`. The result
-- of a block is its statements; the position of its brace is not kept.
use slop.Base.{
  ℕ, zero, suc, List, [], ◌∷◌, Bool, true, false, ◌||◌, ◌==◌, if◌then◌else◌, Option, none, some,
}
use slop.Ast.{Expr, Stmt, Stmts, Arms, MatchLabel, Syntax}
use slop.Lexer.Kind.{TokenKind, kind_eq}
use slop.Support.Diag.{SrcPos}
use slop.Support.StrView.{strview_eq}
use slop.Parser.State.{
  Parse, ◌>>=◌, ◌>>◌, pure, done, out_of_fuel, peek, here, at, left, advance, accept, expect,
  expect_ident, error_unexpected, tok_view, ival_of, limited,
}
use slop.Parser.Recover.{sync_stmt}
use slop.Parser.Types.{parse_type}
use slop.Parser.Exprs.{parse_expr, is_missing}

abbrev pub is_assign_op : TokenKind → Bool
is_assign_op TokenKind.eq = true
is_assign_op TokenKind.plus_eq = true
is_assign_op TokenKind.minus_eq = true
is_assign_op TokenKind.star_eq = true
is_assign_op TokenKind.slash_eq = true
is_assign_op TokenKind.percent_eq = true
is_assign_op TokenKind.amp_eq = true
is_assign_op TokenKind.pipe_eq = true
is_assign_op TokenKind.caret_eq = true
is_assign_op TokenKind.shl_eq = true
is_assign_op TokenKind.shr_eq = true
is_assign_op _ = false

abbrev pub is_null_stmt : Stmt → Bool
is_null_stmt Stmt.missing = true
is_null_stmt _ = false

abbrev pub is_null_type : Syntax → Bool
is_null_type Syntax.missing = true
is_null_type _ = false

-- A statement that was parsed is pushed onto the list.
abbrev pub pushed : Stmt → Stmts → Stmts
pushed Stmt.missing ss = ss
pushed s ss = Stmts.first s ss

-- The guard of the recovery: a round that took no token takes one.
unfoldable pub make_progress : ℕ → Parse (Unit {0})
make_progress before = do after ← left; if after == before then (advance >> done) else done

unfoldable pub block_loop : Parse Stmt → ℕ → Parse Stmts
unfolding sync_stmt make_progress
block_loop stmt zero = out_of_fuel
block_loop stmt (suc f) = do
  k ← peek
  if kind_eq k TokenKind.rbrace || kind_eq k TokenKind.eof then pure Stmts.stop else do
    before ← left
    s ← stmt
    _ ← if is_null_stmt s then sync_stmt else done
    _ ← make_progress before
    ss ← block_loop stmt f
    pure (pushed s ss)

unfoldable pub parse_block : Parse Stmt → Parse Stmts
unfolding expect block_loop
parse_block stmt = do
  brace ← expect TokenKind.lbrace
  if brace
      then (do n ← left; ss ← block_loop stmt n; _ ← expect TokenKind.rbrace; pure ss)
      else pure Stmts.stop

unfoldable pub parse_block_stmt : Parse Stmt → Parse Stmt
unfolding parse_block
parse_block_stmt stmt = do pos ← here; ss ← parse_block stmt; pure (Stmt.block pos ss)

-- The initializer of a declaration, if there is one.
unfoldable pub parse_init : Parse Expr
unfolding accept parse_expr
parse_init = do given ← accept TokenKind.eq; if given then parse_expr else pure Expr.missing

unfoldable pub parse_var_decl : Parse Stmt
unfolding accept expect expect_ident parse_type parse_init
parse_var_decl = do
  pos ← here
  _ ← advance
  is_mut ← accept TokenKind.kw_mut
  t ← parse_type
  if is_null_type t then pure Stmt.missing else do
    ident ← expect_ident
    elim ident [
      | none ↦ pure Stmt.missing
      | some name ↦ do
        init ← parse_init
        _ ← expect TokenKind.semi
        pure (Stmt.var pos is_mut t name init)
    ]

-- An `if`, on fuel for the chain of `else if`.
unfoldable pub parse_if : Parse Stmt → ℕ → Parse Stmt
unfolding parse_expr parse_block parse_block_stmt accept
parse_if stmt zero = out_of_fuel
parse_if stmt (suc f) = do
  pos ← here
  _ ← advance
  cond ← parse_expr
  then_block ← parse_block stmt
  has_else ← accept TokenKind.kw_else
  if has_else
      then (do
        k ← peek
        if kind_eq k TokenKind.kw_if
            then (do e ← parse_if stmt f; pure (Stmt.if_stmt pos cond then_block e))
            else if kind_eq k TokenKind.lbrace
            then (do e ← parse_block_stmt stmt; pure (Stmt.if_stmt pos cond then_block e))
            else (error_unexpected >> pure (Stmt.if_stmt pos cond then_block Stmt.missing)))
      else pure (Stmt.if_stmt pos cond then_block Stmt.missing)

unfoldable pub parse_while : Parse Stmt → Parse Stmt
unfolding parse_expr parse_block
parse_while stmt = do
  pos ← here
  _ ← advance
  cond ← parse_expr
  body ← parse_block stmt
  pure (Stmt.while_stmt pos cond body)

-- One label of an arm; `none` with an error where the token is none.
unfoldable pub parse_label : Parse (Option MatchLabel)
parse_label = do
  pos ← here
  k ← peek
  if kind_eq k TokenKind.ident
      then (do
        t ← advance
        pure (
            some (
              if strview_eq (tok_view t) (b'_' ∷ [])
              then record { pos = pos; is_wildcard = true; value = Expr.missing }
              else record { pos = pos; is_wildcard = false; value = Expr.name pos (tok_view t) })))
      else if kind_eq k TokenKind.int
      then (do
        t ← advance
        pure (
            some (record {
              pos = pos;
              is_wildcard = false;
              value = Expr.int_lit pos (ival_of t.val);
            })))
      else if kind_eq k TokenKind.char
      then (do
        t ← advance
        pure (
            some (record {
              pos = pos;
              is_wildcard = false;
              value = Expr.char_lit pos (ival_of t.val);
            })))
      else (error_unexpected >> pure none)

-- The labels of an arm, one at least.
unfoldable pub labels_loop : ℕ → Parse (Option (List MatchLabel))
unfolding parse_label accept
labels_loop zero = out_of_fuel
labels_loop (suc f) = do
  label ← parse_label
  elim label [
    | none ↦ pure none
    | some l ↦ do
      more ← accept TokenKind.comma
      if more
          then (do
            rest ← labels_loop f
            elim rest [ none ↦ pure none | some ls ↦ pure (some (l ∷ ls)) ])
          else pure (some (l ∷ []))
  ]

-- The labels, position and body of an arm.
abbrev pub Arm : Type 0
Arm = SrcPos × List MatchLabel × Stmt

unfoldable pub parse_match_arm : Parse Stmt → Parse (Option Arm)
unfolding labels_loop expect
parse_match_arm stmt = do
  pos ← here
  n ← left
  labels ← labels_loop n
  elim labels [
    | none ↦ pure none
    | some ls ↦ do
      arrow ← expect TokenKind.fat_arrow
      if arrow
          then (do s ← stmt; pure (if is_null_stmt s then none else some (pos, ls, s)))
          else pure none
  ]

abbrev pub pushed_arm : Option Arm → Arms → Arms
pushed_arm none as' = as'
pushed_arm (some (pos, ls, s)) as' = Arms.arm pos ls s as'

abbrev pub is_none {ℓ} : {A : Type ℓ} → Option A → Bool
is_none none = true
is_none (some a) = false

unfoldable pub arms_loop : Parse Stmt → ℕ → Parse Arms
unfolding parse_match_arm sync_stmt make_progress
arms_loop stmt zero = out_of_fuel
arms_loop stmt (suc f) = do
  k ← peek
  if kind_eq k TokenKind.rbrace || kind_eq k TokenKind.eof then pure Arms.no_arms else do
    before ← left
    a ← parse_match_arm stmt
    _ ← if is_none a then sync_stmt else done
    _ ← make_progress before
    rest ← arms_loop stmt f
    pure (pushed_arm a rest)

unfoldable pub parse_match : Parse Stmt → Parse Stmt
unfolding parse_expr expect arms_loop
parse_match stmt = do
  pos ← here
  _ ← advance
  scrutinee ← parse_expr
  brace ← expect TokenKind.lbrace
  if brace
      then (do
        n ← left
        arms ← arms_loop stmt n
        _ ← expect TokenKind.rbrace
        pure (Stmt.match_stmt pos scrutinee arms))
      else pure (Stmt.match_stmt pos scrutinee Arms.no_arms)

unfoldable pub parse_return : Parse Stmt
unfolding parse_expr expect
parse_return = do
  pos ← here
  _ ← advance
  bare ← at TokenKind.semi
  value ← if bare then pure Expr.missing else parse_expr
  _ ← expect TokenKind.semi
  pure (Stmt.ret pos value)

unfoldable pub parse_expr_stmt : Parse Stmt
unfolding parse_expr expect
parse_expr_stmt = do
  pos ← here
  e ← parse_expr
  if is_missing e then pure Stmt.missing else do
    k ← peek
    if is_assign_op k
        then (do
          at_op ← here
          op ← advance
          value ← parse_expr
          _ ← expect TokenKind.semi
          pure (Stmt.assign at_op e op.kind value))
        else (do _ ← expect TokenKind.semi; pure (Stmt.expr_stmt pos e))

-- `break`, `continue`: a keyword and a semicolon.
unfoldable pub parse_jump : (SrcPos → Stmt) → Parse Stmt
unfolding expect
parse_jump node = do pos ← here; _ ← advance; _ ← expect TokenKind.semi; pure (node pos)

-- The switch of `parse_stmt`.
unfoldable pub stmt_switch : Parse Stmt → TokenKind → Parse Stmt
unfolding parse_block_stmt parse_var_decl parse_if parse_while parse_match parse_return parse_jump
    parse_expr_stmt
stmt_switch stmt k =
    if kind_eq k TokenKind.lbrace
    then parse_block_stmt stmt
    else if kind_eq k TokenKind.kw_let
    then parse_var_decl
    else if kind_eq k TokenKind.kw_if
    then (do n ← left; parse_if stmt n)
    else if kind_eq k TokenKind.kw_while
    then parse_while stmt
    else if kind_eq k TokenKind.kw_match
    then parse_match stmt
    else if kind_eq k TokenKind.kw_return
    then parse_return
    else if kind_eq k TokenKind.kw_break
    then parse_jump Stmt.break_stmt
    else if kind_eq k TokenKind.kw_continue
    then parse_jump Stmt.continue_stmt
    else if kind_eq k TokenKind.semi
    then (do pos ← here; _ ← advance; pure (Stmt.empty pos))
    else parse_expr_stmt

-- The body of `parse_stmt` over its own recursion.
unfoldable pub stmt_over : Parse Stmt → Parse Stmt
unfolding limited stmt_switch
stmt_over stmt = limited Stmt.missing (do k ← peek; stmt_switch stmt k)

unfoldable pub stmt_rounds : ℕ → Parse Stmt
unfolding stmt_over
stmt_rounds zero = out_of_fuel
stmt_rounds (suc f) = stmt_over (stmt_rounds f)

-- A nested statement is behind a token, so one round for each token is enough.
unfoldable pub parse_stmt : Parse Stmt
unfolding stmt_rounds
parse_stmt = do n ← left; stmt_rounds n
