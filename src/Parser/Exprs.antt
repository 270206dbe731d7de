-- ===== src/Parser/Exprs.antt =====
-- Expressions (src/parser/parser.c): the precedence ladder over unary, postfix and primary
-- expressions. A parser that C reaches through a later recursion is a parameter, `expr` or
-- `unary`; `parse_unary` ties the knot on fuel.
use slop.Base.{ℕ, zero, suc, List, [], Bool, true, false, ◌||◌, if◌then◌else◌, Option, none, some}
use slop.Ast.{Expr, Exprs, Syntax}
use slop.Lexer.Kind.{TokenKind, kind_eq}
use slop.Support.Diag.{SrcPos}
use slop.Support.StrView.{StrView}
use slop.Parser.State.{
  Parse, ◌>>=◌, ◌>>◌, pure, out_of_fuel, peek, here, at, left, advance, accept, expect,
  expect_ident, error_unexpected, tok_view, ival_of, fval_of, str_of, limited,
}
use slop.Parser.Types.{parse_type}

abbrev pub is_missing : Expr → Bool
is_missing Expr.missing = true
is_missing _ = false

-- The name that `expect_ident` wrote, or the cleared one.
abbrev pub or_empty : Option StrView → StrView
or_empty none = []
or_empty (some v) = v

-- The literals of `parse_primary`, which are all that `parse_literal` takes.
abbrev pub starts_literal : TokenKind → Bool
starts_literal TokenKind.int = true
starts_literal TokenKind.float = true
starts_literal TokenKind.char = true
starts_literal TokenKind.string = true
starts_literal TokenKind.kw_true = true
starts_literal TokenKind.kw_false = true
starts_literal TokenKind.kw_null = true
starts_literal _ = false

-- The node of a literal token.
abbrev pub literal_node : SrcPos → TokenKind → (ℕ × List ℕ × List ℕ) → Expr
literal_node pos TokenKind.int (n, f, s) = Expr.int_lit pos n
literal_node pos TokenKind.float (n, f, s) = Expr.float_lit pos f
literal_node pos TokenKind.char (n, f, s) = Expr.char_lit pos n
literal_node pos TokenKind.string (n, f, s) = Expr.string_lit pos s
literal_node pos TokenKind.kw_true v = Expr.bool_lit pos true
literal_node pos TokenKind.kw_false v = Expr.bool_lit pos false
literal_node pos _ v = Expr.null_lit pos

unfoldable pub parse_primary : Parse Expr → Parse Expr
unfolding expect
parse_primary expr = do
  pos ← here
  k ← peek
  if starts_literal k
      then (do
        t ← advance
        pure (literal_node pos t.kind (ival_of t.val, fval_of t.val, str_of t.val)))
      else if kind_eq k TokenKind.ident
      then (do t ← advance; pure (Expr.name pos (tok_view t)))
      else if kind_eq k TokenKind.lparen
      then (do _ ← advance; e ← expr; _ ← expect TokenKind.rparen; pure e)
      else (error_unexpected >> pure Expr.missing)

-- The arguments behind the first `(`, one at least.
unfoldable pub args_loop : Parse Expr → ℕ → Parse Exprs
unfolding accept
args_loop expr zero = out_of_fuel
args_loop expr (suc f) = do
  e ← expr
  more ← accept TokenKind.comma
  if more
      then (do rest ← args_loop expr f; pure (Exprs.arg e rest))
      else pure (Exprs.arg e Exprs.no_args)

unfoldable pub parse_args : Parse Expr → Parse Exprs
unfolding args_loop
parse_args expr = do
  empty ← at TokenKind.rparen
  if empty then pure Exprs.no_args else (do n ← left; args_loop expr n)

-- Behind `.`: a cast or a field.
unfoldable pub parse_dot : SrcPos → Expr → Parse Expr
unfolding accept expect expect_ident parse_type
parse_dot pos e = do
  cast ← accept TokenKind.kw_as
  if cast
      then (do
        open_paren ← expect TokenKind.lparen
        if open_paren
            then (do t ← parse_type; _ ← expect TokenKind.rparen; pure (Expr.cast pos e t))
            else pure (Expr.cast pos e Syntax.missing))
      else (do name ← expect_ident; pure (Expr.field pos e (or_empty name)))

unfoldable pub postfix_loop : Parse Expr → ℕ → Expr → Parse Expr
unfolding accept expect parse_args parse_dot
postfix_loop expr zero e = out_of_fuel
postfix_loop expr (suc f) e = do
  pos ← here
  call ← accept TokenKind.lparen
  if call
      then (do
        args ← parse_args expr
        _ ← expect TokenKind.rparen
        postfix_loop expr f (Expr.call pos e args))
      else do
        index ← accept TokenKind.lbracket
        if index
            then (do
              i ← expr
              _ ← expect TokenKind.rbracket
              postfix_loop expr f (Expr.index pos e i))
            else do
              dot ← accept TokenKind.dot
              if dot then (do e' ← parse_dot pos e; postfix_loop expr f e') else pure e

unfoldable pub parse_postfix : Parse Expr → Parse Expr
unfolding parse_primary postfix_loop
parse_postfix expr = do
  e ← parse_primary expr
  if is_missing e then pure Expr.missing else (do n ← left; postfix_loop expr n e)

-- One rung of the ladder: the operators of one precedence, from left to right.
unfoldable pub binary_loop : (TokenKind → Bool) → Parse Expr → ℕ → Expr → Parse Expr
binary_loop is_op operand zero lhs = out_of_fuel
binary_loop is_op operand (suc f) lhs = do
  k ← peek
  if is_op k
      then (do
        pos ← here
        op ← advance
        rhs ← operand
        binary_loop is_op operand f (Expr.binary pos op.kind lhs rhs))
      else pure lhs

unfoldable pub binary_level : (TokenKind → Bool) → Parse Expr → Parse Expr
unfolding binary_loop
binary_level is_op operand = do lhs ← operand; n ← left; binary_loop is_op operand n lhs

abbrev pub is_mul : TokenKind → Bool
is_mul k = kind_eq k TokenKind.star || (kind_eq k TokenKind.slash || kind_eq k TokenKind.percent)

abbrev pub is_add : TokenKind → Bool
is_add k = kind_eq k TokenKind.plus || kind_eq k TokenKind.minus

abbrev pub is_shift : TokenKind → Bool
is_shift k = kind_eq k TokenKind.shl || kind_eq k TokenKind.shr

abbrev pub is_relational : TokenKind → Bool
is_relational k =
    kind_eq k TokenKind.lt
    || (kind_eq k TokenKind.le || (kind_eq k TokenKind.gt || kind_eq k TokenKind.ge))

abbrev pub is_equality : TokenKind → Bool
is_equality k = kind_eq k TokenKind.eq_eq || kind_eq k TokenKind.bang_eq

abbrev pub is_one : TokenKind → TokenKind → Bool
is_one op k = kind_eq k op

module _ (unary : Parse Expr) where
  unfoldable pub parse_mul : Parse Expr
  parse_mul = binary_level is_mul unary

  unfoldable pub parse_add : Parse Expr
  parse_add = binary_level is_add parse_mul

  unfoldable pub parse_shift : Parse Expr
  parse_shift = binary_level is_shift parse_add

  unfoldable pub parse_bitand : Parse Expr
  parse_bitand = binary_level (is_one TokenKind.amp) parse_shift

  unfoldable pub parse_bitxor : Parse Expr
  parse_bitxor = binary_level (is_one TokenKind.caret) parse_bitand

  unfoldable pub parse_bitor : Parse Expr
  parse_bitor = binary_level (is_one TokenKind.pipe) parse_bitxor

  unfoldable pub parse_relational : Parse Expr
  parse_relational = binary_level is_relational parse_bitor

  unfoldable pub parse_equality : Parse Expr
  parse_equality = binary_level is_equality parse_relational

  unfoldable pub parse_logical_and : Parse Expr
  parse_logical_and = binary_level (is_one TokenKind.amp_amp) parse_equality

  unfoldable pub parse_logical_or : Parse Expr
  parse_logical_or = binary_level (is_one TokenKind.pipe_pipe) parse_logical_and

  -- `parse_expr` over the recursion of `parse_unary`.
  unfoldable pub expr_over : Parse Expr
  unfolding limited
  expr_over = limited Expr.missing parse_logical_or

abbrev pub is_prefix : TokenKind → Bool
is_prefix TokenKind.minus = true
is_prefix TokenKind.bang = true
is_prefix TokenKind.tilde = true
is_prefix TokenKind.star = true
is_prefix TokenKind.amp = true
is_prefix _ = false

-- `sizeof` behind its keyword.
unfoldable pub parse_sizeof : SrcPos → Parse Expr
unfolding expect parse_type
parse_sizeof pos = do
  open_paren ← expect TokenKind.lparen
  if open_paren
      then (do t ← parse_type; _ ← expect TokenKind.rparen; pure (Expr.size_of pos t))
      else pure (Expr.size_of pos Syntax.missing)

-- The body of `parse_unary` over its own recursion.
unfoldable pub unary_over : Parse Expr → Parse Expr
unfolding parse_sizeof parse_postfix expr_over
unary_over unary = do
  pos ← here
  k ← peek
  if is_prefix k
      then (do op ← advance; e ← unary; pure (Expr.unary pos op.kind e))
      else if kind_eq k TokenKind.kw_sizeof
      then (advance >> parse_sizeof pos)
      else parse_postfix (expr_over unary)

unfoldable pub parse_unary : ℕ → Parse Expr
unfolding unary_over
parse_unary zero = out_of_fuel
parse_unary (suc f) = unary_over (parse_unary f)

-- Every recursion is behind a token, so one round for each token is enough.
unfoldable pub parse_expr : Parse Expr
unfolding parse_unary expr_over
parse_expr = do n ← left; expr_over (parse_unary n)

unfoldable pub parse_literal : Parse Expr
unfolding parse_primary
parse_literal = do
  k ← peek
  if starts_literal k then parse_primary out_of_fuel else (error_unexpected >> pure Expr.missing)
