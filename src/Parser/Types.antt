-- ===== src/Parser/Types.antt =====
-- Types (src/parser/parser.c, `parse_type`): a core type or a name, and its suffixes from left to
-- right. Every node has the position of the first token.
use slop.Base.{ℕ, zero, suc, if◌then◌else◌}
use slop.Ast.{Syntax, core_type, named_type, pointer_type, array_type}
use slop.Lexer.Kind.{TokenKind, kind_eq, token_is_core_type}
use slop.Support.Diag.{SrcPos}
use slop.Parser.State.{
  Parse, ◌>>=◌, ◌>>◌, pure, out_of_fuel, peek, here, at, left, advance, accept, expect,
  error_unexpected, tok_view, ival_of,
}

-- The length between the brackets; 0 with an error where it is no integer literal.
unfoldable pub array_length : Parse ℕ
array_length = do
  int ← at TokenKind.int
  if int then (do t ← advance; pure (ival_of t.val)) else (error_unexpected >> pure 0)

unfoldable pub type_suffixes : ℕ → SrcPos → Syntax → Parse Syntax
unfolding accept array_length expect
type_suffixes zero pos t = out_of_fuel
type_suffixes (suc f) pos t = do
  star ← accept TokenKind.star
  if star then type_suffixes f pos (pointer_type pos t) else do
    bracket ← accept TokenKind.lbracket
    if bracket
        then (do
          n ← array_length
          _ ← expect TokenKind.rbracket
          type_suffixes f pos (array_type pos t n))
        else pure t

unfoldable pub suffixed : SrcPos → Syntax → Parse Syntax
unfolding type_suffixes
suffixed pos t = do n ← left; type_suffixes n pos t

unfoldable pub parse_type : Parse Syntax
unfolding suffixed token_is_core_type
parse_type = do
  pos ← here
  k ← peek
  if token_is_core_type k
      then (do t ← advance; suffixed pos (core_type pos t.kind))
      else if kind_eq k TokenKind.ident
      then (do t ← advance; suffixed pos (named_type pos (tok_view t)))
      else (error_unexpected >> pure Syntax.missing)
