-- ===== src/Parser/Recover.antt =====
-- Panic-mode recovery (src/parser/parser.c): the tokens up to a boundary are skipped.
use slop.Base.{ℕ, zero, suc, Bool, true, false, ◌||◌, if◌then◌else◌}
use slop.Lexer.Kind.{TokenKind, kind_eq}
use slop.Parser.State.{Parse, ◌>>=◌, ◌>>◌, done, out_of_fuel, peek, left, advance, accept}

-- The tokens that `sync_stmt` stops at.
abbrev pub starts_stmt : TokenKind → Bool
starts_stmt TokenKind.rbrace = true
starts_stmt TokenKind.lbrace = true
starts_stmt TokenKind.kw_let = true
starts_stmt TokenKind.kw_if = true
starts_stmt TokenKind.kw_while = true
starts_stmt TokenKind.kw_match = true
starts_stmt TokenKind.kw_return = true
starts_stmt TokenKind.kw_break = true
starts_stmt TokenKind.kw_continue = true
starts_stmt TokenKind.kw_fn = true
starts_stmt TokenKind.kw_struct = true
starts_stmt TokenKind.kw_enum = true
starts_stmt TokenKind.kw_extern = true
starts_stmt _ = false

abbrev pub starts_item : TokenKind → Bool
starts_item TokenKind.kw_fn = true
starts_item TokenKind.kw_struct = true
starts_item TokenKind.kw_enum = true
starts_item TokenKind.kw_let = true
starts_item TokenKind.kw_extern = true
starts_item _ = false

unfoldable pub sync_stmt_loop : ℕ → Parse (Unit {0})
unfolding accept
sync_stmt_loop zero = out_of_fuel
sync_stmt_loop (suc f) = do
  k ← peek
  if kind_eq k TokenKind.eof then done else do
    semi ← accept TokenKind.semi
    j ← peek
    if semi || starts_stmt j then done else advance >> sync_stmt_loop f

unfoldable pub sync_stmt : Parse (Unit {0})
unfolding sync_stmt_loop
sync_stmt = do n ← left; sync_stmt_loop n

unfoldable pub sync_member_loop : ℕ → Parse (Unit {0})
unfolding accept
sync_member_loop zero = out_of_fuel
sync_member_loop (suc f) = do
  k ← peek
  if kind_eq k TokenKind.eof
      then done
      else if kind_eq k TokenKind.semi || kind_eq k TokenKind.comma
      then advance >> done
      else if kind_eq k TokenKind.rbrace
      then done
      else advance >> sync_member_loop f

unfoldable pub sync_member : Parse (Unit {0})
unfolding sync_member_loop
sync_member = do n ← left; sync_member_loop n

unfoldable pub sync_item_loop : ℕ → Parse (Unit {0})
sync_item_loop zero = out_of_fuel
sync_item_loop (suc f) = do
  k ← peek
  if kind_eq k TokenKind.eof || starts_item k then done else advance >> sync_item_loop f

unfoldable pub sync_item : Parse (Unit {0})
unfolding sync_item_loop
sync_item = do n ← left; sync_item_loop n
