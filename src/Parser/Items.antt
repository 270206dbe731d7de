-- ===== src/Parser/Items.antt =====
-- Items and the whole file (src/parser/parser.c). Where C returns 0 or NULL the result is `none`.
use slop.Base.{
  ℕ, zero, suc, List, [], ◌∷◌, Bool, true, false, ◌||◌, if◌then◌else◌, Option, none, some, length,
}
use slop.Ast.{
  Expr, Stmts, Syntax, Param, FnDecl, Field, EnumMember, Item, fn_item, struct_item, enum_item,
  global_item, extern_item,
}
use slop.Lexer.Kind.{TokenKind, kind_eq, token_is_core_type}
use slop.Lexer.State.{Token}
use slop.Support.Diag.{SrcPos, diag_init, diag_error_count}
use slop.Support.StrView.{StrView}
use slop.Parser.State.{
  Parser, Parse, ◌>>=◌, ◌>>◌, pure, done, out_of_fuel, peek, here, at, left, advance, accept,
  expect, expect_ident, error_unexpected, error_at, ival_of, str_of, skip_error_tokens,
}
use slop.Parser.Recover.{sync_member, sync_item}
use slop.Parser.Types.{parse_type}
use slop.Parser.Exprs.{parse_literal, is_missing}
use slop.Parser.Stmts.{parse_stmt, parse_block, make_progress, is_null_type, is_none}

-- A type and a name; `none` where either fails.
unfoldable pub typed_name : Parse (Option (Syntax × StrView))
unfolding parse_type expect_ident
typed_name = do
  t ← parse_type
  if is_null_type t then pure none else do
    ident ← expect_ident
    elim ident [ none ↦ pure none | some name ↦ pure (some (t, name)) ]

-- The parameters up to the closing parenthesis, and whether `...` ended them.
unfoldable pub params_loop : Bool → ℕ → Parse (Option (List Param × Bool))
unfolding typed_name accept
params_loop is_extern zero = out_of_fuel
params_loop is_extern (suc f) = do
  dots ← at TokenKind.ellipsis
  if dots
      then (do
        pos ← here
        _ ← advance
        _ ← if is_extern then done else error_at pos
        pure (some ([], is_extern)))
      else do
        pos ← here
        is_mut ← accept TokenKind.kw_mut
        named ← typed_name
        elim named [
          | none ↦ pure none
          | some (t, name) ↦ do
            more ← accept TokenKind.comma
            let prm : Param = record { pos = pos; is_mut = is_mut; type = t; name = name }
            if more
                then (do
                  rest ← params_loop is_extern f
                  elim rest [ none ↦ pure none | some (ps, v) ↦ pure (some (prm ∷ ps, v)) ])
                else pure (some (prm ∷ [], false))
        ]

unfoldable pub parse_params : Bool → Parse (Option (List Param × Bool))
unfolding params_loop
parse_params is_extern = do
  empty ← at TokenKind.rparen
  if empty then pure (some ([], false)) else (do n ← left; params_loop is_extern n)

-- The return type behind `->`, or `void` at the position of the declaration.
unfoldable pub parse_ret : SrcPos → Parse Syntax
unfolding accept parse_type
parse_ret pos = do
  arrow ← accept TokenKind.arrow
  if arrow then parse_type else pure (Syntax.core_type pos TokenKind.kw_void)

-- What stands behind the signature: a semicolon, or the body.
unfoldable pub parse_fn_end : Bool → (Bool → Stmts → FnDecl) → Parse (Option FnDecl)
unfolding expect parse_block parse_stmt
parse_fn_end is_extern decl =
    if is_extern
    then (do ok ← expect TokenKind.semi; pure (if ok then some (decl false Stmts.stop) else none))
    else (do body ← parse_block parse_stmt; pure (some (decl true body)))

-- The declaration behind the parameters.
unfoldable pub parse_fn_tail : Bool → SrcPos → StrView → List Param → Bool → Parse (Option FnDecl)
unfolding expect parse_ret parse_fn_end
parse_fn_tail is_extern pos name params is_variadic = do
  closed ← expect TokenKind.rparen
  if closed
      then (do
        ret ← parse_ret pos
        if is_null_type ret
            then pure none
            else parse_fn_end is_extern (λ has_body body. record {
              pos = pos;
              name = name;
              params = params;
              is_variadic = is_variadic;
              ret = ret;
              body = body;
              has_body = has_body;
            }))
      else pure none

unfoldable pub parse_fn_decl : Bool → Parse (Option FnDecl)
unfolding expect expect_ident parse_params parse_fn_tail
parse_fn_decl is_extern = do
  pos ← here
  is_fn ← expect TokenKind.kw_fn
  if is_fn
      then (do
        ident ← expect_ident
        elim ident [
          | none ↦ pure none
          | some name ↦ do
            open_paren ← expect TokenKind.lparen
            if open_paren
                then (do
                  params ← parse_params is_extern
                  elim params [
                    | none ↦ pure none
                    | some (ps, v) ↦ parse_fn_tail is_extern pos name ps v
                  ])
                else pure none
        ])
      else pure none

abbrev pub kept {ℓ} : {A : Type ℓ} → Option A → List A → List A
kept none xs = xs
kept (some x) xs = x ∷ xs

-- The members between braces, each with its recovery.
unfoldable pub members_loop {ℓ} : {A : Type ℓ} → Parse (Option A) → ℕ → Parse (List A)
unfolding sync_member make_progress
members_loop member zero = out_of_fuel
members_loop member (suc f) = do
  k ← peek
  if kind_eq k TokenKind.rbrace || kind_eq k TokenKind.eof then pure [] else do
    before ← left
    m ← member
    _ ← if is_none m then sync_member else done
    _ ← make_progress before
    rest ← members_loop member f
    pure (kept m rest)

-- The members and the closing brace.
unfoldable pub members {ℓ} : {A : Type ℓ} → Parse (Option A) → Parse (List A)
unfolding members_loop expect
members member = do n ← left; ms ← members_loop member n; _ ← expect TokenKind.rbrace; pure ms

unfoldable pub parse_field : Parse (Option Field)
unfolding typed_name expect
parse_field = do
  pos ← here
  named ← typed_name
  elim named [
    | none ↦ pure none
    | some (t, name) ↦ do
      semi ← expect TokenKind.semi
      pure (if semi then some (record { pos = pos; type = t; name = name }) else none)
  ]

unfoldable pub parse_struct : Parse (Option Item)
unfolding expect_ident expect members parse_field
parse_struct = do
  pos ← here
  _ ← advance
  ident ← expect_ident
  elim ident [
    | none ↦ pure none
    | some name ↦ do
      brace ← expect TokenKind.lbrace
      if brace
          then (do fs ← members parse_field; pure (some (struct_item pos name fs)))
          else pure none
  ]

-- The value behind `=`; the cleared one with an error where it is no integer literal.
unfoldable pub parse_enum_value : Parse (Bool × ℕ)
unfolding accept
parse_enum_value = do
  given ← accept TokenKind.eq
  if given
      then (do
        int ← at TokenKind.int
        if int
            then (do t ← advance; pure (true, ival_of t.val))
            else (error_unexpected >> pure (false, 0)))
      else pure (false, 0)

-- The loop over the members of an enum: a member without a comma is the last one.
unfoldable pub enum_loop : ℕ → Parse (List EnumMember)
unfolding expect_ident parse_enum_value accept sync_member make_progress
enum_loop zero = out_of_fuel
enum_loop (suc f) = do
  k ← peek
  if kind_eq k TokenKind.rbrace || kind_eq k TokenKind.eof then pure [] else do
    before ← left
    pos ← here
    ident ← expect_ident
    elim ident [
      | none ↦ do _ ← sync_member; _ ← make_progress before; enum_loop f
      | some name ↦ do
        v ← parse_enum_value
        more ← accept TokenKind.comma
        let m : EnumMember = record { pos = pos; name = name; has_value = v.0; value = v.1 }
        if more
            then (do _ ← make_progress before; rest ← enum_loop f; pure (m ∷ rest))
            else pure (m ∷ [])
    ]

-- The underlying type behind `:`, `i32` if there is none.
unfoldable pub parse_enum_base : Parse TokenKind
unfolding accept token_is_core_type
parse_enum_base = do
  given ← accept TokenKind.colon
  if given
      then (do
        k ← peek
        if token_is_core_type k
            then (do t ← advance; pure t.kind)
            else (error_unexpected >> pure TokenKind.kw_i32))
      else pure TokenKind.kw_i32

unfoldable pub parse_enum : Parse (Option Item)
unfolding expect_ident parse_enum_base expect enum_loop
parse_enum = do
  pos ← here
  _ ← advance
  ident ← expect_ident
  elim ident [
    | none ↦ pure none
    | some name ↦ do
      base ← parse_enum_base
      brace ← expect TokenKind.lbrace
      if brace
          then (do
            n ← left
            ms ← enum_loop n
            _ ← expect TokenKind.rbrace
            pure (some (enum_item pos name base ms)))
          else pure none
  ]

-- The initializer of a global; `none` where it is no literal.
unfoldable pub parse_global_init : Parse (Option Expr)
unfolding accept parse_literal
parse_global_init = do
  given ← accept TokenKind.eq
  if given
      then (do e ← parse_literal; pure (if is_missing e then none else some e))
      else pure (some Expr.missing)

unfoldable pub parse_global : Parse (Option Item)
unfolding accept typed_name parse_global_init expect
parse_global = do
  pos ← here
  _ ← advance
  is_mut ← accept TokenKind.kw_mut
  named ← typed_name
  elim named [
    | none ↦ pure none
    | some (t, name) ↦ do
      init ← parse_global_init
      elim init [
        | none ↦ pure none
        | some e ↦ do _ ← expect TokenKind.semi; pure (some (global_item pos is_mut t name e))
      ]
  ]

unfoldable pub parse_extern : Parse (Option Item)
unfolding expect members parse_fn_decl
parse_extern = do
  pos ← here
  _ ← advance
  string ← at TokenKind.string
  if string
      then (do
        t ← advance
        brace ← expect TokenKind.lbrace
        if brace
            then (do
              fns ← members (parse_fn_decl true)
              pure (some (extern_item pos (str_of t.val) fns)))
            else pure none)
      else (error_unexpected >> pure none)

unfoldable pub parse_fn : Parse (Option Item)
unfolding parse_fn_decl
parse_fn = do
  pos ← here
  d ← parse_fn_decl false
  elim d [ none ↦ pure none | some decl ↦ pure (some (fn_item pos decl)) ]

unfoldable pub parse_item : Parse (Option Item)
unfolding parse_fn parse_struct parse_enum parse_global parse_extern
parse_item = do
  k ← peek
  if kind_eq k TokenKind.kw_fn
      then parse_fn
      else if kind_eq k TokenKind.kw_struct
      then parse_struct
      else if kind_eq k TokenKind.kw_enum
      then parse_enum
      else if kind_eq k TokenKind.kw_let
      then parse_global
      else if kind_eq k TokenKind.kw_extern
      then parse_extern
      else (error_unexpected >> pure none)

-- The loop of `parse_program`.
unfoldable pub items_loop : ℕ → Parse (List Item)
unfolding parse_item sync_item make_progress
items_loop zero = out_of_fuel
items_loop (suc f) = do
  k ← peek
  if kind_eq k TokenKind.eof then pure [] else do
    before ← left
    it ← parse_item
    _ ← if is_none it then sync_item else done
    _ ← make_progress before
    rest ← items_loop f
    pure (kept it rest)

-- The state at the first token that is no error.
abbrev pub started : List Token → Parser
started tokens = record {
  toks = (skip_error_tokens tokens diag_init).0;
  depth = 0;
  diag = (skip_error_tokens tokens diag_init).1;
}

-- The items and the number of errors.
unfoldable pub parse_program : List Token → Option (List Item × ℕ)
unfolding items_loop skip_error_tokens diag_init diag_error_count
parse_program [] = some ([], 0)
parse_program (t ∷ ts) = elim (items_loop (length (started (t ∷ ts)).toks) (started (t ∷ ts))) [
  | none ↦ none
  | some r ↦ some (r.1, diag_error_count r.0.diag)
]
