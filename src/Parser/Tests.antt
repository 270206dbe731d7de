-- ===== src/Parser/Tests.antt =====
-- Runs of the parser, and its theorems at concrete inputs.
use slop.Base.{ℕ, ◌+◌, ◌≤◌, ◌<◌, ◌≡◌, refl, List, [], ◌∷◌, false, some, length, arith, ◌⊎◌, Option}
use slop.Lexer.Kind.{TokenKind, codes}
use slop.Lexer.State.{Token, ival, Lexer, lexer_init}
use slop.Lexer.Next.{lexer_lex_all}
use slop.Lexer.Stream.{error_count}
use slop.Support.Diag.{SrcPos, diag_error}
use slop.Ast.{Expr, Stmt, Item, core_type}
use slop.Parser.State.{Parser, ◌>>=◌, next_tokens}
use slop.Parser.Recover.{sync_item}
use slop.Parser.Exprs.{
  parse_expr, parse_logical_or, binary_level, parse_logical_and, parse_equality, parse_relational,
  parse_bitor, parse_bitxor, parse_bitand, parse_shift, parse_add, parse_mul,
}
use slop.Parser.Stmts.{parse_stmt}
use slop.Parser.Items.{parse_program}
use slop.Parser.Types.{parse_type}
use slop.Parser.Spelling.{Spelling, name, pointer, array, tokens_onto, type_at}
use slop.Parser.Spelled.{parse_type-tokens_onto}
use slop.Support.Diag.{diag_init}
use slop.Parser.Runs.{IsReady}
use slop.Parser.Bounds.{Keeps, AtItem, parse_expr-Keeps, parse_stmt-Keeps, sync_item-AtItem}
use slop.Parser.Total.Exprs.{WholeExpr}
use slop.Parser.Total.Stmts.{WholeStmt}
use slop.Parser.Total.Functions.{Each}
use slop.Parser.Total.Items.{WholeItem}
use slop.Parser.Contract.{
  parse_program-terminates, parse_program-error_count, parse_program-Whole,
  lexer_lex_all-parse_program,
}

-- A token of a kind at one place.
abbrev tok : TokenKind → Token
tok k = record { kind = k; text = codes "x"; len = 1; line = 1; col = 1; val = ival 7 }

abbrev source : List ℕ
source = codes "let mut u8* p = null; fn f() { while true { p = p; } }"

-- `let i32 x = 7 ;` with an error token before it, and the end.
abbrev global_tokens : List Token
global_tokens =
    tok TokenKind.error
    ∷ tok TokenKind.kw_let
    ∷ tok TokenKind.kw_i32
    ∷ tok TokenKind.ident
    ∷ tok TokenKind.eq
    ∷ tok TokenKind.int
    ∷ tok TokenKind.semi
    ∷ tok TokenKind.eof
    ∷ []

global_item : Item
global_item =
    Item.global_item (record { line = 1; col = 1 }) false
      (core_type (record { line = 1; col = 1 }) TokenKind.kw_i32) (codes "x")
      (Expr.int_lit (record { line = 1; col = 1 }) 7)

-- The error token is counted, and the item behind it is parsed.
global_parses : parse_program global_tokens ≡ some (global_item ∷ [], 1)
unfolding parse_program global_item ◌>>=◌ next_tokens diag_error
global_parses = refl

-- The same tokens without the error.
abbrev clean_tokens : List Token
clean_tokens =
    tok TokenKind.kw_let
    ∷ tok TokenKind.kw_i32
    ∷ tok TokenKind.ident
    ∷ tok TokenKind.eq
    ∷ tok TokenKind.int
    ∷ tok TokenKind.semi
    ∷ tok TokenKind.eof
    ∷ []

clean_parses : parse_program clean_tokens ≡ some (global_item ∷ [], 0)
unfolding parse_program global_item ◌>>=◌ next_tokens
clean_parses = refl

parse_program-terminates_example : (r : List Item × ℕ) × (parse_program global_tokens ≡ some r)
parse_program-terminates_example =
    parse_program-terminates global_tokens
      (refl, (refl, (refl, (refl, (refl, (refl, (refl, (refl))))))))

parse_program-error_count_example : error_count global_tokens ≤ 1
parse_program-error_count_example =
    parse_program-error_count global_tokens (global_item ∷ []) 1
      (refl, (refl, (refl, (refl, (refl, (refl, (refl, (refl)))))))) global_parses

parse_program-Whole_example : Each WholeItem (global_item ∷ [])
parse_program-Whole_example =
    parse_program-Whole clean_tokens (global_item ∷ [])
      (refl, (refl, (refl, (refl, (refl, (refl, (refl))))))) clean_parses

lexer_lex_all-parse_program_example :
    (r : Lexer × List Token) × (lexer_lex_all (length source + 1) (lexer_init source) ≡ some r)
    × (q : List Item × ℕ) × (parse_program r.1 ≡ some q)
    × (r.0.errors ≤ q.1)
    × ((0 < q.1) ⊎ Each WholeItem q.0)
lexer_lex_all-parse_program_example = lexer_lex_all-parse_program source

-- `x + 7 ;`, and the end.
abbrev sum_state : Parser
sum_state = record {
  toks =
      tok TokenKind.ident
      ∷ tok TokenKind.plus
      ∷ tok TokenKind.int
      ∷ tok TokenKind.semi
      ∷ tok TokenKind.eof
      ∷ [];
  depth = 0;
  diag = record { count = 0; reported = 0; last_printed = false; printed = [] };
}

sum_state-IsReady : IsReady sum_state
sum_state-IsReady = record {
  closed = (refl, (refl, (refl, (refl, (refl)))));
  clean = refl;
  depth = omega arith;
}

parse_expr-Keeps_example :
    (r : Parser × Expr) × (parse_expr sum_state ≡ some r)
    × Keeps sum_state r.0
    × ((0 < r.0.diag.count) ⊎ WholeExpr r.1)
parse_expr-Keeps_example = parse_expr-Keeps sum_state sum_state-IsReady

parse_stmt-Keeps_example :
    (r : Parser × Stmt) × (parse_stmt sum_state ≡ some r)
    × Keeps sum_state r.0
    × ((0 < r.0.diag.count) ⊎ WholeStmt r.1)
parse_stmt-Keeps_example = parse_stmt-Keeps sum_state sum_state-IsReady

sync_item-AtItem_example :
    (r : Parser × Unit {0}) × (sync_item sum_state ≡ some r)
    × Keeps sum_state r.0
    × AtItem sum_state r.0
sync_item-AtItem_example = sync_item-AtItem sum_state sum_state-IsReady

-- A token of a kind with its text, at a column.
abbrev tok_at : ℕ → TokenKind → List ℕ → Token
tok_at n k s = record { kind = k; text = s; len = length s; line = 3; col = n; val = ival 3 }

-- `Node*[3]`, with `x` behind it.
abbrev node_type : Spelling
node_type =
    array
      (pointer (name (tok_at 5 TokenKind.ident (codes "Node")))
        (tok_at 9 TokenKind.star (codes "*")))
      (tok_at 10 TokenKind.lbracket (codes "[")) (tok_at 11 TokenKind.int (codes "3")) 3
      (tok_at 12 TokenKind.rbracket (codes "]"))

parse_type-tokens_onto_example :
    parse_type (record {
      toks = tokens_onto node_type (tok TokenKind.ident ∷ []);
      depth = 0;
      diag = diag_init;
    })
    ≡ some (
      record { toks = tok TokenKind.ident ∷ []; depth = 0; diag = diag_init },
      type_at (record { line = 3; col = 5 }) node_type,
    )
parse_type-tokens_onto_example =
    parse_type-tokens_onto node_type (tok TokenKind.ident) [] 0 _
      (refl, refl, refl, refl, (refl, refl))
      (record { clean = refl; no_star = refl; no_bracket = refl })

-- `x + 7 * 7 - 7 ;`: the tighter operator is below the looser ones, which nest to the left.
ladder : Option (Parser × Expr)
unfolding parse_expr
ladder = parse_expr (record sum_state {
  toks =
      tok TokenKind.ident
      ∷ tok TokenKind.plus
      ∷ tok TokenKind.int
      ∷ tok TokenKind.star
      ∷ tok TokenKind.int
      ∷ tok TokenKind.minus
      ∷ tok TokenKind.int
      ∷ tok TokenKind.semi
      ∷ tok TokenKind.eof
      ∷ [];
})

abbrev one_place : SrcPos
one_place = record { line = 1; col = 1 }

abbrev seven : Expr
seven = Expr.int_lit one_place 7

ladder_nests :
    ladder
    ≡ some (
      record sum_state { toks = tok TokenKind.semi ∷ tok TokenKind.eof ∷ [] },
      Expr.binary one_place TokenKind.minus
          (Expr.binary one_place TokenKind.plus
            (Expr.name one_place (codes "x"))
            (Expr.binary one_place TokenKind.star seven seven))
          seven,
    )
unfolding ladder ◌>>=◌ next_tokens parse_logical_or binary_level parse_logical_and parse_equality
    parse_relational parse_bitor parse_bitxor parse_bitand parse_shift parse_add parse_mul
ladder_nests = refl
