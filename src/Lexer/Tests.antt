-- ===== src/Lexer/Tests.antt =====
-- Runs of the lexer on small sources, and its theorems at concrete inputs.
use slop.Base.{
  ℕ, ◌+◌, ◌%◌, ◌^◌, ◌<◌, ◌≤◌, ◌≡◌, refl, inl, inr, map, length, List, [], ◌∷◌, true, false, Option,
  none, some,
}
use slop.Lexer.Kind.{TokenKind, codes, puncts, keywords}
use slop.Lexer.State.{
  Token, Val, ival, Lexer, lexer_init, skip_trivia, is_ident_start, is_ident_cont, finish,
  is_hex_digit, hex_val,
}
use slop.Lexer.Literal.{scan_dec, scan_hex, lex_number}
use slop.Lexer.Next.{lexer_next, lexer_lex_all, find_punct}
use slop.Lexer.Munch.{Row, In, Begins, find_punct-Munch}
use slop.Lexer.Number.{dec_value, hex_value, scan_dec-value, scan_hex-value}
use slop.Lexer.Stream.{
  Nexts, Tiles, error_count, lexer_next-Nexts, lexer_lex_all-Tiles, lexer_init-Placed,
}

kinds : Option (Lexer × List Token) → List (TokenKind × ℕ × ℕ × Val)
kinds none = []
kinds (some (lx, ts)) = map (λ t. (t.kind, t.line, t.col, t.val)) ts

abbrev sample : List ℕ
sample = codes "let x1 = 0xfF<<=1.as # c"

sample_kinds : List (TokenKind × ℕ × ℕ × Val)
unfolding kinds lexer_init lexer_lex_all lexer_next
sample_kinds = kinds (lexer_lex_all 20 (lexer_init sample))

sample_lexes :
    sample_kinds
    ≡ (TokenKind.kw_let, 1, 1, ival 0)
      ∷ (TokenKind.ident, 1, 5, ival 0)
      ∷ (TokenKind.eq, 1, 8, ival 0)
      ∷ (TokenKind.int, 1, 10, ival 255)
      ∷ (TokenKind.shl_eq, 1, 14, ival 0)
      ∷ (TokenKind.int, 1, 17, ival 1)
      ∷ (TokenKind.dot, 1, 18, ival 0)
      ∷ (TokenKind.kw_as, 1, 19, ival 0)
      ∷ (TokenKind.eof, 1, 25, ival 0)
      ∷ []
unfolding sample_kinds skip_trivia is_ident_start keywords is_ident_cont finish puncts lex_number
    is_hex_digit hex_val
sample_lexes = refl

lexer_next-Nexts_example :
    (r : Lexer × Token) × (lexer_next (lexer_init sample) ≡ some r)
    × Nexts sample (lexer_init sample) r
lexer_next-Nexts_example =
    lexer_next-Nexts sample (lexer_init sample) [] (unfold lexer_init in lexer_init-Placed sample)

lexer_lex_all-Tiles_example :
    (r : Lexer × List Token) × (lexer_lex_all (length sample + 1) (lexer_init sample) ≡ some r)
    × Tiles sample sample r.1
    × (r.0.errors ≡ error_count r.1)
lexer_lex_all-Tiles_example = lexer_lex_all-Tiles sample

scan_dec-value_example :
    ((scan_dec (codes "18446744073709551616;")).value
      ≡ dec_value (codes "18446744073709551616;") % 2 ^ 64)
    × ((scan_dec (codes "18446744073709551616;")).overflow ≡ false
        → dec_value (codes "18446744073709551616;") < 2 ^ 64)
    × ((scan_dec (codes "18446744073709551616;")).overflow ≡ true
        → 2 ^ 64 ≤ dec_value (codes "18446744073709551616;"))
scan_dec-value_example = scan_dec-value (codes "18446744073709551616;")

scan_hex-value_example :
    ((scan_hex (codes "fF<<")).value ≡ hex_value (codes "fF<<") % 2 ^ 64)
    × ((scan_hex (codes "fF<<")).overflow ≡ false → hex_value (codes "fF<<") < 2 ^ 64)
    × ((scan_hex (codes "fF<<")).overflow ≡ true → 2 ^ 64 ≤ hex_value (codes "fF<<"))
scan_hex-value_example = scan_hex-value (codes "fF<<")

abbrev shift : Row
shift = (codes "<<", TokenKind.shl)

shift-In : In shift puncts
unfolding puncts
shift-In = inr (inr (inr (inr (inr (inl refl)))))

find_punct-Munch_example :
    (p : Row) × (find_punct puncts (codes "<<=") ≡ some p)
    × In p puncts
    × Begins p.0 (codes "<<=")
    × ((x : Row) → In x puncts → Begins x.0 (codes "<<=") → length x.0 ≤ length p.0)
find_punct-Munch_example = find_punct-Munch (codes "<<=") shift shift-In (codes "=", refl)
