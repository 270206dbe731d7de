-- ===== src/Lexer/Next.antt =====
-- Identifiers, punctuation and the token loop (src/lexer/lexer.c).
use slop.Base.{
  ℕ, zero, suc, ◌+◌, ◌-◌, List, [], ◌∷◌, Bool, ◌&&◌, leb, ltb, ◌==◌, if◌then◌else◌, length, take,
  drop, bytes_eq, Option, none, some,
}
use slop.Lexer.Kind.{TokenKind, kind_eq, keywords, puncts}
use slop.Lexer.State.{
  Lexer, Token, ival, unexpected_character, unexpected_byte, is_digit, is_ident_start,
  is_ident_cont, skip_trivia, finish, error_at,
}
use slop.Lexer.Literal.{lex_char, lex_string, lex_number}

unfoldable pub skip_ident : List ℕ → List ℕ
skip_ident [] = []
skip_ident (c ∷ cs) = if is_ident_cont c then skip_ident cs else c ∷ cs

-- The kind of the first keyword whose spelling is the whole text.
unfoldable pub find_keyword : List (List ℕ × TokenKind) → List ℕ → Option TokenKind
find_keyword [] text = none
find_keyword (k ∷ ks) text =
    if (length k.0 == length text) && bytes_eq text k.0 then some k.1 else find_keyword ks text

unfoldable pub lex_ident : Lexer → Token → List ℕ → Lexer × Token
unfolding skip_ident find_keyword
lex_ident lx t cur =
    let r = record lx { cur = skip_ident cur } in
    (
      r,
      elim (find_keyword keywords (take (length t.text - length r.cur) t.text)) [
        | some kind ↦ finish r t kind
        | none ↦ finish r t TokenKind.ident
      ],
    )

-- Does the text at `cur` begin with the spelling?
unfoldable pub starts : List ℕ → List ℕ → Bool
starts spelling cur =
    leb (length spelling) (length cur) && bytes_eq (take (length spelling) cur) spelling

-- The first row of the table that `cur` begins with.
unfoldable pub find_punct : List (List ℕ × TokenKind) → List ℕ → Option (List ℕ × TokenKind)
unfolding starts
find_punct [] cur = none
find_punct (p ∷ ps) cur = if starts p.0 cur then some p else find_punct ps cur

-- A byte that begins no token.
unfoldable pub lex_unexpected : Lexer → Token → ℕ → List ℕ → Lexer × Token
lex_unexpected lx t c cs =
    if leb 0x20 c && ltb c 0x7f
    then error_at (record lx { cur = cs }) t (unexpected_character c)
    else error_at (record lx { cur = cs }) t (unexpected_byte c)

unfoldable pub lex_punct : Lexer → Token → ℕ → List ℕ → Lexer × Token
unfolding find_punct lex_unexpected
lex_punct lx t c cs = elim (find_punct puncts (c ∷ cs)) [
  | some p ↦ (
    record lx { cur = drop (length p.0) (c ∷ cs) },
    finish (record lx { cur = drop (length p.0) (c ∷ cs) }) t p.1,
  )
  | none ↦ lex_unexpected lx t c cs
]

-- The dispatch on the first byte of a token.
unfoldable pub lex_token : Lexer → Token → ℕ → List ℕ → Option (Lexer × Token)
unfolding lex_ident lex_punct
lex_token lx t c cs =
    if is_ident_start c
    then some (lex_ident lx t (c ∷ cs))
    else if is_digit c
    then some (lex_number lx t (c ∷ cs))
    else if c == 39
    then some (lex_char lx t cs)
    else if c == 34
    then lex_string lx t cs
    else some (lex_punct lx t c cs)

-- The token before its kind is known: it begins at `cur`.
unfoldable pub token_at : Lexer → Token
token_at lx = record {
  kind = TokenKind.eof;
  text = lx.cur;
  len = 0;
  line = lx.line;
  col = length lx.line_start - length lx.cur + 1;
  val = ival 0;
}

unfoldable pub lex_from : Lexer → List ℕ → Option (Lexer × Token)
unfolding lex_token token_at
lex_from lx [] = some (lx, token_at lx)
lex_from lx (c ∷ cs) = lex_token lx (token_at lx) c cs

unfoldable pub lexer_next : Lexer → Option (Lexer × Token)
unfolding lex_from
lexer_next lx = let r = skip_trivia lx in lex_from r r.cur

-- The loop of `lexer_lex_all`, on fuel: the tokens up to and with the end of file.
unfoldable pub lexer_lex_all : ℕ → Lexer → Option (Lexer × List Token)
lexer_lex_all zero lx = none
lexer_lex_all (suc f) lx = elim (lexer_next lx) [
  | none ↦ none
  | some (r, t) ↦
      let rest : Option (Lexer × List Token) = elim (lexer_lex_all f r) [
        | none ↦ none
        | some (q, ts) ↦ some (q, t ∷ ts)
      ] in
      if kind_eq t.kind TokenKind.eof then some (r, t ∷ []) else rest
]
