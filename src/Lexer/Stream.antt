-- ===== src/Lexer/Stream.antt =====
-- `lexer_next` and `lexer_lex_all` (src/lexer/lexer.c): the tokens tile the source.
use slop.Lexer.Kind.{kind_eq, eof, error}
use slop.Lexer.State.{Lexer, Token, skip_trivia, lexer_init, trivia}
use slop.Lexer.Next.{token_at, lex_from, lexer_next, lexer_lex_all}
use slop.Lexer.Takes.{Takes-drop}
use slop.Lexer.Scans.{Scans}
use slop.Lexer.Tokens.{lex_token-Reads}
use slop.Lexer.Position.{
  Placed, Placed-state, Placed-Takes, Skips, trivia-Skips, newlines, column, is_trivia, at_token,
  at_token_byte,
}
use mathlib.Core.Path.{subst, ap₂}
use slop.Base.{
  length-append, ◌⊎◌, ℕ, zero, suc, ◌+◌, ◌<◌, ◌≡◌, refl, sym, ap, ◌∙◌, List, [], ◌∷◌, ◌++◌, true,
  false, arith, length, drop, if◌then◌else◌, some, Bool-cases, inl, inr,
}

-- The token's place in the source, its line and its column.
pub record IsPlaced (src : List ℕ) (t : Token) : Type 0 where
  pub before : List ℕ
  pub split : src ≡ before ++ t.text
  pub line : t.line ≡ newlines before + 1
  pub col : t.col ≡ column 0 before + 1

-- One call of `lexer_next` from `lx`: it skips trivia until none stands there, and either the source
-- is at its end, or the token is some bytes and the lexer stands behind them.
pub record Nexts (src : List ℕ) (lx : Lexer) (r : Lexer × Token) : Type 0 where
  pub skipped : List ℕ
  pub trivia : is_trivia false skipped ≡ true
  pub bytes : lx.cur ≡ skipped ++ r.1.text
  pub all_skipped : at_token r.1.text ≡ true
  pub token : IsPlaced src r.1
  pub rest : drop r.1.len r.1.text ≡ r.0.cur
  pub end : kind_eq r.1.kind eof ≡ true → r.1.text ≡ []
  pub progress : kind_eq r.1.kind eof ≡ false → length r.0.cur < length lx.cur
  pub errors : r.0.errors ≡ (if kind_eq r.1.kind error then lx.errors + 1 else lx.errors)
  pub before : List ℕ
  pub placed : Placed src r.0 r.0.cur before

token_at-IsPlaced :
    (src : List ℕ) (lx : Lexer) (before : List ℕ)
    → Placed src lx lx.cur before
    → IsPlaced src (token_at lx)
unfolding token_at
token_at-IsPlaced src lx before p = record {
  before = before;
  split = p.split;
  line = p.line;
  col = omega (arith, p.start);
}

-- The same token place under another kind, length and value.
IsPlaced-same :
    (src : List ℕ) (t u : Token)
    → u.text ≡ t.text
    → u.line ≡ t.line
    → u.col ≡ t.col
    → IsPlaced src t
    → IsPlaced src u
IsPlaced-same src t u e f g p = record {
  before = p.before;
  split = p.split ∙ ap (λ (x : List ℕ). p.before ++ x) (sym e);
  line = f ∙ p.line;
  col = g ∙ p.col;
}

-- A reader's result is the next token.
Nexts-token :
    (src : List ℕ) (lx r : Lexer) (q : Lexer × Token)
    → Skips src lx false lx.cur r
    → Scans r (token_at r) r.cur q
    → Nexts src lx q
unfolding token_at
Nexts-token src lx r q s k =
    let (b, p) = Placed-Takes src r s.before k.takes s.placed in
    record {
      skipped = s.skipped;
      trivia = s.trivia;
      bytes = s.bytes ∙ ap (λ (x : List ℕ). s.skipped ++ x) (sym k.text);
      all_skipped = ap at_token k.text ∙ s.token;
      token =
          IsPlaced-same src (token_at r) q.1 k.text k.at_line k.at_col
            (token_at-IsPlaced src r s.before s.placed);
      rest = ap₂ (λ (n : ℕ) (x : List ℕ). drop n x) k.len k.text ∙ Takes-drop k.takes;
      end = λ h. cc (h, k.kind);
      progress = λ h. omega (arith, k.progress, ap length s.bytes, length-append s.skipped r.cur);
      errors = ground (arith, k.errors, s.errors);
      before = b;
      placed = Placed-state src r q.0 q.0.cur b k.line k.line_start p;
    }

-- At the end of the source the token is the end of file.
Nexts-end :
    (src : List ℕ) (lx r : Lexer)
    → r.cur ≡ []
    → Skips src lx false lx.cur r
    → Nexts src lx (r, token_at r)
unfolding token_at
Nexts-end src lx r e s = record {
  skipped = s.skipped;
  trivia = s.trivia;
  bytes = s.bytes;
  all_skipped = s.token;
  token = token_at-IsPlaced src r s.before s.placed;
  rest = refl;
  end = λ h. e;
  progress = λ h. cc;
  errors = s.errors;
  before = s.before;
  placed = s.placed;
}

lex_from_lem :
    (src : List ℕ) (lx r : Lexer) (cs : List ℕ)
    → r.cur ≡ cs
    → Skips src lx false lx.cur r
    → (q : Lexer × Token) × (lex_from r cs ≡ some q) × Nexts src lx q
lex_from_lem src lx r [] e s = ((r, token_at r), unfold lex_from in refl, Nexts-end src lx r e s)
lex_from_lem src lx r (c ∷ cs) e s =
    let (q, run, k) = lex_token-Reads r (token_at r) c cs (at_token_byte r.cur e s.token) in
    (
      q,
      unfold lex_from in run,
      Nexts-token src lx r q s (subst (λ (x : List ℕ). Scans r (token_at r) x q) (sym e) k),
    )

-- From any point of a source `lexer_next` returns. It skips trivia until neither a newline nor a
-- blank nor a comment stands there, and gives a token that begins there, with its line and column;
-- it moves behind it, makes progress unless it is the end of file, and counts an error exactly for
-- an error token.
pub lexer_next-Nexts :
    (src : List ℕ) (lx : Lexer) (before : List ℕ)
    → Placed src lx lx.cur before
    → (r : Lexer × Token) × (lexer_next lx ≡ some r) × Nexts src lx r
lexer_next-Nexts src lx before p =
    let s = trivia-Skips src false lx lx.cur before p in
    let (q, run, k) = lex_from_lem src lx (trivia false lx lx.cur) _ refl s in
    (q, unfold lexer_next skip_trivia in run, k)

-- `ts` are the tokens of `cur`: between two of them stands trivia alone, each has its place in the
-- source, and the last one, and no other, is the end of file.
abbrev pub Tiles : List ℕ → List ℕ → List Token → Type 0
Tiles src cur [] = ⊥
Tiles src cur (t ∷ ts) =
    ((skipped : List ℕ) × (is_trivia false skipped ≡ true) × (cur ≡ skipped ++ t.text))
    × IsPlaced src t
    × (((kind_eq t.kind eof ≡ true) × (t.text ≡ []) × (ts ≡ []))
        ⊎ ((kind_eq t.kind eof ≡ false) × Tiles src (drop t.len t.text) ts))

unfoldable pub error_count : List Token → ℕ
error_count [] = 0
error_count (t ∷ ts) = if kind_eq t.kind error then error_count ts + 1 else error_count ts

pub record LexesAll (src : List ℕ) (lx : Lexer) (r : Lexer × List Token) : Type 0 where
  pub tiles : Tiles src lx.cur r.1
  pub errors : r.0.errors ≡ lx.errors + error_count r.1

-- The two rounds of the loop.
module _ (f : ℕ) (lx : Lexer) (r : Lexer × Token) (run : lexer_next lx ≡ some r) where
  lex_all_stop : kind_eq r.1.kind eof ≡ true → lexer_lex_all (suc f) lx ≡ some (r.0, r.1 ∷ [])
  unfolding lexer_lex_all
  lex_all_stop last = rw (run, lexer_lex_all) (rw last)

  lex_all_go :
      (q : Lexer × List Token)
      → kind_eq r.1.kind eof ≡ false
      → lexer_lex_all f r.0 ≡ some q
      → lexer_lex_all (suc f) lx ≡ some (q.0, r.1 ∷ q.1)
  unfolding lexer_lex_all
  lex_all_go q again rest = rw (run, lexer_lex_all) (rw again (rw (rest, lexer_lex_all)))

lexer_lex_all-from :
    (src : List ℕ) (f : ℕ) (lx : Lexer) (before : List ℕ)
    → length lx.cur < f
    → Placed src lx lx.cur before
    → (r : Lexer × List Token) × (lexer_lex_all f lx ≡ some r) × LexesAll src lx r
unfolding error_count
lexer_lex_all-from src zero lx before h p = elim h [ ]
lexer_lex_all-from src (suc f) lx before h p =
    let (r, run, k) = lexer_next-Nexts src lx before p in
    elim (Bool-cases (kind_eq r.1.kind eof)) [
      | inl last ↦ (
        (r.0, r.1 ∷ []),
        lex_all_stop f lx r run last,
        record {
          tiles = ((k.skipped, k.trivia, k.bytes), k.token, inl (last, k.end last, refl));
          errors = ground (arith, k.errors);
        },
      )
      | inr again ↦
          let (q, rest, m) =
            lexer_lex_all-from src f r.0 k.before (omega (arith, k.progress again)) k.placed in
          (
            (q.0, r.1 ∷ q.1),
            lex_all_go f lx r run q again rest,
            record {
              tiles = (
                (k.skipped, k.trivia, k.bytes),
                k.token,
                inr (again, subst (λ (x : List ℕ). Tiles src x q.1) (sym k.rest) m.tiles),
              );
              errors = ground (arith, k.errors, m.errors);
            },
          )
    ]

pub lexer_init-Placed : (src : List ℕ) → Placed src (lexer_init src) src []
unfolding lexer_init newlines column
lexer_init-Placed src = record { split = refl; line = refl; start = omega arith }

-- Lexing a whole source ends within one round for each byte and one more. The tokens tile the
-- source: only trivia stands between them, each has its line and column, the last and only the
-- last is the end of file; and the answer counts the error tokens.
pub lexer_lex_all-Tiles :
    (src : List ℕ)
    → (r : Lexer × List Token) × (lexer_lex_all (length src + 1) (lexer_init src) ≡ some r)
      × Tiles src src r.1
      × (r.0.errors ≡ error_count r.1)
lexer_lex_all-Tiles src =
    let (r, run, k) =
      lexer_lex_all-from src (length src + 1) (lexer_init src) [] (unfold lexer_init in omega arith)
        (unfold lexer_init in lexer_init-Placed src) in
    (r, run, unfold lexer_init in k.tiles, unfold lexer_init in omega (arith, k.errors))
