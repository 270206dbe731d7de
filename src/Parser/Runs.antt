-- ===== src/Parser/Runs.antt =====
-- What a parse keeps (src/parser/parser.c): it returns, never moves back, restores the depth, loses
-- no error token, and gives a whole tree where it reports nothing. One rule for each step.
use slop.Base.{
  ℕ, ◌+◌, ◌<◌, ◌≤◌, ◌≡◌, refl, ◌∙◌, List, [], ◌∷◌, true, false, arith, if_both, length, Option,
  some,
}
use slop.Lexer.Kind.{TokenKind, kind_eq}
use slop.Lexer.State.{Token}
use slop.Lexer.Stream.{error_count}
use slop.Support.Diag.{Diag, SrcPos, diag_error}
use slop.Parser.State.{
  Parser, Parse, ◌>>=◌, head, cur, moved, reported, max_nesting, skip_error_tokens, next_tokens,
  pos_of,
}

-- The last token is the end of file, and no other one is.
abbrev pub Closed : List Token → Type 0
Closed [] = ⊥
Closed (t ∷ []) = kind_eq t.kind TokenKind.eof ≡ true
Closed (t ∷ u ∷ ts) = (kind_eq t.kind TokenKind.eof ≡ false) × Closed (u ∷ ts)

-- The parser stands on a token of a closed list that is no error.
pub record IsReady (p : Parser) : Type 0 where
  pub closed : Closed p.toks
  pub clean : kind_eq (cur p) TokenKind.error ≡ false
  pub depth : p.depth ≤ max_nesting

-- From `p` to `q` the parser went on.
pub record Moves (p q : Parser) : Type 0 where
  pub ready : IsReady q
  pub shorter : length q.toks ≤ length p.toks
  pub depth : q.depth ≡ p.depth
  pub count : p.diag.count ≤ q.diag.count
  pub reports : p.diag.count + error_count p.toks ≤ q.diag.count + error_count q.toks

-- The parse `o` from `p` returns, and its result satisfies `W` where nothing was reported.
pub record Runs {A : Type 0} (W : A → Type 0) (p : Parser) (o : Option (Parser × A)) : Type 0 where
  pub next : Parser
  pub result : A
  pub run : o ≡ some (next, result)
  pub moves : Moves p next
  pub whole : next.diag.count ≡ p.diag.count → W result

-- A parse that returns from every state with at most `n` tokens.
abbrev pub Fits : {A : Type 0} → ℕ → (A → Type 0) → Parse A → Type 0
Fits n W m = (p : Parser) → IsReady p → length p.toks ≤ n → Runs W p (m p)

-- After a step to `q` the whole is owed only where the step reported nothing.
abbrev pub Then : {A : Type 0} → Parser → Parser → (A → Type 0) → A → Type 0
Then p q W a = q.diag.count ≡ p.diag.count → W a

-- No demand on the result.
abbrev pub Any : {A : Type 0} → A → Type 0
Any a = Unit {0}

-- A list of tokens that is closed has one.
pub some_token : {p : Parser} → IsReady p → 1 ≤ length p.toks
some_token {p} r = by_list p.toks r.closed
  where
    by_list : (ts : List Token) → Closed ts → 1 ≤ length ts
    by_list [] c = elim c [ ]
    by_list (t ∷ ts) c = omega arith

pub Moves-refl : {p : Parser} → IsReady p → Moves p p
Moves-refl r = record {
  ready = r;
  shorter = omega arith;
  depth = refl;
  count = omega arith;
  reports = omega arith;
}

pub Moves-trans : {p q r : Parser} → Moves p q → Moves q r → Moves p r
Moves-trans a b = record {
  ready = b.ready;
  shorter = omega (arith, a.shorter, b.shorter);
  depth = b.depth ∙ a.depth;
  count = omega (arith, a.count, b.count);
  reports = omega (arith, a.reports, b.reports);
}

module _ {A : Type 0} {W : A → Type 0} where
  pub Runs-map :
      {V : A → Type 0} {p : Parser} {o : Option (Parser × A)}
      → ((a : A) → V a → W a)
      → Runs V p o
      → Runs W p o
  Runs-map f r = record {
    next = r.next;
    result = r.result;
    run = r.run;
    moves = r.moves;
    whole = λ e. f r.result (r.whole e);
  }

  -- After a report nothing is owed.
  pub Runs-void :
      (p : Parser) {q : Parser} {o : Option (Parser × A)}
      → p.diag.count < q.diag.count
      → Runs Any q o
      → Runs (Then p q W) q o
  Runs-void p up r = record {
    next = r.next;
    result = r.result;
    run = r.run;
    moves = r.moves;
    whole = λ _ e. absurd (omega (arith, e, up));
  }

  pub Runs-pure : {p : Parser} {a : A} → IsReady p → W a → Runs W p (some (p, a))
  Runs-pure r w = record { next = _; result = _; run = refl; moves = Moves-refl r; whole = λ _. w }

  pub Runs-after :
      {p q : Parser} {o : Option (Parser × A)} → Moves p q → Runs (Then p q W) q o → Runs W p o
  Runs-after {p} {q} m r = record {
    next = r.next;
    result = r.result;
    run = r.run;
    moves = Moves-trans m r.moves;
    whole = λ e.
        r.whole (omega (arith, e, m.count, r.moves.count))
          (omega (arith, e, m.count, r.moves.count));
  }

  pub Runs-bind :
      {C : Type 0} (V : C → Type 0) (m : Parse C) (f : C → Parse A) {p : Parser}
      → Runs V p (m p)
      → ((q : Parser) (c : C)
          → Moves p q
          → (q.diag.count ≡ p.diag.count → V c)
          → Runs (Then p q W) q (f c q))
      → Runs W p ((m >>= f) p)
  unfolding ◌>>=◌
  Runs-bind V m f {p} r k =
      rw (r.run, ◌>>=◌) (Runs-after r.moves (k r.next r.result r.moves r.whole))

-- A list whose first token is not the last one has another one.
pub two_tokens :
    {p : Parser} → IsReady p → kind_eq (cur p) TokenKind.eof ≡ false → 2 ≤ length p.toks
two_tokens {p} r h = by_list p.toks r.closed h
  where
    by_list :
        (ts : List Token) → Closed ts → kind_eq (head ts).kind TokenKind.eof ≡ false → 2 ≤ length ts
    by_list [] c h = elim c [ ]
    by_list (t ∷ []) c h = cc
    by_list (t ∷ u ∷ ts) c h = omega arith

-- What stepping over error tokens keeps.
pub record Skipped (ts : List Token) (d : Diag) (r : List Token × Diag) : Type 0 where
  pub closed : Closed r.0
  pub clean : kind_eq (head r.0).kind TokenKind.error ≡ false
  pub shorter : length r.0 ≤ length ts
  pub count : d.count ≤ r.1.count
  pub reports : d.count + error_count ts ≤ r.1.count + error_count r.0

diag_error-count : (d : Diag) (pos : SrcPos) → (diag_error d pos).count ≡ d.count + 1
unfolding diag_error
diag_error-count d pos = ground arith

pub skip_error_tokens-Skipped :
    (ts : List Token) (d : Diag) → Closed ts → Skipped ts d (skip_error_tokens ts d)
unfolding skip_error_tokens error_count
skip_error_tokens-Skipped [] d c = elim c [ ]
skip_error_tokens-Skipped (t ∷ []) d c = record {
  closed = c;
  clean = ground (arith, c);
  shorter = omega arith;
  count = omega arith;
  reports = omega arith;
}
skip_error_tokens-Skipped (t ∷ u ∷ ts) d c =
    if_both (λ r. Skipped (t ∷ u ∷ ts) d r) (kind_eq t.kind TokenKind.error)
      (λ h.
        let s = skip_error_tokens-Skipped (u ∷ ts) (diag_error d (pos_of t)) c.1 in
        let up = diag_error-count d (pos_of t) in
        record {
          closed = s.closed;
          clean = s.clean;
          shorter = omega (arith, s.shorter);
          count = omega (arith, s.count, up);
          reports = rw h (omega (arith, s.reports, up));
        })
      (λ h. record {
        closed = c;
        clean = h;
        shorter = omega arith;
        count = omega arith;
        reports = omega arith;
      })

-- One token on: what `advance` does where the token is not the last.
pub record Advanced (p q : Parser) : Type 0 where
  pub moves : Moves p q
  pub strict : length q.toks < length p.toks

pub moved-Advanced :
    {p : Parser} → IsReady p → kind_eq (cur p) TokenKind.eof ≡ false → Advanced p (moved p)
unfolding next_tokens
moved-Advanced {p} r h = by_list p.toks p.diag refl refl r.closed r.clean h
  where
    by_list :
        (ts : List Token) (d : Diag)
        → ts ≡ p.toks
        → d ≡ p.diag
        → Closed ts
        → kind_eq (head ts).kind TokenKind.error ≡ false
        → kind_eq (head ts).kind TokenKind.eof ≡ false
        → Advanced
            (record p { toks = ts; diag = d })
            (record p { toks = (next_tokens ts d).0; diag = (next_tokens ts d).1 })
    by_list [] d e1 e2 c n h = elim c [ ]
    by_list (t ∷ []) d e1 e2 c n h = cc
    by_list (t ∷ u ∷ ts) d e1 e2 c n h =
        let s = skip_error_tokens-Skipped (u ∷ ts) d c.1 in
        record {
          moves = record {
            ready = record { closed = s.closed; clean = s.clean; depth = r.depth };
            shorter = omega (arith, s.shorter);
            depth = refl;
            count = s.count;
            reports = unfold error_count in rw n (s.reports);
          };
          strict = omega (arith, s.shorter);
        }

-- A report, at any position.
pub reported_at-Moves :
    (pos : SrcPos) {p : Parser}
    → IsReady p
    → Moves p (record p { diag = diag_error p.diag pos })
      × (p.diag.count < (diag_error p.diag pos).count)
reported_at-Moves pos {p} r =
    let up = diag_error-count p.diag pos in
    (
      record {
        ready = record { closed = r.closed; clean = r.clean; depth = r.depth };
        shorter = omega arith;
        depth = refl;
        count = omega (arith, up);
        reports = omega (arith, up);
      },
      omega (arith, up),
    )

pub reported-Moves :
    {p : Parser} → IsReady p → Moves p (reported p) × (p.diag.count < (reported p).diag.count)
reported-Moves {p} r = reported_at-Moves (pos_of (head p.toks)) r
