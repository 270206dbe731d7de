-- ===== src/Lexer/Position.antt =====
-- Lines and columns (src/lexer/lexer.c): the state of the lexer is that of the text before `cur`.
use slop.Lexer.State.{Lexer, trivia}
use slop.Lexer.Takes.{Takes, done, more}
use mathlib.Core.List.{append_assoc}
use slop.Base.{
  ℕ, ◌+◌, ◌≡◌, refl, sym, ap, ◌∙◌, List, [], ◌∷◌, ◌++◌, Bool, true, false, ◌||◌, ◌==◌, arith,
  length, if◌then◌else◌, if_both,
}

unfoldable pub newlines : List ℕ → ℕ
newlines [] = 0
newlines (c ∷ cs) = if c == 10 then newlines cs + 1 else newlines cs

-- The bytes behind the last newline, from `k` on a line on which `k` bytes stand already.
unfoldable pub column : ℕ → List ℕ → ℕ
column k [] = k
column k (c ∷ cs) = column (if c == 10 then 0 else k + 1) cs

newlines_snoc :
    (xs : List ℕ) (c : ℕ) → newlines (xs ++ c ∷ []) ≡ newlines xs + (if c == 10 then 1 else 0)
unfolding newlines
newlines_snoc [] c = ground arith
newlines_snoc (x ∷ xs) c = ground (arith, newlines_snoc xs c)

column_snoc :
    (k : ℕ) (xs : List ℕ) (c : ℕ)
    → column k (xs ++ c ∷ []) ≡ (if c == 10 then 0 else column k xs + 1)
unfolding column
column_snoc k [] c = refl
column_snoc k (x ∷ xs) c = column_snoc (if x == 10 then 0 else k + 1) xs c

-- `cs` stands behind `before` in the source, and the lexer's line and line start are right there.
pub record Placed (src : List ℕ) (lx : Lexer) (cs before : List ℕ) : Type 0 where
  pub split : src ≡ before ++ cs
  pub line : lx.line ≡ newlines before + 1
  pub start : length lx.line_start ≡ length cs + column 0 before

snoc : (before cs : List ℕ) (c : ℕ) → before ++ c ∷ cs ≡ (before ++ c ∷ []) ++ cs
snoc before cs c = sym (append_assoc before (c ∷ []) cs)

-- One byte that is no newline.
pub Placed-byte :
    (src : List ℕ) (lx : Lexer) (c : ℕ) (cs before : List ℕ)
    → (c == 10) ≡ false
    → Placed src lx (c ∷ cs) before
    → Placed src lx cs (before ++ c ∷ [])
Placed-byte src lx c cs before h p = record {
  split = p.split ∙ snoc before cs c;
  line = ground (arith, p.line, newlines_snoc before c);
  start = ground (arith, p.start, column_snoc 0 before c);
}

-- One newline.
pub Placed-newline :
    (src : List ℕ) (lx : Lexer) (c : ℕ) (cs before : List ℕ)
    → (c == 10) ≡ true
    → Placed src lx (c ∷ cs) before
    → Placed src (record lx { line = lx.line + 1; line_start = cs }) cs (before ++ c ∷ [])
Placed-newline src lx c cs before h p = record {
  split = p.split ∙ snoc before cs c;
  line = ground (arith, p.line, newlines_snoc before c);
  start = ground (arith, column_snoc 0 before c);
}

-- Only the line and the line start matter.
pub Placed-state :
    (src : List ℕ) (lx r : Lexer) (cs before : List ℕ)
    → r.line ≡ lx.line
    → r.line_start ≡ lx.line_start
    → Placed src lx cs before
    → Placed src r cs before
Placed-state src lx r cs before e f p = record {
  split = p.split;
  line = e ∙ p.line;
  start = ap length f ∙ p.start;
}

-- A scan within a line.
pub Placed-Takes :
    (src : List ℕ) (lx : Lexer) (before : List ℕ) {cs r : List ℕ}
    → Takes cs r
    → Placed src lx cs before
    → (b : List ℕ) × Placed src lx r b
Placed-Takes src lx before done p = (before, p)
Placed-Takes src lx before (more {c} {cs} h t) p =
    Placed-Takes src lx (before ++ c ∷ []) t (Placed-byte src lx c cs before h p)

-- Blanks, newlines and comments; `comment` says whether a comment is open.
unfoldable pub is_trivia : Bool → List ℕ → Bool
is_trivia comment [] = true
is_trivia comment (c ∷ cs) =
    if c == 10
    then is_trivia false cs
    else if comment
    then is_trivia true cs
    else if (c == b' ') || (c == 9) || (c == 13)
    then is_trivia false cs
    else if c == b'#'
    then is_trivia true cs
    else false

-- No newline, blank, tab, carriage return or comment stands at the front.
pub at_token : List ℕ → Bool
at_token [] = true
at_token (c ∷ cs) =
    if c == 10
    then false
    else if c == 32
    then false
    else if c == 9
    then false
    else if c == 13
    then false
    else if c == 35
    then false
    else true

pub at_token_byte :
    (cur : List ℕ) {c : ℕ} {cs : List ℕ} → cur ≡ c ∷ cs → at_token cur ≡ true → (c == 10) ≡ false
unfolding at_token
at_token_byte cur e h = ground arith

-- What `trivia` does from `cs`.
pub record Skips (src : List ℕ) (lx : Lexer) (comment : Bool) (cs : List ℕ) (r : Lexer)
    : Type 0 where
  pub skipped : List ℕ
  pub bytes : cs ≡ skipped ++ r.cur
  pub trivia : is_trivia comment skipped ≡ true
  pub before : List ℕ
  pub placed : Placed src r r.cur before
  pub token : at_token r.cur ≡ true
  pub errors : r.errors ≡ lx.errors

Skips-byte :
    (src : List ℕ) (lx lx' : Lexer) (m m' : Bool) (c : ℕ) (cs : List ℕ) {r : Lexer}
    → lx'.errors ≡ lx.errors
    → ((ws : List ℕ) → is_trivia m' ws ≡ true → is_trivia m (c ∷ ws) ≡ true)
    → Skips src lx' m' cs r
    → Skips src lx m (c ∷ cs) r
Skips-byte src lx lx' m m' c cs e open_ s = record {
  skipped = c ∷ s.skipped;
  bytes = ap (◌∷◌ c) s.bytes;
  trivia = open_ s.skipped s.trivia;
  before = s.before;
  placed = s.placed;
  token = s.token;
  errors = s.errors ∙ e;
}

pub trivia-Skips :
    (src : List ℕ) (comment : Bool) (lx : Lexer) (cs before : List ℕ)
    → Placed src lx cs before
    → Skips src lx comment cs (trivia comment lx cs)
unfolding trivia is_trivia at_token
trivia-Skips src m lx [] before p = record {
  skipped = [];
  bytes = refl;
  trivia = refl;
  before = before;
  placed = Placed-state src lx _ [] before refl refl p;
  token = refl;
  errors = refl;
}
trivia-Skips src m lx (c ∷ cs) before p =
    let P = Skips src lx m (c ∷ cs) in
    if_both P (c == 10)
      (λ h.
        Skips-byte src lx _ m false c cs refl (λ ws t. rw h t)
          (trivia-Skips src false (record lx { line = lx.line + 1; line_start = cs }) cs
            (before ++ c ∷ []) (Placed-newline src lx c cs before h p)))
      λ h.
        let q = Placed-byte src lx c cs before h p in
        if_both P m
          (λ e.
            Skips-byte src lx lx m m c cs refl (λ ws t. ground arith)
              (trivia-Skips src m lx cs (before ++ c ∷ []) q))
          λ e.
            if_both P ((c == b' ') || (c == 9) || (c == 13))
              (λ b.
                Skips-byte src lx lx m m c cs refl (λ ws t. ground arith)
                  (trivia-Skips src m lx cs (before ++ c ∷ []) q))
              λ b.
                if_both P (c == b'#')
                  (λ g.
                    Skips-byte src lx lx m true c cs refl (λ ws t. ground arith)
                      (trivia-Skips src true lx cs (before ++ c ∷ []) q))
                  λ g. record {
                    skipped = [];
                    bytes = refl;
                    trivia = refl;
                    before = before;
                    placed = Placed-state src lx _ (c ∷ cs) before refl refl p;
                    token = ground (arith, h, b, g);
                    errors = refl;
                  }
