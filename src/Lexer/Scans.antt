-- ===== src/Lexer/Scans.antt =====
-- Every branch of the lexer that reads a token takes at least one byte, all of one line, and
-- reports its length (src/lexer/lexer.c).
use slop.Lexer.Kind.{TokenKind, kind_eq, eof, error}
use slop.Lexer.State.{Lexer, Token, LexError, Val, finish, error_at}
use slop.Lexer.Takes.{Takes}
use slop.Base.{ℕ, ◌+◌, ◌-◌, ◌<◌, ◌≡◌, refl, List, false, length, if◌then◌else◌}

-- From `full`, where the token `t` begins, the lexer `lx` came to the state `r.0` with `r.1`.
pub record Scans (lx : Lexer) (t : Token) (full : List ℕ) (r : Lexer × Token) : Type 0 where
  pub takes : Takes full r.0.cur
  pub progress : length r.0.cur < length full
  pub line : r.0.line ≡ lx.line
  pub line_start : r.0.line_start ≡ lx.line_start
  pub errors : r.0.errors ≡ (if kind_eq r.1.kind error then lx.errors + 1 else lx.errors)
  pub text : r.1.text ≡ t.text
  pub at_line : r.1.line ≡ t.line
  pub at_col : r.1.col ≡ t.col
  pub len : r.1.len ≡ length t.text - length r.0.cur
  pub kind : kind_eq r.1.kind eof ≡ false

module _ (lx : Lexer) (t : Token) (full cur' : List ℕ) (p : Takes full cur')
    (lt : length cur' < length full) where
  pub error_at-Scans : (e : LexError) → Scans lx t full (error_at (record lx { cur = cur' }) t e)
  unfolding error_at
  error_at-Scans e = record {
    takes = p;
    progress = lt;
    line = refl;
    line_start = refl;
    errors = refl;
    text = refl;
    at_line = refl;
    at_col = refl;
    len = refl;
    kind = refl;
  }

  pub finish-Scans :
      (kind : TokenKind)
      → kind_eq kind error ≡ false
      → kind_eq kind eof ≡ false
      → Scans lx t full (record lx { cur = cur' }, finish (record lx { cur = cur' }) t kind)
  unfolding finish
  finish-Scans kind ne nf = record {
    takes = p;
    progress = lt;
    line = refl;
    line_start = refl;
    errors = rw ne;
    text = refl;
    at_line = refl;
    at_col = refl;
    len = refl;
    kind = nf;
  }

  pub value-Scans :
      (kind : TokenKind) (v : Val)
      → kind_eq kind error ≡ false
      → kind_eq kind eof ≡ false
      → Scans lx t full
          (record lx { cur = cur' }, record (finish (record lx { cur = cur' }) t kind) { val = v })
  unfolding finish
  value-Scans kind v ne nf = record {
    takes = p;
    progress = lt;
    line = refl;
    line_start = refl;
    errors = rw ne;
    text = refl;
    at_line = refl;
    at_col = refl;
    len = refl;
    kind = nf;
  }
