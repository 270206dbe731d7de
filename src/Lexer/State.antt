-- ===== src/Lexer/State.antt =====
-- The lexer's state, its tokens and the character classes (src/lexer/lexer.h, lexer.c). A pointer
-- into the source is the text from there to the end, so that `cur == end` is `cur ≡ []` and the
-- difference of two pointers is one of lengths. A source is shorter than 2 GiB, as the casts to
-- `int32_t` suppose. `file` only goes into messages, and the pool that keeps decoded strings and
-- messages alive is not modelled: they are values here.
use Prim.Native.Nat.{bit_or}
use slop.Base.{ℕ, ◌+◌, ◌-◌, List, [], ◌∷◌, Bool, ◌&&◌, ◌||◌, leb, ◌==◌, if◌then◌else◌, length}
use slop.Lexer.Kind.{TokenKind}

pub record Lexer : Type 0 where
  pub cur : List ℕ
  pub line_start : List ℕ
  pub line : ℕ
  pub errors : ℕ

-- The messages of `error_at`.
pub data LexError : Type 0 where
  unterminated_literal unterminated_escape hex_escape : LexError
  unknown_escape : ℕ → LexError
  empty_character unterminated_character unterminated_string : LexError
  expected_hex_digits after_float after_integer too_large : LexError
  unexpected_character unexpected_byte : ℕ → LexError

-- `fval` keeps the text that `strtod` is given: the double is a function of it alone.
pub data Val : Type 0 where
  ival : ℕ → Val
  fval : List ℕ → Val
  str : List ℕ → Val
  err : LexError → Val

pub record Token : Type 0 where
  pub kind : TokenKind
  pub text : List ℕ
  pub len : ℕ
  pub line : ℕ
  pub col : ℕ
  pub val : Val

unfoldable pub lexer_init : List ℕ → Lexer
lexer_init src = record { cur = src; line_start = src; line = 1; errors = 0 }

-- Bytes from 128 up are negative as a `char`; they are in no class either way.
unfoldable pub is_digit : ℕ → Bool
is_digit c = leb b'0' c && leb c b'9'

unfoldable pub is_hex_digit : ℕ → Bool
unfolding is_digit
is_hex_digit c = is_digit c || (leb b'a' c && leb c b'f') || (leb b'A' c && leb c b'F')

unfoldable pub hex_val : ℕ → ℕ
unfolding is_digit
hex_val c = if is_digit c then c - b'0' else bit_or c 0x20 - b'a' + 10

unfoldable pub is_ident_start : ℕ → Bool
is_ident_start c = (leb b'a' c && leb c b'z') || (leb b'A' c && leb c b'Z') || c == b'_'

unfoldable pub is_ident_cont : ℕ → Bool
unfolding is_ident_start is_digit
is_ident_cont c = is_ident_start c || is_digit c

-- The loop of `skip_trivia`. `comment` says that the inner loop of a `#` is running; it leaves its
-- newline to the outer loop.
unfoldable pub trivia : Bool → Lexer → List ℕ → Lexer
trivia comment lx [] = record lx { cur = [] }
trivia comment lx (c ∷ cs) =
    let newline = trivia Bool.false (record lx { line = lx.line + 1; line_start = cs }) cs in
    let rest = trivia comment lx cs in
    let hash = trivia Bool.true lx cs in
    if c == 10
    then newline
    else if comment
    then rest
    else if (c == b' ') || (c == 9) || (c == 13)
    then rest
    else if c == b'#'
    then hash
    else record lx { cur = c ∷ cs }

unfoldable pub skip_trivia : Lexer → Lexer
unfolding trivia
skip_trivia lx = trivia Bool.false lx lx.cur

unfoldable pub finish : Lexer → Token → TokenKind → Token
finish lx t kind = record t { kind = kind; len = length t.text - length lx.cur }

unfoldable pub error_at : Lexer → Token → LexError → Lexer × Token
unfolding finish
error_at lx t e =
    (record lx { errors = lx.errors + 1 }, record (finish lx t TokenKind.error) { val = err e })
