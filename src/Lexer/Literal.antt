-- ===== src/Lexer/Literal.antt =====
-- Literals (src/lexer/lexer.c): characters, strings with their escapes, and numbers.
use slop.Base.{
  ℕ, zero, suc, ◌+◌, ◌-◌, ◌*◌, ◌/◌, ◌%◌, ◌^◌, List, [], ◌∷◌, ◌++◌, Bool, false, ◌&&◌, ◌||◌, ltb,
  ◌==◌, if◌then◌else◌, length, take, Option, none, some, not,
}
use slop.Lexer.Kind.{TokenKind}
use slop.Lexer.State.{
  Lexer, Token, LexError, ival, fval, str, is_digit, is_hex_digit, hex_val, is_ident_cont, finish,
  error_at, unterminated_literal, unterminated_escape, hex_escape, unknown_escape, empty_character,
  unterminated_character, unterminated_string, expected_hex_digits, after_float, after_integer,
  too_large,
}

-- What `scan_char_unit` answers: a byte, or the text of `errbuf`.
pub data Unit? : Type 0 where
  byte : ℕ → Unit?
  fail : LexError → Unit?

-- The `\x` case: two hex digits.
unfoldable pub scan_hex_escape : List ℕ → List ℕ × Unit?
scan_hex_escape (a ∷ b ∷ cs) =
    if is_hex_digit a && is_hex_digit b
    then (cs, byte ((hex_val a * 16 + hex_val b) % 256))
    else (a ∷ b ∷ cs, fail hex_escape)
scan_hex_escape cs = (cs, fail hex_escape)

-- The switch on the letter `e` of an escape.
unfoldable pub scan_escape : ℕ → List ℕ → List ℕ × Unit?
unfolding scan_hex_escape
scan_escape e cs =
    if e == b'n'
    then (cs, byte 10)
    else if e == b'r'
    then (cs, byte 13)
    else if e == b't'
    then (cs, byte 9)
    else if e == b'0'
    then (cs, byte 0)
    else if (e == 92) || (e == 39) || (e == 34)
    then (cs, byte e)
    else if e == b'x'
    then scan_hex_escape cs
    else (cs, fail (unknown_escape e))

-- One element of a character or string literal; `cur` is left where a failure was noticed.
unfoldable pub scan_char_unit : List ℕ → List ℕ × Unit?
unfolding scan_escape
scan_char_unit [] = ([], fail unterminated_literal)
scan_char_unit (c ∷ []) =
    if c == 10
    then (c ∷ [], fail unterminated_literal)
    else if c == 92
    then ([], fail unterminated_escape)
    else ([], byte c)
scan_char_unit (c ∷ e ∷ cs) =
    if c == 10
    then (c ∷ e ∷ cs, fail unterminated_literal)
    else if not (c == 92)
    then (e ∷ cs, byte c)
    else if e == 10
    then (e ∷ cs, fail unterminated_escape)
    else scan_escape e cs

-- Behind the unit of a character literal.
unfoldable pub close_char : Lexer → Token → List ℕ → ℕ → Lexer × Token
close_char lx t [] ch = error_at (record lx { cur = [] }) t unterminated_character
close_char lx t (c ∷ cs) ch =
    if c == 39
    then (
      record lx { cur = cs },
      record (finish (record lx { cur = cs }) t TokenKind.char) { val = ival ch },
    )
    else error_at (record lx { cur = c ∷ cs }) t unterminated_character

-- The unit of a character literal and what follows; `cur` is behind the opening quote.
unfoldable pub char_body : Lexer → Token → List ℕ → Lexer × Token
unfolding close_char
char_body lx t cur = elim (scan_char_unit cur).1 [
  | fail e ↦ error_at (record lx { cur = (scan_char_unit cur).0 }) t e
  | byte ch ↦ close_char lx t (scan_char_unit cur).0 ch
]

unfoldable pub lex_char : Lexer → Token → List ℕ → Lexer × Token
unfolding char_body
lex_char lx t [] = char_body lx t []
lex_char lx t (c ∷ cs) =
    if c == 39 then error_at (record lx { cur = cs }) t empty_character else char_body lx t (c ∷ cs)

-- How the loop of `lex_string` ends.
pub data Scanned : Type 0 where
  closed : List ℕ → List ℕ → Scanned
  failed : List ℕ → LexError → Scanned

-- The loop over the units, on fuel. `buf` is what has been decoded.
unfoldable pub scan_string : ℕ → List ℕ → List ℕ → Option Scanned
scan_string zero cur buf = none
scan_string (suc f) [] buf = some (failed [] unterminated_string)
scan_string (suc f) (c ∷ cs) buf =
    let unit : Option Scanned = elim (scan_char_unit (c ∷ cs)).1 [
      | fail e ↦ some (failed (scan_char_unit (c ∷ cs)).0 e)
      | byte ch ↦ scan_string f (scan_char_unit (c ∷ cs)).0 (buf ++ ch ∷ [])
    ] in
    if c == 10
    then some (failed (c ∷ cs) unterminated_string)
    else if c == 34
    then some (closed cs buf)
    else unit

unfoldable pub end_string : Lexer → Token → Scanned → Lexer × Token
end_string lx t (failed cur e) = error_at (record lx { cur = cur }) t e
end_string lx t (closed cur buf) = (
  record lx { cur = cur },
  record (finish (record lx { cur = cur }) t TokenKind.string) { val = str buf },
)

-- `cur` is behind the opening quote; the loop takes at least one byte a round.
unfoldable pub lex_string : Lexer → Token → List ℕ → Option (Lexer × Token)
unfolding scan_string end_string
lex_string lx t cur = elim (scan_string (suc (length cur)) cur []) [
  | none ↦ none
  | some r ↦ some (end_string lx t r)
]

pub record Digits : Type 0 where
  pub rest : List ℕ
  pub value : ℕ
  pub overflow : Bool

-- The two loops over digits: `test` and `digit` are `is_hex_digit` and `hex_val` at base 16,
-- `is_digit` and the distance from '0' at base 10. `v` is a `uint64_t`.
unfoldable pub scan_digits : (ℕ → Bool) → (ℕ → ℕ) → ℕ → List ℕ → ℕ → Bool → Digits
scan_digits test digit base [] v overflow = record { rest = []; value = v; overflow = overflow }
scan_digits test digit base (c ∷ cs) v overflow =
    let more =
      scan_digits test digit base cs ((v * base + digit c) % 2 ^ 64)
        (overflow || ltb ((2 ^ 64 - 1 - digit c) / base) v) in
    if test c then more else record { rest = c ∷ cs; value = v; overflow = overflow }

unfoldable pub scan_hex : List ℕ → Digits
unfolding scan_digits
scan_hex cur = scan_digits is_hex_digit hex_val 16 cur 0 false

unfoldable pub scan_dec : List ℕ → Digits
unfolding scan_digits
scan_dec cur = scan_digits is_digit (λ c. c - b'0') 10 cur 0 false

-- The end of an integer literal.
unfoldable pub end_integer : Lexer → Token → Digits → List ℕ → Lexer × Token
end_integer lx t d [] = if d.overflow then error_at (record lx { cur = [] }) t too_large else (
  record lx { cur = [] },
  record (finish (record lx { cur = [] }) t TokenKind.int) { val = ival d.value },
)
end_integer lx t d (c ∷ cs) =
    if is_ident_cont c
    then error_at (record lx { cur = cs }) t after_integer
    else if d.overflow
    then error_at (record lx { cur = c ∷ cs }) t too_large
    else (
      record lx { cur = c ∷ cs },
      record (finish (record lx { cur = c ∷ cs }) t TokenKind.int) { val = ival d.value },
    )

-- The digits of a fraction.
unfoldable pub skip_digits : List ℕ → List ℕ
skip_digits [] = []
skip_digits (c ∷ cs) = if is_digit c then skip_digits cs else c ∷ cs

unfoldable pub end_float : Lexer → Token → List ℕ → Lexer × Token
end_float lx t [] = (
  record lx { cur = [] },
  record (finish (record lx { cur = [] }) t TokenKind.float) {
    val = fval (take (length t.text) t.text);
  },
)
end_float lx t (c ∷ cs) =
    if is_ident_cont c then error_at (record lx { cur = cs }) t after_float else (
      record lx { cur = c ∷ cs },
      record (finish (record lx { cur = c ∷ cs }) t TokenKind.float) {
        val = fval (take (length t.text - length (c ∷ cs)) t.text);
      },
    )

-- Behind the digits of a decimal literal: a dot starts a fraction only when a digit follows.
unfoldable pub end_decimal : Lexer → Token → Digits → List ℕ → Lexer × Token
unfolding end_integer skip_digits end_float
end_decimal lx t d (c ∷ e ∷ cs) =
    if (c == b'.') && is_digit e
    then end_float lx t (skip_digits cs)
    else end_integer lx t d (c ∷ e ∷ cs)
end_decimal lx t d cur = end_integer lx t d cur

-- Behind `0x`.
unfoldable pub hex_number : Lexer → Token → List ℕ → Lexer × Token
unfolding end_integer scan_hex
hex_number lx t [] = error_at (record lx { cur = [] }) t expected_hex_digits
hex_number lx t (c ∷ cs) =
    if is_hex_digit c
    then end_integer lx t (scan_hex (c ∷ cs)) (scan_hex (c ∷ cs)).rest
    else error_at (record lx { cur = c ∷ cs }) t expected_hex_digits

unfoldable pub lex_number : Lexer → Token → List ℕ → Lexer × Token
unfolding end_decimal hex_number scan_dec
lex_number lx t (a ∷ b ∷ cs) =
    if (a == b'0') && (b == b'x')
    then hex_number lx t cs
    else end_decimal lx t (scan_dec (a ∷ b ∷ cs)) (scan_dec (a ∷ b ∷ cs)).rest
lex_number lx t cur = end_decimal lx t (scan_dec cur) (scan_dec cur).rest
