-- ===== src/Parser/Spelling.antt =====
-- How a type is written (src/parser/parser.c, `parse_type`; the grammar's `type`).
use slop.Base.{ℕ, ◌≡◌, List, ◌∷◌, false, take}
use slop.Ast.{Syntax, core_type, named_type, pointer_type, array_type}
use slop.Lexer.Kind.{TokenKind, kind_eq}
use slop.Lexer.State.{Token, ival}
use slop.Support.Diag.{SrcPos}

-- A type as it is written: its first token, and the tokens of each suffix, with the number between
-- the brackets. The tokens may stand anywhere in a source.
pub data Spelling : Type 0 where
  core name : Token → Spelling
  pointer : Spelling → Token → Spelling
  array : Spelling → Token → Token → ℕ → Token → Spelling

-- The tokens of a spelling, in front of `rest`.
abbrev pub tokens_onto : Spelling → List Token → List Token
tokens_onto (core t) rest = t ∷ rest
tokens_onto (name t) rest = t ∷ rest
tokens_onto (pointer s k) rest = tokens_onto s (k ∷ rest)
tokens_onto (array s l i n r) rest = tokens_onto s (l ∷ i ∷ r ∷ rest)

abbrev pub first_token : Spelling → Token
first_token (core t) = t
first_token (name t) = t
first_token (pointer s k) = first_token s
first_token (array s l i n r) = first_token s

-- The keywords of the core types.
abbrev pub IsCore : TokenKind → Type 0
IsCore TokenKind.kw_i8 = Unit {0}
IsCore TokenKind.kw_i32 = Unit {0}
IsCore TokenKind.kw_i64 = Unit {0}
IsCore TokenKind.kw_u8 = Unit {0}
IsCore TokenKind.kw_u32 = Unit {0}
IsCore TokenKind.kw_u64 = Unit {0}
IsCore TokenKind.kw_f32 = Unit {0}
IsCore TokenKind.kw_f64 = Unit {0}
IsCore TokenKind.kw_b8 = Unit {0}
IsCore TokenKind.kw_b32 = Unit {0}
IsCore TokenKind.kw_b64 = Unit {0}
IsCore TokenKind.kw_void = Unit {0}
IsCore _ = ⊥

-- The tokens have the kinds and the values that the spelling takes them for.
abbrev pub IsSpelling : Spelling → Type 0
IsSpelling (core t) = IsCore t.kind
IsSpelling (name t) = t.kind ≡ TokenKind.ident
IsSpelling (pointer s k) = (k.kind ≡ TokenKind.star) × IsSpelling s
IsSpelling (array s l i n r) =
    (l.kind ≡ TokenKind.lbracket)
    × (i.kind ≡ TokenKind.int)
    × (i.val ≡ ival n)
    × (r.kind ≡ TokenKind.rbracket)
    × IsSpelling s

-- The type that is written, with one position throughout.
abbrev pub type_at : SrcPos → Spelling → Syntax
type_at pos (core t) = core_type pos t.kind
type_at pos (name t) = named_type pos (take t.len t.text)
type_at pos (pointer s k) = pointer_type pos (type_at pos s)
type_at pos (array s l i n r) = array_type pos (type_at pos s) n

-- What may stand behind a type: no error, and no further suffix.
pub record Ends (u : Token) : Type 0 where
  pub clean : kind_eq u.kind TokenKind.error ≡ false
  pub no_star : kind_eq u.kind TokenKind.star ≡ false
  pub no_bracket : kind_eq u.kind TokenKind.lbracket ≡ false
