-- ===== src/Lexer/Kind.antt =====
-- Token kinds and their spellings (src/lexer/lexer.h, and the tables of lexer.c). The constructors
-- stand in the enumeration's order, which the range tests of the source rely on.
use Prim.Native.Char.{code}
use Prim.Native.String.{String}
use slop.Base.{ℕ, List, [], ◌∷◌, Bool, ◌&&◌, leb, ◌==◌}

pub data TokenKind : Type 0 where
  eof error ident int float char string kw_let kw_fn kw_if kw_else kw_while kw_break : TokenKind
  kw_continue kw_return kw_struct kw_enum kw_extern kw_mut kw_as kw_sizeof kw_match kw_true :
      TokenKind
  kw_false kw_null kw_i8 kw_u8 kw_i32 kw_u32 kw_i64 kw_u64 kw_f32 kw_f64 kw_b8 kw_b32 kw_b64 :
      TokenKind
  kw_void shl_eq shr_eq ellipsis amp_amp pipe_pipe shl shr le ge eq_eq bang_eq plus_eq minus_eq :
      TokenKind
  star_eq slash_eq percent_eq amp_eq pipe_eq caret_eq arrow fat_arrow plus minus star slash :
      TokenKind
  percent bang amp pipe caret tilde lt gt eq lparen rparen lbrace rbrace lbracket rbracket dot :
      TokenKind
  comma semi colon : TokenKind

-- The enumerator's number.
abbrev pub ord : TokenKind → ℕ
ord eof = 0
ord error = 1
ord ident = 2
ord int = 3
ord float = 4
ord char = 5
ord string = 6
ord kw_let = 7
ord kw_fn = 8
ord kw_if = 9
ord kw_else = 10
ord kw_while = 11
ord kw_break = 12
ord kw_continue = 13
ord kw_return = 14
ord kw_struct = 15
ord kw_enum = 16
ord kw_extern = 17
ord kw_mut = 18
ord kw_as = 19
ord kw_sizeof = 20
ord kw_match = 21
ord kw_true = 22
ord kw_false = 23
ord kw_null = 24
ord kw_i8 = 25
ord kw_u8 = 26
ord kw_i32 = 27
ord kw_u32 = 28
ord kw_i64 = 29
ord kw_u64 = 30
ord kw_f32 = 31
ord kw_f64 = 32
ord kw_b8 = 33
ord kw_b32 = 34
ord kw_b64 = 35
ord kw_void = 36
ord shl_eq = 37
ord shr_eq = 38
ord ellipsis = 39
ord amp_amp = 40
ord pipe_pipe = 41
ord shl = 42
ord shr = 43
ord le = 44
ord ge = 45
ord eq_eq = 46
ord bang_eq = 47
ord plus_eq = 48
ord minus_eq = 49
ord star_eq = 50
ord slash_eq = 51
ord percent_eq = 52
ord amp_eq = 53
ord pipe_eq = 54
ord caret_eq = 55
ord arrow = 56
ord fat_arrow = 57
ord plus = 58
ord minus = 59
ord star = 60
ord slash = 61
ord percent = 62
ord bang = 63
ord amp = 64
ord pipe = 65
ord caret = 66
ord tilde = 67
ord lt = 68
ord gt = 69
ord eq = 70
ord lparen = 71
ord rparen = 72
ord lbrace = 73
ord rbrace = 74
ord lbracket = 75
ord rbracket = 76
ord dot = 77
ord comma = 78
ord semi = 79
ord colon = 80

-- `a == b` on kinds.
abbrev pub kind_eq : TokenKind → TokenKind → Bool
kind_eq a b = ord a == ord b

unfoldable pub token_is_keyword : TokenKind → Bool
token_is_keyword k = leb (ord kw_let) (ord k) && leb (ord k) (ord kw_void)

unfoldable pub token_is_core_type : TokenKind → Bool
token_is_core_type k = leb (ord kw_i8) (ord k) && leb (ord k) (ord kw_void)

-- The bytes of a text.
abbrev pub codes : String → List ℕ
codes String.[] = []
codes (String.◌∷◌ c s) = code c ∷ codes s

-- The keyword table.
unfoldable pub keywords : List (List ℕ × TokenKind)
keywords =
    (codes "let", kw_let)
    ∷ (codes "fn", kw_fn)
    ∷ (codes "if", kw_if)
    ∷ (codes "else", kw_else)
    ∷ (codes "while", kw_while)
    ∷ (codes "break", kw_break)
    ∷ (codes "continue", kw_continue)
    ∷ (codes "return", kw_return)
    ∷ (codes "struct", kw_struct)
    ∷ (codes "enum", kw_enum)
    ∷ (codes "extern", kw_extern)
    ∷ (codes "mut", kw_mut)
    ∷ (codes "as", kw_as)
    ∷ (codes "sizeof", kw_sizeof)
    ∷ (codes "match", kw_match)
    ∷ (codes "true", kw_true)
    ∷ (codes "false", kw_false)
    ∷ (codes "null", kw_null)
    ∷ (codes "i8", kw_i8)
    ∷ (codes "u8", kw_u8)
    ∷ (codes "i32", kw_i32)
    ∷ (codes "u32", kw_u32)
    ∷ (codes "i64", kw_i64)
    ∷ (codes "u64", kw_u64)
    ∷ (codes "f32", kw_f32)
    ∷ (codes "f64", kw_f64)
    ∷ (codes "b8", kw_b8)
    ∷ (codes "b32", kw_b32)
    ∷ (codes "b64", kw_b64)
    ∷ (codes "void", kw_void)
    ∷ []

-- The punctuation table, longest spelling first.
unfoldable pub puncts : List (List ℕ × TokenKind)
puncts =
    (codes "<<=", shl_eq)
    ∷ (codes ">>=", shr_eq)
    ∷ (codes "...", ellipsis)
    ∷ (codes "&&", amp_amp)
    ∷ (codes "||", pipe_pipe)
    ∷ (codes "<<", shl)
    ∷ (codes ">>", shr)
    ∷ (codes "<=", le)
    ∷ (codes ">=", ge)
    ∷ (codes "==", eq_eq)
    ∷ (codes "!=", bang_eq)
    ∷ (codes "+=", plus_eq)
    ∷ (codes "-=", minus_eq)
    ∷ (codes "*=", star_eq)
    ∷ (codes "/=", slash_eq)
    ∷ (codes "%=", percent_eq)
    ∷ (codes "&=", amp_eq)
    ∷ (codes "|=", pipe_eq)
    ∷ (codes "^=", caret_eq)
    ∷ (codes "->", arrow)
    ∷ (codes "=>", fat_arrow)
    ∷ (codes "+", plus)
    ∷ (codes "-", minus)
    ∷ (codes "*", star)
    ∷ (codes "/", slash)
    ∷ (codes "%", percent)
    ∷ (codes "!", bang)
    ∷ (codes "&", amp)
    ∷ (codes "|", pipe)
    ∷ (codes "^", caret)
    ∷ (codes "~", tilde)
    ∷ (codes "<", lt)
    ∷ (codes ">", gt)
    ∷ (codes "=", eq)
    ∷ (codes "(", lparen)
    ∷ (codes ")", rparen)
    ∷ (codes "{", lbrace)
    ∷ (codes "}", rbrace)
    ∷ (codes "[", lbracket)
    ∷ (codes "]", rbracket)
    ∷ (codes ".", dot)
    ∷ (codes ",", comma)
    ∷ (codes ";", semi)
    ∷ (codes ":", colon)
    ∷ []

-- The printable name of a kind.
unfoldable pub token_kind_name : TokenKind → List ℕ
token_kind_name eof = codes "end of file"
token_kind_name error = codes "error"
token_kind_name ident = codes "identifier"
token_kind_name int = codes "int literal"
token_kind_name float = codes "float literal"
token_kind_name char = codes "char literal"
token_kind_name string = codes "string literal"
token_kind_name kw_let = codes "let"
token_kind_name kw_fn = codes "fn"
token_kind_name kw_if = codes "if"
token_kind_name kw_else = codes "else"
token_kind_name kw_while = codes "while"
token_kind_name kw_break = codes "break"
token_kind_name kw_continue = codes "continue"
token_kind_name kw_return = codes "return"
token_kind_name kw_struct = codes "struct"
token_kind_name kw_enum = codes "enum"
token_kind_name kw_extern = codes "extern"
token_kind_name kw_mut = codes "mut"
token_kind_name kw_as = codes "as"
token_kind_name kw_sizeof = codes "sizeof"
token_kind_name kw_match = codes "match"
token_kind_name kw_true = codes "true"
token_kind_name kw_false = codes "false"
token_kind_name kw_null = codes "null"
token_kind_name kw_i8 = codes "i8"
token_kind_name kw_u8 = codes "u8"
token_kind_name kw_i32 = codes "i32"
token_kind_name kw_u32 = codes "u32"
token_kind_name kw_i64 = codes "i64"
token_kind_name kw_u64 = codes "u64"
token_kind_name kw_f32 = codes "f32"
token_kind_name kw_f64 = codes "f64"
token_kind_name kw_b8 = codes "b8"
token_kind_name kw_b32 = codes "b32"
token_kind_name kw_b64 = codes "b64"
token_kind_name kw_void = codes "void"
token_kind_name shl_eq = codes "<<="
token_kind_name shr_eq = codes ">>="
token_kind_name ellipsis = codes "..."
token_kind_name amp_amp = codes "&&"
token_kind_name pipe_pipe = codes "||"
token_kind_name shl = codes "<<"
token_kind_name shr = codes ">>"
token_kind_name le = codes "<="
token_kind_name ge = codes ">="
token_kind_name eq_eq = codes "=="
token_kind_name bang_eq = codes "!="
token_kind_name plus_eq = codes "+="
token_kind_name minus_eq = codes "-="
token_kind_name star_eq = codes "*="
token_kind_name slash_eq = codes "/="
token_kind_name percent_eq = codes "%="
token_kind_name amp_eq = codes "&="
token_kind_name pipe_eq = codes "|="
token_kind_name caret_eq = codes "^="
token_kind_name arrow = codes "->"
token_kind_name fat_arrow = codes "=>"
token_kind_name plus = codes "+"
token_kind_name minus = codes "-"
token_kind_name star = codes "*"
token_kind_name slash = codes "/"
token_kind_name percent = codes "%"
token_kind_name bang = codes "!"
token_kind_name amp = codes "&"
token_kind_name pipe = codes "|"
token_kind_name caret = codes "^"
token_kind_name tilde = codes "~"
token_kind_name lt = codes "<"
token_kind_name gt = codes ">"
token_kind_name eq = codes "="
token_kind_name lparen = codes "("
token_kind_name rparen = codes ")"
token_kind_name lbrace = codes "{"
token_kind_name rbrace = codes "}"
token_kind_name lbracket = codes "["
token_kind_name rbracket = codes "]"
token_kind_name dot = codes "."
token_kind_name comma = codes ","
token_kind_name semi = codes ";"
token_kind_name colon = codes ":"
