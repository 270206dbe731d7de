-- ===== src/Parser/State.antt =====
-- The parser's state and its token access (src/parser/parser.c). `toks` is the token list from the
-- current position on: its last token is the end of file, and it is never empty. A parse takes the
-- state and gives the new one with its result; `none` means that a loop's fuel ran out. The nodes
-- that the C allocates in the arena are values.
use slop.Base.{
  ℕ, ◌+◌, ◌-◌, List, [], ◌∷◌, Bool, true, false, leb, if◌then◌else◌, length, take, Option, none,
  some,
}
use slop.Lexer.Kind.{TokenKind, kind_eq}
use slop.Lexer.State.{Token, Val, ival, fval, str}
use slop.Support.Diag.{Diag, SrcPos, diag_error}
use slop.Support.StrView.{StrView}

pub record Parser : Type 0 where
  pub toks : List Token
  pub depth : ℕ
  pub diag : Diag

abbrev pub max_nesting : ℕ
max_nesting = 200

abbrev pub Parse {ℓ} : Type ℓ → Type ℓ
Parse A = Parser → Option (Parser × A)

infixl 5 ◌>>=◌ ◌>>◌
unfoldable pub ◌>>=◌ {ℓ κ} : {A : Type ℓ} {B : Type κ} → Parse A → (A → Parse B) → Parse B
(m >>= f) p = elim (m p) [ none ↦ none | some r ↦ f r.1 r.0 ]

abbrev pub ◌>>◌ {ℓ κ} : {A : Type ℓ} {B : Type κ} → Parse A → Parse B → Parse B
m >> k = m >>= λ _. k

abbrev pub pure {ℓ} : {A : Type ℓ} → A → Parse A
pure a p = some (p, a)

-- A loop that was given too little fuel.
abbrev pub out_of_fuel {ℓ} : {A : Type ℓ} → Parse A
out_of_fuel p = none

abbrev pub done : Parse (Unit {0})
done = pure tt

-- A position with no token reads as the end of file; there is none.
abbrev pub head : List Token → Token
head [] = record { kind = TokenKind.eof; text = []; len = 0; line = 0; col = 0; val = ival 0 }
head (t ∷ ts) = t

abbrev pub pos_of : Token → SrcPos
pos_of t = record { line = t.line; col = t.col }

abbrev pub cur : Parser → TokenKind
cur p = (head p.toks).kind

abbrev pub peek : Parse TokenKind
peek p = some (p, cur p)

abbrev pub here : Parse SrcPos
here p = some (p, pos_of (head p.toks))

-- How many tokens are left: a loop's fuel, and the position from the other end.
abbrev pub left : Parse ℕ
left p = some (p, length p.toks)

abbrev pub tok_view : Token → StrView
tok_view t = take t.len t.text

-- The members of the token's union. The lexer gives each kind of token the one that is read.
abbrev pub ival_of : Val → ℕ
ival_of (ival n) = n
ival_of _ = 0

abbrev pub fval_of : Val → List ℕ
fval_of (fval s) = s
fval_of _ = []

abbrev pub str_of : Val → List ℕ
str_of (str s) = s
str_of _ = []

-- Error tokens are reported and stepped over, the last token apart.
unfoldable pub skip_error_tokens : List Token → Diag → List Token × Diag
skip_error_tokens [] d = ([], d)
skip_error_tokens (t ∷ []) d = (t ∷ [], d)
skip_error_tokens (t ∷ u ∷ ts) d =
    let rest = skip_error_tokens (u ∷ ts) (diag_error d (pos_of t)) in
    if kind_eq t.kind TokenKind.error then rest else (t ∷ u ∷ ts, d)

-- The position moves unless it is on the last token.
unfoldable pub next_tokens : List Token → Diag → List Token × Diag
unfolding skip_error_tokens
next_tokens [] d = ([], d)
next_tokens (t ∷ []) d = (t ∷ [], d)
next_tokens (t ∷ u ∷ ts) d = skip_error_tokens (u ∷ ts) d

abbrev pub moved : Parser → Parser
moved p = record p { toks = (next_tokens p.toks p.diag).0; diag = (next_tokens p.toks p.diag).1 }

abbrev pub advance : Parse Token
advance p = some (moved p, head p.toks)

abbrev pub at : TokenKind → Parse Bool
at kind p = some (p, kind_eq (cur p) kind)

unfoldable pub accept : TokenKind → Parse Bool
accept kind p = if kind_eq (cur p) kind then some (moved p, true) else some (p, false)

-- An error is reported at the current token; its wording is left out.
abbrev pub reported : Parser → Parser
reported p = record p { diag = diag_error p.diag (pos_of (head p.toks)) }

abbrev pub error_unexpected : Parse (Unit {0})
error_unexpected p = some (reported p, tt)

-- The same at a position that was kept.
abbrev pub error_at : SrcPos → Parse (Unit {0})
error_at pos p = some (record p { diag = diag_error p.diag pos }, tt)

unfoldable pub expect : TokenKind → Parse Bool
expect kind p = if kind_eq (cur p) kind then some (moved p, true) else some (reported p, false)

-- An identifier, or an error.
unfoldable pub expect_ident : Parse (Option StrView)
expect_ident p =
    if kind_eq (cur p) TokenKind.ident
    then some (moved p, some (tok_view (head p.toks)))
    else some (reported p, none)

-- One level deeper, and back.
unfoldable pub nested {ℓ} : {A : Type ℓ} → Parse A → Parse A
nested m p = elim (m (record p { depth = p.depth + 1 })) [
  | none ↦ none
  | some r ↦ some (record r.0 { depth = r.0.depth - 1 }, r.1)
]

-- `m` below the nesting limit; at the limit an error and `missing`.
unfoldable pub limited {ℓ} : {A : Type ℓ} → A → Parse A → Parse A
unfolding nested
limited missing m p = if leb max_nesting p.depth then some (reported p, missing) else nested m p
