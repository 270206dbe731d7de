-- ===== src/Parser/Spelled.antt =====
-- Types and the tokens that spell them (src/parser/parser.c, `parse_type`).
use slop.Base.{
  ℕ, zero, suc, ◌≤◌, ◌≡◌, refl, ap, ◌∙◌, List, [], ◌∷◌, true, false, arith, if_both, length, take,
  some,
}
use slop.Ast.{Syntax, core_type, named_type, pointer_type, array_type}
use slop.Lexer.Kind.{TokenKind, kind_eq, token_is_core_type}
use slop.Lexer.State.{Token, ival}
use slop.Support.Diag.{SrcPos, Diag}
use slop.Parser.State.{Parser, Parse, ◌>>=◌, next_tokens, skip_error_tokens, expect, moved, pos_of}
use slop.Parser.Types.{array_length, type_suffixes, suffixed, parse_type}
use slop.Parser.Spelling.{
  Spelling, core, name, pointer, array, tokens_onto, first_token, IsCore, IsSpelling, type_at, Ends,
}
use slop.Parser.Takes.{accept-skips, accept-takes, expect-takes, array_length-takes}

abbrev Clean : List Token → Type 0
Clean [] = ⊥
Clean (t ∷ ts) = kind_eq t.kind TokenKind.error ≡ false

next_tokens-Clean :
    (t : Token) (ts : List Token) (d : Diag) → Clean ts → next_tokens (t ∷ ts) d ≡ (ts, d)
unfolding next_tokens skip_error_tokens
next_tokens-Clean t [] d c = elim c [ ]
next_tokens-Clean t (u ∷ []) d c = refl
next_tokens-Clean t (u ∷ v ∷ ts) d c = rw c refl

core-kind : (k : TokenKind) → IsCore k → token_is_core_type k ≡ true
unfolding token_is_core_type
core-kind TokenKind.kw_i8 h = refl
core-kind TokenKind.kw_i32 h = refl
core-kind TokenKind.kw_i64 h = refl
core-kind TokenKind.kw_u8 h = refl
core-kind TokenKind.kw_u32 h = refl
core-kind TokenKind.kw_u64 h = refl
core-kind TokenKind.kw_f32 h = refl
core-kind TokenKind.kw_f64 h = refl
core-kind TokenKind.kw_b8 h = refl
core-kind TokenKind.kw_b32 h = refl
core-kind TokenKind.kw_b64 h = refl
core-kind TokenKind.kw_void h = refl
core-kind _ h = elim h [ ]

ident-core : (k : TokenKind) → k ≡ TokenKind.ident → token_is_core_type k ≡ false
unfolding token_is_core_type
ident-core k e = ap token_is_core_type e

module _ (pos : SrcPos) (depth : ℕ) (d : Diag) where
  abbrev state : List Token → Parser
  state ts = record { toks = ts; depth = depth; diag = d }

  moved-state : (t : Token) (ts : List Token) → Clean ts → moved (state (t ∷ ts)) ≡ state ts
  moved-state t ts c =
      ap (λ (r : List Token × Diag). record { toks = r.0; depth = depth; diag = r.1 })
        (next_tokens-Clean t ts d c)

  star_step :
      (f : ℕ) (t : Syntax) (k : Token) (ts : List Token)
      → k.kind ≡ TokenKind.star
      → Clean ts
      → type_suffixes (suc f) pos t (state (k ∷ ts))
        ≡ type_suffixes f pos (pointer_type pos t) (state ts)
  unfolding type_suffixes
  star_step f t k ts e c =
      accept-takes TokenKind.star _ (state (k ∷ ts)) (ap (λ x. kind_eq x TokenKind.star) e)
      ∙ ap (type_suffixes f pos (pointer_type pos t)) (moved-state k ts c)

  array_step :
      (f n : ℕ) (t : Syntax) (l i r : Token) (ts : List Token)
      → l.kind ≡ TokenKind.lbracket
      → i.kind ≡ TokenKind.int
      → i.val ≡ ival n
      → r.kind ≡ TokenKind.rbracket
      → Clean ts
      → type_suffixes (suc f) pos t (state (l ∷ i ∷ r ∷ ts))
        ≡ type_suffixes f pos (array_type pos t n) (state ts)
  unfolding type_suffixes
  array_step f n t l i r ts el ei v er c =
      let after : Parse Syntax = type_suffixes f pos (array_type pos t n) in
      let close : ℕ → Parse Syntax =
        λ k. expect TokenKind.rbracket >>= λ _. type_suffixes f pos (array_type pos t k) in
      accept-skips TokenKind.star _ (state (l ∷ i ∷ r ∷ ts)) (ap (λ x. kind_eq x TokenKind.star) el)
      ∙ accept-takes TokenKind.lbracket _ (state (l ∷ i ∷ r ∷ ts))
          (ap (λ x. kind_eq x TokenKind.lbracket) el)
      ∙ ap (array_length >>= close)
          (moved-state l (i ∷ r ∷ ts) (ap (λ x. kind_eq x TokenKind.error) ei))
      ∙ array_length-takes n close (state (i ∷ r ∷ ts)) (ap (λ x. kind_eq x TokenKind.int) ei) v
      ∙ ap (close n) (moved-state i (r ∷ ts) (ap (λ x. kind_eq x TokenKind.error) er))
      ∙ expect-takes TokenKind.rbracket _ (state (r ∷ ts))
          (ap (λ x. kind_eq x TokenKind.rbracket) er)
      ∙ ap after (moved-state r ts c)

  -- The fuel before the suffixes of a type.
  abbrev fuel_before : Spelling → ℕ → ℕ
  fuel_before (pointer s k) f = fuel_before s (suc f)
  fuel_before (array s l i n r) f = fuel_before s (suc f)
  fuel_before _ f = f

  -- The node of the first token.
  abbrev base : Spelling → Syntax
  base (core t) = core_type pos t.kind
  base (name t) = named_type pos (take t.len t.text)
  base (pointer s k) = base s
  base (array s l i n r) = base s

  -- The tokens behind the first one.
  abbrev suffixes_onto : Spelling → List Token → List Token
  suffixes_onto (pointer s k) rest = suffixes_onto s (k ∷ rest)
  suffixes_onto (array s l i n r) rest = suffixes_onto s (l ∷ i ∷ r ∷ rest)
  suffixes_onto _ rest = rest

  suffixes_onto-Clean :
      (s : Spelling) (ts : List Token) → IsSpelling s → Clean ts → Clean (suffixes_onto s ts)
  suffixes_onto-Clean (core t) ts w c = c
  suffixes_onto-Clean (name t) ts w c = c
  suffixes_onto-Clean (pointer s k) ts w c =
      suffixes_onto-Clean s (k ∷ ts) (w.1) (ap (λ x. kind_eq x TokenKind.error) (w.0))
  suffixes_onto-Clean (array s l i n r) ts (el, _, _, _, w) c =
      suffixes_onto-Clean s (l ∷ i ∷ r ∷ ts) w (ap (λ x. kind_eq x TokenKind.error) el)

  tokens_onto-suffixes :
      (s : Spelling) (rest : List Token) → tokens_onto s rest ≡ first_token s ∷ suffixes_onto s rest
  tokens_onto-suffixes (core t) rest = refl
  tokens_onto-suffixes (name t) rest = refl
  tokens_onto-suffixes (pointer s k) rest = tokens_onto-suffixes s (k ∷ rest)
  tokens_onto-suffixes (array s l i n r) rest = tokens_onto-suffixes s (l ∷ i ∷ r ∷ rest)

  one_less :
      (s : Spelling) (n least : ℕ)
      → ((f : ℕ) × (suc least ≤ f) × (n ≡ fuel_before s f))
      → (f : ℕ) × (least ≤ f) × (n ≡ fuel_before s (suc f))
  one_less s n least (zero, h, e) = absurd (omega (arith, h))
  one_less s n least (suc f, h, e) = (f, omega (arith, h), e)

  suffixes_read :
      (s : Spelling) (f : ℕ) (ts : List Token)
      → IsSpelling s
      → Clean ts
      → type_suffixes (fuel_before s f) pos (base s) (state (suffixes_onto s ts))
        ≡ type_suffixes f pos (type_at pos s) (state ts)
  suffixes_read (core t) f ts w c = refl
  suffixes_read (name t) f ts w c = refl
  suffixes_read (pointer s k) f ts w c =
      suffixes_read s (suc f) (k ∷ ts) (w.1) (ap (λ x. kind_eq x TokenKind.error) (w.0))
      ∙ star_step f (type_at pos s) k ts (w.0) c
  suffixes_read (array s l i n r) f ts (el, ei, v, er, w) c =
      suffixes_read s (suc f) (l ∷ i ∷ r ∷ ts) w (ap (λ x. kind_eq x TokenKind.error) el)
      ∙ array_step f n (type_at pos s) l i r ts el ei v er c

  suffixes_end :
      (f : ℕ) (t : Syntax) (u : Token) (us : List Token)
      → Ends u
      → type_suffixes (suc f) pos t (state (u ∷ us)) ≡ some (state (u ∷ us), t)
  unfolding type_suffixes
  suffixes_end f t u us e =
      accept-skips TokenKind.star _ (state (u ∷ us)) e.no_star
      ∙ accept-skips TokenKind.lbracket _ (state (u ∷ us)) e.no_bracket

  -- The tokens that are left are fuel enough for the suffixes, with `least` rounds to spare.
  enough :
      (s : Spelling) (rest : List Token) (least : ℕ)
      → least ≤ length rest
      → (f : ℕ) × (least ≤ f) × (length (suffixes_onto s rest) ≡ fuel_before s f)
  enough (core t) rest least h = (length rest, h, refl)
  enough (name t) rest least h = (length rest, h, refl)
  enough (pointer s k) rest least h =
      one_less s _ least (enough s (k ∷ rest) (suc least) (omega (arith, h)))
  enough (array s l i n r) rest least h =
      one_less s _ least (enough s (l ∷ i ∷ r ∷ rest) (suc least) (omega (arith, h)))

-- The first token, where it stands.
base_read :
    (depth : ℕ) (d : Diag) (s : Spelling) (ts : List Token)
    → IsSpelling s
    → Clean ts
    → parse_type (state (pos_of (first_token s)) depth d (first_token s ∷ ts))
      ≡ suffixed
          (pos_of (first_token s))
          (base (pos_of (first_token s)) depth d s)
          (state (pos_of (first_token s)) depth d ts)
unfolding parse_type ◌>>=◌
base_read depth d (core t) ts w c =
    let p = state (pos_of t) depth d (t ∷ ts) in
    if_both
      (λ (m : Parse Syntax).
        m p ≡ suffixed (pos_of t) (core_type (pos_of t) t.kind) (state (pos_of t) depth d ts))
      (token_is_core_type t.kind)
      (λ _.
        ap (suffixed (pos_of t) (core_type (pos_of t) t.kind))
          (moved-state (pos_of t) depth d t ts c))
      (λ e. cc (e, core-kind t.kind w))
base_read depth d (name t) ts w c =
    let p = state (pos_of t) depth d (t ∷ ts) in
    let P : Parse Syntax → Type 0 = λ m.
      m p
      ≡ suffixed (pos_of t) (named_type (pos_of t) (take t.len t.text))
          (state (pos_of t) depth d ts) in
    if_both P (token_is_core_type t.kind) (λ e. cc (e, ident-core t.kind w))
      (λ _.
        if_both P (kind_eq t.kind TokenKind.ident)
          (λ _.
            ap (suffixed (pos_of t) (named_type (pos_of t) (take t.len t.text)))
              (moved-state (pos_of t) depth d t ts c))
          (λ e. cc (e, ap (λ x. kind_eq x TokenKind.ident) w)))
base_read depth d (pointer s k) ts w c = base_read depth d s ts (w.1) c
base_read depth d (array s l i n r) ts (_, _, _, _, w) c = base_read depth d s ts w c

-- The parser reads a type from the tokens that spell it, wherever each of them stands, whatever
-- stands behind them that is no further suffix and no error: it gives the type, every node of it
-- with the position of the first token, stands behind the tokens, and reports nothing.
pub parse_type-tokens_onto :
    (s : Spelling) (u : Token) (us : List Token) (depth : ℕ) (d : Diag)
    → IsSpelling s
    → Ends u
    → parse_type (record { toks = tokens_onto s (u ∷ us); depth = depth; diag = d })
      ≡ some (record { toks = u ∷ us; depth = depth; diag = d }, type_at (pos_of (first_token s)) s)
unfolding suffixed ◌>>=◌
parse_type-tokens_onto s u us depth d w e =
    ap (λ ts. parse_type (state pos depth d ts)) (tokens_onto-suffixes pos depth d s (u ∷ us))
    ∙ (base_read depth d s (suffixes_onto pos depth d s (u ∷ us)) w
          (suffixes_onto-Clean pos depth d s (u ∷ us) w e.clean)
        ∙ with_fuel (enough pos depth d s (u ∷ us) 1 (omega arith)))
  where
    pos : SrcPos
    pos = pos_of (first_token s)

    with_fuel :
        ((f : ℕ) × (1 ≤ f)
          × (length (suffixes_onto pos depth d s (u ∷ us)) ≡ fuel_before pos depth d s f))
        → suffixed pos
            (base pos depth d s)
            (state pos depth d (suffixes_onto pos depth d s (u ∷ us)))
          ≡ some (state pos depth d (u ∷ us), type_at pos s)
    with_fuel (zero, h, x) = absurd (omega (arith, h))
    with_fuel (suc f, h, x) =
        ap
          (λ n.
            type_suffixes n pos (base pos depth d s)
              (state pos depth d (suffixes_onto pos depth d s (u ∷ us))))
          x
        ∙ (suffixes_read pos depth d s (suc f) (u ∷ us) w e.clean
            ∙ suffixes_end pos depth d f (type_at pos s) u us e)
