-- ===== src/Lexer/Tokens.antt =====
-- The readers of numbers, strings, identifiers and punctuation, and the dispatch on the first byte
-- (src/lexer/lexer.c).
use slop.Lexer.Kind.{TokenKind, kind_eq, eof, error, keywords, puncts}
use slop.Lexer.State.{
  Lexer, Token, unterminated_string, is_hex_digit, is_digit, is_ident_cont, is_ident_start, finish,
}
use slop.Lexer.Literal.{
  Unit?, byte, fail, scan_char_unit, Scanned, closed, failed, scan_string, end_string, lex_string,
  scan_hex, hex_number, lex_number, scan_dec, lex_char,
}
use slop.Lexer.Next.{
  find_keyword, starts, find_punct, lex_ident, lex_unexpected, lex_punct, lex_token, skip_ident,
}
use slop.Lexer.Takes.{
  Takes, done, more, Takes-length, scan_char_unit-Takes, scan_char_unit-past, scan_hex-Takes,
  scan_digits-Takes, skip_ident-Takes, is_digit_line, is_ident_cont_line,
}
use slop.Lexer.Scans.{Scans, error_at-Scans, value-Scans, finish-Scans}
use slop.Lexer.Branches.{
  Past, Past-byte, Past-Takes, end_integer-Scans, end_decimal-Scans, lex_char-Scans,
}
use mathlib.Core.Path.{subst}
use slop.Base.{
  length-append, sym, ℕ, zero, suc, ◌<◌, ◌≡◌, refl, List, [], ◌∷◌, ◌++◌, Bool, true, false, ◌&&◌,
  ◌==◌, not, arith, length, drop, if_both, Bool-cases, inl, inr, Option, some, some_injective,
  if_split, and_split, ltb, bytes_eq, leb, take, ◌-◌, ap, none,
}

one_line : List ℕ → Bool
one_line [] = true
one_line (c ∷ cs) = not (c == 10) && one_line cs

-- The text of a row is on one line and not empty, and its kind is a real one.
is_row : List ℕ × TokenKind → Bool
is_row p = one_line p.0 && ltb 0 (length p.0) && not (kind_eq p.1 error) && not (kind_eq p.1 eof)

all_rows : List (List ℕ × TokenKind) → Bool
all_rows [] = true
all_rows (p ∷ ps) = is_row p && all_rows ps

keywords_rows : all_rows keywords ≡ true
unfolding all_rows is_row one_line keywords
keywords_rows = refl

puncts_rows : all_rows puncts ≡ true
unfolding all_rows is_row one_line puncts
puncts_rows = refl

find_punct_lem :
    (ps : List (List ℕ × TokenKind)) (cur : List ℕ) {p : List ℕ × TokenKind}
    → all_rows ps ≡ true
    → find_punct ps cur ≡ some p
    → (is_row p ≡ true) × (starts p.0 cur ≡ true)
unfolding find_punct all_rows
find_punct_lem [] cur h e = cc
find_punct_lem (x ∷ ps) cur {p} h e = elim (if_split (starts x.0 cur) e) [
  | inl (found, same) ↦
      let same' : x ≡ p = some_injective same in
      rw (← same') ((and_split (is_row x) (all_rows ps) h).0, found)
  | inr (_, rest) ↦ find_punct_lem ps cur (and_split (is_row x) (all_rows ps) h).1 rest
]

find_keyword_lem :
    (ks : List (List ℕ × TokenKind)) (text : List ℕ) {k : TokenKind}
    → all_rows ks ≡ true
    → find_keyword ks text ≡ some k
    → (kind_eq k error ≡ false) × (kind_eq k eof ≡ false)
unfolding find_keyword all_rows is_row
find_keyword_lem [] text h e = cc
find_keyword_lem (x ∷ ks) text {k} h e =
    elim (if_split ((length x.0 == length text) && bytes_eq text x.0) e) [
      | inl (found, same) ↦ let same' : x.1 ≡ k = some_injective same in rw (← same') (ground arith)
      | inr (_, rest) ↦ find_keyword_lem ks text (and_split (is_row x) (all_rows ks) h).1 rest
    ]

-- A text that begins with a spelling is that spelling and the rest.
pub starts-append : (s cur : List ℕ) → starts s cur ≡ true → cur ≡ s ++ drop (length s) cur
unfolding starts
starts-append [] cur h = refl
starts-append (a ∷ s) [] h = ground arith
starts-append (a ∷ s) (c ∷ cur) h = ground (arith, starts-append s cur)

Takes-append : (s r : List ℕ) → one_line s ≡ true → Takes (s ++ r) r
unfolding one_line
Takes-append [] r h = done
Takes-append (c ∷ s) r h = more (ground arith) (Takes-append s r (ground arith))

module _ (lx : Lexer) (t : Token) (full : List ℕ) where
  hex_number-Scans : (cur : List ℕ) → Past full cur → Scans lx t full (hex_number lx t cur)
  unfolding hex_number
  hex_number-Scans [] p = error_at-Scans lx t full [] p.0 p.1 _
  hex_number-Scans (c ∷ cs) p =
      if_both (Scans lx t full) (is_hex_digit c)
        (λ h.
          end_integer-Scans lx t full (scan_hex (c ∷ cs)) _
            (Past-Takes p (scan_hex-Takes (c ∷ cs))))
        (λ h. error_at-Scans lx t full (c ∷ cs) p.0 p.1 _)

  -- What the loop of a string leaves is behind the opening quote.
  abbrev Ends : Scanned → Type 0
  Ends (closed cur buf) = Past full cur
  Ends (failed cur e) = Past full cur

  scan_string-Ends :
      (f : ℕ) (cur buf : List ℕ)
      → length cur < f
      → Past full cur
      → (r : Scanned) × (scan_string f cur buf ≡ some r) × Ends r
  unfolding scan_string
  scan_string-Ends zero cur buf h p = elim h [ ]
  scan_string-Ends (suc f) [] buf h p = (failed [] unterminated_string, refl, p)
  scan_string-Ends (suc f) (c ∷ cs) buf h p = elim (Bool-cases (c == 10)) [
    | inl line ↦ (failed (c ∷ cs) unterminated_string, rw line, p)
    | inr line ↦ elim (Bool-cases (c == 34)) [
      | inl quote ↦ (closed cs buf, rw (line, quote), Past-byte c line p)
      | inr inside ↦
          let q = Past-Takes (Past-byte c line p) (scan_char_unit-past c cs line) in
          let fewer : length (scan_char_unit (c ∷ cs)).0 < f =
            omega (arith, Takes-length (scan_char_unit-past c cs line)) in
          let (r, run, ends) =
            split (scan_char_unit (c ∷ cs)).1
              (λ ch. scan_string-Ends f (scan_char_unit (c ∷ cs)).0 (buf ++ ch ∷ []) fewer q) in
          (r, rw (line, inside) run, ends)
    ]
  ]
    where
      rest : List ℕ
      rest = (scan_char_unit (c ∷ cs)).0

      split :
          (u : Unit?)
          → ((ch : ℕ) → (r : Scanned) × (scan_string f rest (buf ++ ch ∷ []) ≡ some r) × Ends r)
          → (r : Scanned) × (◌≡◌ {A = Option Scanned}
              (elim u [
                | fail e ↦ some (failed rest e)
                | byte ch ↦ scan_string f rest (buf ++ ch ∷ [])
              ])
              (some r))
            × Ends r
      split (fail e) again = (failed rest e, refl, Past-Takes p (scan_char_unit-Takes (c ∷ cs)))
      split (byte ch) again = again ch

  end_string-Scans : (r : Scanned) → Ends r → Scans lx t full (end_string lx t r)
  unfolding end_string
  end_string-Scans (closed cur buf) p = value-Scans lx t full cur p.0 p.1 _ _ refl refl
  end_string-Scans (failed cur e) p = error_at-Scans lx t full cur p.0 p.1 e

  -- The result of a reader that may run out of fuel.
  abbrev pub Reads : Option (Lexer × Token) → Type 0
  Reads o = (r : Lexer × Token) × (o ≡ some r) × Scans lx t full r

  lex_string-Reads : (cur : List ℕ) → Past full cur → Reads (lex_string lx t cur)
  lex_string-Reads cur p =
      let (r, run, ends) = scan_string-Ends (suc (length cur)) cur [] (omega arith) p in
      (end_string lx t r, finished r run, end_string-Scans r ends)
    where
      finished :
          (r : Scanned)
          → scan_string (suc (length cur)) cur [] ≡ some r
          → lex_string lx t cur ≡ some (end_string lx t r)
      finished r run = unfold lex_string in rw (run, lex_string)

-- The first digit is taken.
scan_dec-Past : (c : ℕ) (cs : List ℕ) → is_digit c ≡ true → Past (c ∷ cs) (scan_dec (c ∷ cs)).rest
scan_dec-Past c cs h = (more (is_digit_line c h) rest, omega (arith, Takes-length rest))
  where
    rest : Takes cs (scan_dec (c ∷ cs)).rest
    rest =
        unfold scan_dec in rw h (scan_digits-Takes is_digit (λ d. d - b'0') 10 is_digit_line cs _ _)

skip_ident-Past :
    (c : ℕ) (cs : List ℕ) → is_ident_cont c ≡ true → Past (c ∷ cs) (skip_ident (c ∷ cs))
skip_ident-Past c cs h = (more (is_ident_cont_line c h) rest, omega (arith, Takes-length rest))
  where
    rest : Takes cs (skip_ident (c ∷ cs))
    rest = unfold skip_ident in rw h (skip_ident-Takes cs)

is_ident_start→cont : (c : ℕ) → is_ident_start c ≡ true → is_ident_cont c ≡ true
unfolding is_ident_cont
is_ident_start→cont c h = ground arith

module _ (lx : Lexer) (t : Token) where
  lex_number-Scans :
      (c : ℕ) (cs : List ℕ) → is_digit c ≡ true → Scans lx t (c ∷ cs) (lex_number lx t (c ∷ cs))
  unfolding lex_number
  lex_number-Scans c [] h =
      end_decimal-Scans lx t (c ∷ []) (scan_dec (c ∷ [])) _ (scan_dec-Past c [] h)
  lex_number-Scans c (b ∷ cs) h =
      if_both (Scans lx t (c ∷ b ∷ cs)) ((c == b'0') && (b == b'x'))
        (λ e.
          hex_number-Scans lx t (c ∷ b ∷ cs) cs
            (more (is_digit_line c h) (more (ground arith) done), omega arith))
        (λ e.
          end_decimal-Scans lx t (c ∷ b ∷ cs) (scan_dec (c ∷ b ∷ cs)) _
            (scan_dec-Past c (b ∷ cs) h))

  lex_ident-Scans :
      (c : ℕ) (cs : List ℕ)
      → is_ident_start c ≡ true
      → Scans lx t (c ∷ cs) (lex_ident lx t (c ∷ cs))
  unfolding lex_ident
  lex_ident-Scans c cs h =
      split (find_keyword keywords (take (length t.text - length (skip_ident (c ∷ cs))) t.text))
        refl
    where
      p : Past (c ∷ cs) (skip_ident (c ∷ cs))
      p = skip_ident-Past c cs (is_ident_start→cont c h)

      r : Lexer
      r = record lx { cur = skip_ident (c ∷ cs) }

      split :
          (o : Option TokenKind)
          → find_keyword keywords (take (length t.text - length (skip_ident (c ∷ cs))) t.text) ≡ o
          → Scans lx t
              (c ∷ cs)
              (r, elim o [ some kind ↦ finish r t kind | none ↦ finish r t TokenKind.ident ])
      split none e = finish-Scans lx t (c ∷ cs) _ p.0 p.1 _ refl refl
      split (some kind) e =
          let k = find_keyword_lem keywords _ keywords_rows e in
          finish-Scans lx t (c ∷ cs) _ p.0 p.1 kind k.0 k.1

  lex_unexpected-Scans :
      (c : ℕ) (cs : List ℕ) → (c == 10) ≡ false → Scans lx t (c ∷ cs) (lex_unexpected lx t c cs)
  unfolding lex_unexpected
  lex_unexpected-Scans c cs h =
      let p : Past (c ∷ cs) cs = (more h done, omega arith) in
      if_both (Scans lx t (c ∷ cs)) (leb 0x20 c && ltb c 0x7f)
        (λ e. error_at-Scans lx t (c ∷ cs) cs p.0 p.1 _)
        (λ e. error_at-Scans lx t (c ∷ cs) cs p.0 p.1 _)

  punct-Past :
      (q : List ℕ × TokenKind) (full : List ℕ)
      → is_row q ≡ true
      → starts q.0 full ≡ true
      → Past full (drop (length q.0) full)
  unfolding is_row
  punct-Past q full row h =
      let whole = starts-append q.0 full h in
      let d = drop (length q.0) full in
      (
        subst (λ (x : List ℕ). Takes x d) (sym whole) (Takes-append q.0 d (ground arith)),
        omega (arith, ap length whole, length-append q.0 d, row_length),
      )
    where
      row_length : 0 < length q.0
      row_length = ground arith

  lex_punct-Scans :
      (c : ℕ) (cs : List ℕ) → (c == 10) ≡ false → Scans lx t (c ∷ cs) (lex_punct lx t c cs)
  unfolding lex_punct is_row
  lex_punct-Scans c cs h = split (find_punct puncts (c ∷ cs)) refl
    where
      split :
          (o : Option (List ℕ × TokenKind))
          → find_punct puncts (c ∷ cs) ≡ o
          → Scans lx t (c ∷ cs) (elim o [
            | some p ↦ (
              record lx { cur = drop (length p.0) (c ∷ cs) },
              finish (record lx { cur = drop (length p.0) (c ∷ cs) }) t p.1,
            )
            | none ↦ lex_unexpected lx t c cs
          ])
      split none e = lex_unexpected-Scans c cs h
      split (some q) e =
          let (row, found) = find_punct_lem puncts (c ∷ cs) puncts_rows e in
          let p = punct-Past q (c ∷ cs) row found in
          finish-Scans lx t (c ∷ cs) _ p.0 p.1 q.1 (ground arith) (ground arith)

  -- The dispatch reads a token from any byte that is no newline, and always returns.
  pub lex_token-Reads :
      (c : ℕ) (cs : List ℕ) → (c == 10) ≡ false → Reads lx t (c ∷ cs) (lex_token lx t c cs)
  unfolding lex_token
  lex_token-Reads c cs h =
      let P = Reads lx t (c ∷ cs) in
      let p : Past (c ∷ cs) cs = (more h done, omega arith) in
      if_both P (is_ident_start c) (λ e. (lex_ident lx t (c ∷ cs), refl, lex_ident-Scans c cs e))
        λ _.
          if_both P (is_digit c) (λ e. (lex_number lx t (c ∷ cs), refl, lex_number-Scans c cs e))
            λ _.
              if_both P (c == 39) (λ e. (lex_char lx t cs, refl, lex_char-Scans lx t (c ∷ cs) cs p))
                λ _.
                  if_both P (c == 34) (λ e. lex_string-Reads lx t (c ∷ cs) cs p)
                    λ _. (lex_punct lx t c cs, refl, lex_punct-Scans c cs h)
