-- ===== src/Lexer/Branches.antt =====
-- The readers of literals, identifiers and punctuation (src/lexer/lexer.c), branch by branch.
use slop.Lexer.State.{Lexer, Token, is_digit, is_ident_cont, error_at}
use slop.Lexer.Literal.{
  Unit?, byte, fail, scan_char_unit, close_char, char_body, lex_char, Digits, skip_digits,
  end_integer, end_float, end_decimal,
}
use slop.Lexer.Takes.{
  Takes, done, more, Takes-trans, Takes-length, scan_char_unit-Takes, skip_digits-Takes,
  is_ident_cont_line, is_digit_line,
}
use slop.Lexer.Scans.{Scans, error_at-Scans, value-Scans}
use slop.Base.{ℕ, ◌<◌, ◌≡◌, refl, List, [], ◌∷◌, false, ◌&&◌, ◌==◌, arith, length, if_both}

-- `rest` is behind at least one byte of `full`, all of one line.
abbrev pub Past : List ℕ → List ℕ → Type 0
Past full rest = Takes full rest × (length rest < length full)

pub Past-byte :
    {full rest : List ℕ} (c : ℕ) → (c == 10) ≡ false → Past full (c ∷ rest) → Past full rest
Past-byte c h p = (Takes-trans p.0 (more h done), omega arith)

pub Past-Takes : {full a b : List ℕ} → Past full a → Takes a b → Past full b
Past-Takes p q = (Takes-trans p.0 q, omega (arith, Takes-length q))

module _ (lx : Lexer) (t : Token) (full : List ℕ) where
  close_char-Scans :
      (cur : List ℕ) (ch : ℕ) → Past full cur → Scans lx t full (close_char lx t cur ch)
  unfolding close_char
  close_char-Scans [] ch p = error_at-Scans lx t full [] p.0 p.1 _
  close_char-Scans (c ∷ cs) ch p =
      if_both (Scans lx t full) (c == 39)
        (λ h.
          let q = Past-byte c (ground arith) p in value-Scans lx t full cs q.0 q.1 _ _ refl refl)
        (λ h. error_at-Scans lx t full (c ∷ cs) p.0 p.1 _)

  char_body-Scans : (cur : List ℕ) → Past full cur → Scans lx t full (char_body lx t cur)
  unfolding char_body
  char_body-Scans cur p = split (scan_char_unit cur).1
    where
      q : Past full (scan_char_unit cur).0
      q = Past-Takes p (scan_char_unit-Takes cur)

      split :
          (u : Unit?)
          → Scans lx t full (elim u [
            | fail e ↦ error_at (record lx { cur = (scan_char_unit cur).0 }) t e
            | byte ch ↦ close_char lx t (scan_char_unit cur).0 ch
          ])
      split (fail e) = error_at-Scans lx t full _ q.0 q.1 e
      split (byte ch) = close_char-Scans (scan_char_unit cur).0 ch q

  pub lex_char-Scans : (cur : List ℕ) → Past full cur → Scans lx t full (lex_char lx t cur)
  unfolding lex_char
  lex_char-Scans [] p = char_body-Scans [] p
  lex_char-Scans (c ∷ cs) p =
      if_both (Scans lx t full) (c == 39)
        (λ h. let q = Past-byte c (ground arith) p in error_at-Scans lx t full cs q.0 q.1 _)
        (λ h. char_body-Scans (c ∷ cs) p)

  pub end_integer-Scans :
      (d : Digits) (cur : List ℕ) → Past full cur → Scans lx t full (end_integer lx t d cur)
  unfolding end_integer
  end_integer-Scans d [] p =
      if_both (Scans lx t full) d.overflow (λ h. error_at-Scans lx t full [] p.0 p.1 _)
        (λ h. value-Scans lx t full [] p.0 p.1 _ _ refl refl)
  end_integer-Scans d (c ∷ cs) p =
      if_both (Scans lx t full) (is_ident_cont c)
        (λ h.
          let q = Past-byte c (is_ident_cont_line c h) p in error_at-Scans lx t full cs q.0 q.1 _)
        λ h.
          if_both (Scans lx t full) d.overflow (λ _. error_at-Scans lx t full (c ∷ cs) p.0 p.1 _)
            (λ _. value-Scans lx t full (c ∷ cs) p.0 p.1 _ _ refl refl)

  end_float-Scans : (cur : List ℕ) → Past full cur → Scans lx t full (end_float lx t cur)
  unfolding end_float
  end_float-Scans [] p = value-Scans lx t full [] p.0 p.1 _ _ refl refl
  end_float-Scans (c ∷ cs) p =
      if_both (Scans lx t full) (is_ident_cont c)
        (λ h.
          let q = Past-byte c (is_ident_cont_line c h) p in error_at-Scans lx t full cs q.0 q.1 _)
        (λ h. value-Scans lx t full (c ∷ cs) p.0 p.1 _ _ refl refl)

  pub end_decimal-Scans :
      (d : Digits) (cur : List ℕ) → Past full cur → Scans lx t full (end_decimal lx t d cur)
  unfolding end_decimal
  end_decimal-Scans d [] p = end_integer-Scans d [] p
  end_decimal-Scans d (c ∷ []) p = end_integer-Scans d (c ∷ []) p
  end_decimal-Scans d (c ∷ e ∷ cs) p =
      if_both (Scans lx t full) ((c == b'.') && is_digit e)
        (λ h.
          let q = Past-byte e (is_digit_line e (ground arith)) (Past-byte c (ground arith) p) in
          end_float-Scans (skip_digits cs) (Past-Takes q (skip_digits-Takes cs)))
        (λ h. end_integer-Scans d (c ∷ e ∷ cs) p)
