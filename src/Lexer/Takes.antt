-- ===== src/Lexer/Takes.antt =====
-- What a scanner takes of the source: bytes of one line (src/lexer/lexer.c).
use slop.Lexer.Literal.{
  Unit?, scan_hex_escape, scan_escape, scan_char_unit, Digits, scan_digits, scan_hex, scan_dec,
  skip_digits,
}
use slop.Lexer.Next.{skip_ident}
use slop.Lexer.State.{is_digit, is_hex_digit, is_ident_cont, hex_val}
use slop.Base.{
  ℕ, suc, ◌-◌, ◌≤◌, ◌≡◌, refl, List, [], ◌∷◌, Bool, true, false, arith, length, drop, ◌==◌, if_both,
  Bool-cases, inl, inr, ◌||◌, ◌&&◌, not,
}

-- `Takes cs r`: the scan from `cs` stops at `r` and took no newline.
pub data Takes : List ℕ → List ℕ → Type 0 where
  done : {cs : List ℕ} → Takes cs cs
  more : {c : ℕ} {cs r : List ℕ} → (c == 10) ≡ false → Takes cs r → Takes (c ∷ cs) r

pub Takes-trans : {a b c : List ℕ} → Takes a b → Takes b c → Takes a c
Takes-trans done q = q
Takes-trans (more h p) q = more h (Takes-trans p q)

pub Takes-length : {a b : List ℕ} → Takes a b → length b ≤ length a
Takes-length done = omega arith
Takes-length (more h p) = omega (arith, Takes-length p)

-- The bytes taken and the rest make up the text.
pub Takes-drop : {a b : List ℕ} → Takes a b → drop (length a - length b) a ≡ b
Takes-drop {a} done = let e : length a - length a ≡ 0 = omega arith in rw e
Takes-drop {b} (more {cs} h p) =
    let e : suc (length cs) - length b ≡ suc (length cs - length b) =
      omega (arith, Takes-length p) in
    rw e (Takes-drop p)

-- The character classes hold no newline.
pub is_ident_cont_line : (c : ℕ) → is_ident_cont c ≡ true → (c == 10) ≡ false
unfolding is_ident_cont
is_ident_cont_line c h = ground arith

pub is_digit_line : (c : ℕ) → is_digit c ≡ true → (c == 10) ≡ false
unfolding is_digit
is_digit_line c h = ground arith

pub is_hex_digit_line : (c : ℕ) → is_hex_digit c ≡ true → (c == 10) ≡ false
unfolding is_hex_digit
is_hex_digit_line c h = ground arith

pub skip_ident-Takes : (cs : List ℕ) → Takes cs (skip_ident cs)
unfolding skip_ident
skip_ident-Takes [] = done
skip_ident-Takes (c ∷ cs) =
    if_both (Takes (c ∷ cs)) (is_ident_cont c)
      (λ h. more (is_ident_cont_line c h) (skip_ident-Takes cs)) (λ h. done)

pub skip_digits-Takes : (cs : List ℕ) → Takes cs (skip_digits cs)
unfolding skip_digits
skip_digits-Takes [] = done
skip_digits-Takes (c ∷ cs) =
    if_both (Takes (c ∷ cs)) (is_digit c) (λ h. more (is_digit_line c h) (skip_digits-Takes cs))
      (λ h. done)

module _ (test : ℕ → Bool) (digit : ℕ → ℕ) (base : ℕ) where
  pub scan_digits-Takes :
      ((c : ℕ) → test c ≡ true → (c == 10) ≡ false)
      → (cs : List ℕ) (v : ℕ) (overflow : Bool)
      → Takes cs (scan_digits test digit base cs v overflow).rest
  unfolding scan_digits
  scan_digits-Takes line [] v o = done
  scan_digits-Takes line (c ∷ cs) v o =
      if_both (λ (d : Digits). Takes (c ∷ cs) d.rest) (test c)
        (λ h. more (line c h) (scan_digits-Takes line cs _ _)) (λ h. done)

pub scan_hex-Takes : (cs : List ℕ) → Takes cs (scan_hex cs).rest
unfolding scan_hex
scan_hex-Takes cs = scan_digits-Takes is_hex_digit hex_val 16 is_hex_digit_line cs 0 false

pub scan_dec-Takes : (cs : List ℕ) → Takes cs (scan_dec cs).rest
unfolding scan_dec
scan_dec-Takes cs = scan_digits-Takes is_digit (λ c. c - b'0') 10 is_digit_line cs 0 false

abbrev TakesUnit : List ℕ → List ℕ × Unit? → Type 0
TakesUnit cs r = Takes cs r.0

scan_hex_escape-Takes : (cs : List ℕ) → TakesUnit cs (scan_hex_escape cs)
unfolding scan_hex_escape
scan_hex_escape-Takes [] = done
scan_hex_escape-Takes (a ∷ []) = done
scan_hex_escape-Takes (a ∷ b ∷ cs) =
    if_both (TakesUnit (a ∷ b ∷ cs)) (is_hex_digit a && is_hex_digit b)
      (λ h.
        more (is_hex_digit_line a (ground arith)) (more (is_hex_digit_line b (ground arith)) done))
      (λ h. done)

scan_escape-Takes : (e : ℕ) (cs : List ℕ) → TakesUnit cs (scan_escape e cs)
unfolding scan_escape
scan_escape-Takes e cs =
    let P = TakesUnit cs in
    if_both P (e == b'n') (λ h. done)
      λ h.
        if_both P (e == b'r') (λ h. done)
          λ h.
            if_both P (e == b't') (λ h. done)
              λ h.
                if_both P (e == b'0') (λ h. done)
                  λ h.
                    if_both P ((e == 92) || (e == 39) || (e == 34)) (λ h. done)
                      λ h. if_both P (e == b'x') (λ h. scan_hex_escape-Takes cs) λ h. done

-- Before a byte other than a newline a unit takes that byte and more of the line.
pub scan_char_unit-past :
    (c : ℕ) (cs : List ℕ) → (c == 10) ≡ false → TakesUnit cs (scan_char_unit (c ∷ cs))
unfolding scan_char_unit
scan_char_unit-past c [] h = rw h (if_both (TakesUnit []) (c == 92) (λ h. done) (λ h. done))
scan_char_unit-past c (e ∷ cs) h = rw h (
    if_both (TakesUnit (e ∷ cs)) (not (c == 92)) (λ h. done)
      λ h.
        if_both (TakesUnit (e ∷ cs)) (e == 10) (λ h. done)
          λ line. more line (scan_escape-Takes e cs))

scan_char_unit_newline :
    (c : ℕ) (cs : List ℕ) → (c == 10) ≡ true → (scan_char_unit (c ∷ cs)).0 ≡ c ∷ cs
unfolding scan_char_unit
scan_char_unit_newline c [] h = rw h
scan_char_unit_newline c (e ∷ cs) h = rw h

scan_char_unit_end : (scan_char_unit []).0 ≡ []
unfolding scan_char_unit
scan_char_unit_end = refl

-- A unit takes bytes of the line.
pub scan_char_unit-Takes : (cs : List ℕ) → TakesUnit cs (scan_char_unit cs)
scan_char_unit-Takes [] = rw scan_char_unit_end done
scan_char_unit-Takes (c ∷ cs) = elim (Bool-cases (c == 10)) [
  | inl h ↦ rw (scan_char_unit_newline c cs h) done
  | inr h ↦ more h (scan_char_unit-past c cs h)
]
