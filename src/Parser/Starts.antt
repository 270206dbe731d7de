-- ===== src/Parser/Starts.antt =====
-- The tokens that an item starts with, and the steps over tokens that do not (src/parser/parser.c,
-- `sync_item`).
use slop.Base.{
  ◌≡◌, refl, ap, true, false, ◌||◌, inl, inr, if_both, ◌⊎◌, Bool, ◌↔◌, List, [], ◌∷◌, ◌++◌, sym,
}
use mathlib.Core.Path.{subst}
use slop.Lexer.Kind.{TokenKind, kind_eq}
use slop.Parser.State.{Parser, cur, head, pos_of, skip_error_tokens, next_tokens}
use slop.Support.Diag.{Diag, diag_error}
use slop.Lexer.State.{Token}
use slop.Parser.Recover.{starts_item}

-- The tokens that an item starts with.
abbrev pub IsStart : TokenKind → Type 0
IsStart TokenKind.kw_fn = Unit {0}
IsStart TokenKind.kw_struct = Unit {0}
IsStart TokenKind.kw_enum = Unit {0}
IsStart TokenKind.kw_let = Unit {0}
IsStart TokenKind.kw_extern = Unit {0}
IsStart _ = ⊥

abbrev pub NoStarts : List Token → Type 0
NoStarts [] = Unit {0}
NoStarts (t ∷ ts) = (¬ IsStart t.kind) × NoStarts ts

starts_item_iff : (k : TokenKind) → (starts_item k ≡ true) ↔ IsStart k
starts_item_iff TokenKind.kw_fn = (λ _. tt, λ _. refl)
starts_item_iff TokenKind.kw_struct = (λ _. tt, λ _. refl)
starts_item_iff TokenKind.kw_enum = (λ _. tt, λ _. refl)
starts_item_iff TokenKind.kw_let = (λ _. tt, λ _. refl)
starts_item_iff TokenKind.kw_extern = (λ _. tt, λ _. refl)
starts_item_iff _ = (λ h. cc, λ h. elim h [ ])

error_starts : (k : TokenKind) → kind_eq k TokenKind.error ≡ true → ¬ IsStart k
error_starts TokenKind.kw_fn e h = cc
error_starts TokenKind.kw_struct e h = cc
error_starts TokenKind.kw_enum e h = cc
error_starts TokenKind.kw_let e h = cc
error_starts TokenKind.kw_extern e h = cc
error_starts _ e h = h

or_cases : (a b : Bool) → (a || b) ≡ true → (a ≡ true) ⊎ (b ≡ true)
or_cases true b h = inl refl
or_cases false b h = inr h

or_open : (a b : Bool) → (a || b) ≡ false → b ≡ true → ⊥
or_open true b h e = cc
or_open false b h e = cc

-- What stands before the rest of a list starts no item.
abbrev pub Passed : List Token → List Token → Type 0
Passed ts us = (skipped : List Token) × (ts ≡ skipped ++ us) × NoStarts skipped

Passed-more :
    (t : Token) (ts us : List Token) → ¬ IsStart t.kind → Passed ts us → Passed (t ∷ ts) us
Passed-more t ts us h (xs, e, k) = (t ∷ xs, ap (λ (l : List Token). t ∷ l) e, (h, k))

pub Passed-trans : (ts us vs : List Token) → Passed ts us → Passed us vs → Passed ts vs
Passed-trans ts us vs ([], e, k) q = subst (λ l. Passed l vs) (sym e) q
Passed-trans ts us vs (x ∷ xs, e, k) q =
    subst (λ l. Passed l vs) (sym e)
      (Passed-more x (xs ++ us) vs (k.0) (Passed-trans (xs ++ us) us vs (xs, refl, k.1) q))

skip_error_tokens-Passed : (ts : List Token) (d : Diag) → Passed ts (skip_error_tokens ts d).0
unfolding skip_error_tokens
skip_error_tokens-Passed [] d = ([], refl, tt)
skip_error_tokens-Passed (t ∷ []) d = ([], refl, tt)
skip_error_tokens-Passed (t ∷ u ∷ ts) d =
    if_both (λ (r : List Token × Diag). Passed (t ∷ u ∷ ts) r.0) (kind_eq t.kind TokenKind.error)
      (λ e.
        Passed-more t (u ∷ ts) _ (error_starts t.kind e)
          (skip_error_tokens-Passed (u ∷ ts) (diag_error d (pos_of t))))
      (λ _. ([], refl, tt))

pub next_tokens-Passed :
    (ts : List Token) (d : Diag) → ¬ IsStart (head ts).kind → Passed ts (next_tokens ts d).0
unfolding next_tokens
next_tokens-Passed [] d h = ([], refl, tt)
next_tokens-Passed (t ∷ []) d h = ([], refl, tt)
next_tokens-Passed (t ∷ u ∷ ts) d h =
    Passed-more t (u ∷ ts) _ h (skip_error_tokens-Passed (u ∷ ts) d)

-- The exit test of the loop, up and down.
pub exit-IsStart :
    (p : Parser)
    → (kind_eq (cur p) TokenKind.eof || starts_item (cur p)) ≡ true
    → (kind_eq (cur p) TokenKind.eof ≡ true) ⊎ IsStart (cur p)
exit-IsStart p h = elim (or_cases (kind_eq (cur p) TokenKind.eof) (starts_item (cur p)) h) [
  | inl e ↦ inl e
  | inr e ↦ inr ((starts_item_iff (cur p)).0 e)
]

pub stay-IsStart :
    (p : Parser)
    → (kind_eq (cur p) TokenKind.eof || starts_item (cur p)) ≡ false
    → ¬ IsStart (cur p)
stay-IsStart p h x = or_open (kind_eq (cur p) TokenKind.eof) _ h ((starts_item_iff (cur p)).1 x)
