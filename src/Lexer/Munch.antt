-- ===== src/Lexer/Munch.antt =====
-- Maximal munch (src/lexer/lexer.c, `lexer_next`): of all the spellings that the text begins with,
-- the longest is taken.
use slop.Lexer.Kind.{TokenKind, puncts}
use slop.Lexer.Next.{starts, find_punct}
use slop.Lexer.Tokens.{starts-append}
use slop.Base.{
  ℕ, ◌≤◌, ◌≡◌, refl, sym, ◌++◌, drop, List, [], ◌∷◌, Bool, true, false, ◌&&◌, arith, length, leb,
  Option, none, some, some_injective, if_split, and_split, inl, inr, ◌⊎◌, leb→le, ap, Option-cases,
  ◌∙◌,
}

abbrev pub Row : Type 0
Row = List ℕ × TokenKind

-- Row `p` stands in the table.
abbrev pub In : Row → List Row → Type 0
In p [] = ⊥
In p (q ∷ ps) = (p ≡ q) ⊎ In p ps

no_longer : ℕ → List Row → Bool
no_longer n [] = true
no_longer n (p ∷ ps) = leb (length p.0) n && no_longer n ps

-- Spellings never grow along the table.
descending : List Row → Bool
descending [] = true
descending (p ∷ ps) = no_longer (length p.0) ps && descending ps

puncts-descending : descending puncts ≡ true
unfolding descending no_longer puncts
puncts-descending = refl

no_longer-In : (n : ℕ) (ps : List Row) (q : Row) → no_longer n ps ≡ true → In q ps → length q.0 ≤ n
unfolding no_longer
no_longer-In n [] q h i = elim i [ ]
no_longer-In n (p ∷ ps) q h (inl e) =
    let (a, b) = and_split (leb (length p.0) n) _ h in rw e (leb→le _ _ a)
no_longer-In n (p ∷ ps) q h (inr i) = no_longer-In n ps q (and_split (leb (length p.0) n) _ h).1 i

find_punct_split :
    (x : Row) (ps : List Row) (cur : List ℕ) {o : Option Row}
    → find_punct (x ∷ ps) cur ≡ o
    → ((starts x.0 cur ≡ true) × (some x ≡ o))
      ⊎ ((starts x.0 cur ≡ false) × (find_punct ps cur ≡ o))
unfolding find_punct
find_punct_split x ps cur e = if_split (starts x.0 cur) e

find_punct_longest :
    (ps : List Row) (cur : List ℕ) (p q : Row)
    → descending ps ≡ true
    → find_punct ps cur ≡ some p
    → In q ps
    → starts q.0 cur ≡ true
    → (starts p.0 cur ≡ true) × (length q.0 ≤ length p.0)
unfolding descending
find_punct_longest [] cur p q d f i s = elim i [ ]
find_punct_longest (x ∷ ps) cur p q d f i s =
    let (below, rest) = and_split (no_longer (length x.0) ps) (descending ps) d in
    elim (find_punct_split x ps cur f) [
      | inl (hit, same) ↦ let e : x ≡ p = some_injective same in rw (← e) (hit, longest below i)
      | inr (miss, f') ↦ find_punct_longest ps cur p q rest f' (later miss i) s
    ]
  where
    longest : no_longer (length x.0) ps ≡ true → In q (x ∷ ps) → length q.0 ≤ length x.0
    longest below (inl e) = rw e (omega arith)
    longest below (inr j) = no_longer-In (length x.0) ps q below j

    later : starts x.0 cur ≡ false → In q (x ∷ ps) → In q ps
    later miss (inl e) = cc (ap (λ (r : Row). starts r.0 cur) e, miss, s)
    later miss (inr j) = j

find_punct-In : (ps : List Row) (cur : List ℕ) (p : Row) → find_punct ps cur ≡ some p → In p ps
find_punct-In [] cur p f = unfold find_punct in cc
find_punct-In (x ∷ ps) cur p f = elim (find_punct_split x ps cur f) [
  | inl (_, same) ↦ inl (sym (some_injective same))
  | inr (_, rest) ↦ inr (find_punct-In ps cur p rest)
]

find_punct-none :
    (ps : List Row) (cur : List ℕ) (q : Row)
    → find_punct ps cur ≡ none
    → In q ps
    → starts q.0 cur ≡ false
find_punct-none [] cur q f i = elim i [ ]
find_punct-none (x ∷ ps) cur q f i = elim (find_punct_split x ps cur f) [
  | inl (hit, same) ↦ cc
  | inr (miss, f') ↦ split miss f' i (find_punct-none ps cur q f')
]
  where
    split :
        starts x.0 cur ≡ false
        → find_punct ps cur ≡ none
        → In q (x ∷ ps)
        → (In q ps → starts q.0 cur ≡ false)
        → starts q.0 cur ≡ false
    split miss f' (inl e) again = ap (λ (r : Row). starts r.0 cur) e ∙ miss
    split miss f' (inr j) again = again j

-- The text is the spelling and some rest, which may be empty.
abbrev pub Begins : List ℕ → List ℕ → Type 0
Begins s cur = (rest : List ℕ) × (cur ≡ s ++ rest)

starts_own : (s r : List ℕ) → starts s (s ++ r) ≡ true
unfolding starts
starts_own [] r = ground arith
starts_own (c ∷ s) r = ground (arith, starts_own s r)

Begins-starts : (s cur : List ℕ) → Begins s cur → starts s cur ≡ true
Begins-starts s cur b = ap (starts s) (b.1) ∙ starts_own s (b.0)

-- Where the text is the spelling of some row of the punctuation table and a rest, a row is taken,
-- the text is its spelling and a rest, and no row with that property is longer.
pub find_punct-Munch :
    (cur : List ℕ) (q : Row)
    → In q puncts
    → Begins q.0 cur
    → (p : Row) × (find_punct puncts cur ≡ some p)
      × In p puncts
      × Begins p.0 cur
      × ((x : Row) → In x puncts → Begins x.0 cur → length x.0 ≤ length p.0)
find_punct-Munch cur q i s0 =
    let s = Begins-starts q.0 cur s0 in
    elim (Option-cases (find_punct puncts cur)) [
      | inl missed ↦ cc (find_punct-none puncts cur q missed i, s)
      | inr (p, found) ↦
          let (a, _) = find_punct_longest puncts cur p q puncts-descending found i s in
          (
            p,
            found,
            find_punct-In puncts cur p found,
            (drop (length p.0) cur, starts-append p.0 cur a),
            λ x j b.
                (find_punct_longest puncts cur p x puncts-descending found j
                  (Begins-starts x.0 cur b)).1,
          )
    ]
