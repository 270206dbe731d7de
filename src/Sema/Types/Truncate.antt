-- ===== src/Sema/Types/Truncate.antt =====
-- A type's name never overruns its buffer (src/sema/types.c, `append` and `render`).
use slop.Base.{
  ℕ, zero, suc, ◌+◌, ◌-◌, ◌<◌, ◌≤◌, ◌≡◌, refl, sym, ap, ◌∙◌, List, [], ◌∷◌, ◌++◌, ◌||◌, true, false,
  Bool-cases, inl, inr, arith, leb, ltb, ◌==◌, if◌then◌else◌, length, length-set, set, take,
  length-append, take-set-suc, append_assoc, append_nil,
}
use slop.Sema.Types.Spell.{Buffer, memcpy, clamp, append}

take-set_at : (n : ℕ) (xs : List ℕ) (a : ℕ) → take n (set xs n a) ≡ take n xs
take-set_at zero xs a = refl
take-set_at (suc n) [] a = refl
take-set_at (suc n) (x ∷ xs) a = ap (λ (l : List ℕ). x ∷ l) (take-set_at n xs a)

take-memcpy :
    (s buf : List ℕ) (at : ℕ)
    → at + length s ≤ length buf
    → take (at + length s) (memcpy buf at s) ≡ take at buf ++ s
unfolding memcpy
take-memcpy [] buf at h = let e : at + 0 ≡ at = omega arith in rw (e, append_nil (take at buf)) refl
take-memcpy (c ∷ s) buf at h =
    let e : at + suc (length s) ≡ suc at + length s = omega arith in
    ap (λ (n : ℕ). take n (memcpy (set buf at c) (suc at) s)) e
    ∙ (take-memcpy s (set buf at c) (suc at) (omega (arith, length-set buf at c))
        ∙ (ap (λ (l : List ℕ). l ++ s) (take-set-suc at buf c (omega arith))
            ∙ append_assoc (take at buf) (c ∷ []) s))

length-memcpy : (s buf : List ℕ) (at : ℕ) → length (memcpy buf at s) ≡ length buf
unfolding memcpy
length-memcpy [] buf at = refl
length-memcpy (c ∷ s) buf at = length-memcpy s (set buf at c) (suc at) ∙ length-set buf at c

pub length-take : (n : ℕ) (s : List ℕ) → n ≤ length s → length (take n s) ≡ n
length-take zero s h = refl
length-take (suc n) [] h = elim h [ ]
length-take (suc n) (c ∷ s) h = ap suc (length-take n s (omega arith))

take-append_short :
    (n : ℕ) (s t : List ℕ) → length s ≤ n → take n (s ++ t) ≡ s ++ take (n - length s) t
take-append_short n [] t h = ap (λ (m : ℕ). take m t) (omega arith)
take-append_short zero (c ∷ s) t h = elim h [ ]
take-append_short (suc n) (c ∷ s) t h =
    let e : suc n - suc (length s) ≡ n - length s = omega arith in
    ap (λ (l : List ℕ). c ∷ l)
      (take-append_short n s t (omega arith) ∙ ap (λ (m : ℕ). s ++ take m t) (sym e))

take-append_long : (n : ℕ) (s t : List ℕ) → n ≤ length s → take n (s ++ t) ≡ take n s
take-append_long zero s t h = refl
take-append_long (suc n) [] t h = elim h [ ]
take-append_long (suc n) (c ∷ s) t h =
    ap (λ (l : List ℕ). c ∷ l) (take-append_long n s t (omega arith))

pub take_all : (n : ℕ) (s : List ℕ) → length s ≤ n → take n s ≡ s
take_all zero [] h = refl
take_all (suc n) [] h = refl
take_all zero (c ∷ s) h = elim h [ ]
take_all (suc n) (c ∷ s) h = ap (λ (l : List ℕ). c ∷ l) (take_all n s (omega arith))

take-clamp : (m : ℕ) (t : List ℕ) → take (clamp (length t) m) t ≡ take m t
take-clamp m t = elim (Bool-cases (ltb m (length t))) [
  | inl over ↦ rw over refl
  | inr under ↦
      rw under (take_all (length t) t (omega arith) ∙ sym (take_all m t (ground (arith, under))))
]

-- The buffer of `size` bytes holds the text, cut off to leave room for the NUL, and the NUL.
pub record Holds (size : ℕ) (s : List ℕ) (b : Buffer) : Type 0 where
  pub sized : length b.0 ≡ size
  pub written : b.1 ≡ (if leb (length s) (size - 1) then length s else size - 1)
  pub text : take b.1 b.0 ≡ take (size - 1) s
  pub ends : take (suc b.1) b.0 ≡ take (size - 1) s ++ (0 ∷ [])

append_full :
    (size : ℕ) (b : Buffer) (s : List ℕ)
    → ((size == 0) || leb size (b.1 + 1)) ≡ true
    → append size b s ≡ b
unfolding append
append_full size b s e = rw (e, append) refl

-- What is written when there is room.
abbrev poured : ℕ → Buffer → List ℕ → Buffer
poured n b s = (set (memcpy b.0 b.1 (take n s)) (b.1 + n) 0, b.1 + n)

append_part :
    (size : ℕ) (b : Buffer) (s : List ℕ)
    → ((size == 0) || leb size (b.1 + 1)) ≡ false
    → append size b s ≡ poured (clamp (length s) (size - 1 - b.1)) b s
unfolding append
append_part size b s e = rw (e, append) refl

module _ (size : ℕ) (s t : List ℕ) (b : Buffer) (h : Holds size s b) where
  full-Holds : size ≤ b.1 + 1 → Holds size (s ++ t) b
  full-Holds full =
      let long : size - 1 ≤ length s = ground (arith, h.written) in
      let e = take-append_long (size - 1) s t long in
      record {
        sized = h.sized;
        written = ground (arith, h.written, length-append s t);
        text = h.text ∙ sym e;
        ends = h.ends ∙ ap (λ (l : List ℕ). l ++ (0 ∷ [])) (sym e);
      }

  part-Holds :
      (n : ℕ)
      → n ≡ clamp (length t) (size - 1 - b.1)
      → b.1 + 1 < size
      → Holds size (s ++ t) (poured n b t)
  part-Holds n e room =
      let at : b.1 ≡ length s = ground (arith, h.written) in
      let n_le : n ≤ length t = ground (arith, e) in
      let fits : b.1 + n < size = ground (arith, e) in
      let n_len = length-take n t n_le in
      let copied : take (b.1 + n) (memcpy b.0 b.1 (take n t)) ≡ take b.1 b.0 ++ take n t =
        ap (λ (m : ℕ). take (b.1 + m) (memcpy b.0 b.1 (take n t))) (sym n_len)
        ∙ take-memcpy (take n t) b.0 b.1 (omega (arith, n_len, h.sized)) in
      let kept : take b.1 b.0 ≡ s = h.text ∙ take_all (size - 1) s (omega (arith, at)) in
      let rest : take n t ≡ take (size - 1 - length s) t =
        ap (λ (m : ℕ). take m t) (e ∙ ap (λ (m : ℕ). clamp (length t) (size - 1 - m)) at)
        ∙ take-clamp (size - 1 - length s) t in
      let all : take b.1 b.0 ++ take n t ≡ take (size - 1) (s ++ t) =
        rw (kept, rest) (sym (take-append_short (size - 1) s t (omega (arith, at)))) in
      record {
        sized = length-set _ (b.1 + n) 0 ∙ (length-memcpy (take n t) b.0 b.1 ∙ h.sized);
        written = ground (arith, e, at, length-append s t);
        text = take-set_at (b.1 + n) (memcpy b.0 b.1 (take n t)) 0 ∙ (copied ∙ all);
        ends =
            take-set-suc (b.1 + n) (memcpy b.0 b.1 (take n t)) 0
              (omega (arith, length-memcpy (take n t) b.0 b.1, h.sized))
            ∙ ap (λ (l : List ℕ). l ++ (0 ∷ [])) (copied ∙ all);
      }

  pub append-Holds : Holds size (s ++ t) (append size b t)
  append-Holds = elim (Bool-cases ((size == 0) || leb size (b.1 + 1))) [
    | inl e ↦ rw (append_full size b t e) (full-Holds (ground (arith, e)))
    | inr e ↦ rw (append_part size b t e) (part-Holds _ refl (ground (arith, e)))
  ]
