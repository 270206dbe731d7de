-- ===== src/Sema/Types/Rendered.antt =====
-- The whole name of a type, and what of it stands in the caller's buffer (src/sema/types.c).
use slop.Base.{
  ℕ, zero, suc, ◌+◌, ◌-◌, ◌<◌, ◌≡◌, refl, sym, ap, ◌∙◌, List, [], ◌∷◌, ◌++◌, false, arith, ◌==◌,
  length, set, take, Option, none, some, some_injective, append_assoc,
}
use slop.Lexer.Kind.{codes}
use slop.Sema.Types.{TyRef, TypeTable, deref}
use slop.Sema.Types.Spell.{
  Buffer, Form, pointer, array, named, form, brackets, append, render, ty_str,
}
use slop.Sema.Types.Truncate.{Holds, append-Holds}

-- Every element type was made before the type that has it.
abbrev pub IsLayered : TypeTable → Type 0
IsLayered table = (r q : TyRef) → (deref table r).elem ≡ some q → q < r

-- `out` begins with the text.
abbrev pub Begins : List ℕ → List ℕ → Type 0
Begins s out = (n : ℕ) × (take n out ≡ s)

-- A text and what follows it.
abbrev pub followed : Option (List ℕ) → List ℕ → Option (List ℕ)
followed none t = none
followed (some s) t = some (s ++ t)

module _ (print_length : ℕ → List ℕ) (table : TypeTable) where
  -- The name of a type at full length: the element type's, then `*` or the length in brackets.
  unfoldable pub spelled : ℕ → Option TyRef → Option (List ℕ)
  spelled zero o = none
  spelled (suc fuel) none = some (codes "<none>")
  spelled (suc fuel) (some r) = elim (form (deref table r)) [
    | pointer ↦ followed (spelled fuel (deref table r).elem) (codes "*")
    | array ↦
        followed (spelled fuel (deref table r).elem) (brackets print_length (deref table r).length)
    | named name ↦ some name
  ]

  abbrev pub Done : ℕ → List ℕ → Option Buffer → Type 0
  Done size s o = (b : Buffer) × (o ≡ some b) × Holds size s b

  -- Writing one more piece after what is written.
  more :
      (size : ℕ) (s0 s t : List ℕ) (o : Option Buffer)
      → Done size (s0 ++ s) o
      → Done size (s0 ++ (s ++ t)) (elim o [ none ↦ none | some b ↦ some (append size b t) ])
  more size s0 s t o (b, e, h) =
      rw e (append size b t, refl, rw (← append_assoc s0 s t) (append-Holds size (s0 ++ s) t b h))

  -- The text of a type from its form and its element's text.
  abbrev spelled_form : Form → Option (List ℕ) → ℕ → Option (List ℕ)
  spelled_form pointer o n = followed o (codes "*")
  spelled_form array o n = followed o (brackets print_length n)
  spelled_form (named name) o n = some name

  abbrev render_form : ℕ → Form → Option Buffer → Buffer → ℕ → Option Buffer
  render_form size pointer o b n = elim o [
    | none ↦ none
    | some b' ↦ some (append size b' (codes "*"))
  ]
  render_form size array o b n = elim o [
    | none ↦ none
    | some b' ↦ some (append size b' (brackets print_length n))
  ]
  render_form size (named name) o b n = some (append size b name)

  spelled_step :
      (fuel r : ℕ)
      → spelled (suc fuel) (some r)
        ≡ spelled_form
            (form (deref table r))
            (spelled fuel (deref table r).elem)
            (deref table r).length
  unfolding spelled
  spelled_step fuel r = by_form (form (deref table r))
    where
      by_form :
          (f : Form)
          → (elim f [
            | pointer ↦ followed (spelled fuel (deref table r).elem) (codes "*")
            | array ↦
                followed
                  (spelled fuel (deref table r).elem)
                  (brackets print_length (deref table r).length)
            | named name ↦ some name
          ])
            ≡ spelled_form f (spelled fuel (deref table r).elem) (deref table r).length
      by_form pointer = refl
      by_form array = refl
      by_form (named name) = refl

  render_step :
      (size fuel r : ℕ) (b : Buffer)
      → render print_length table size (suc fuel) (some r) b
        ≡ render_form size
            (form (deref table r))
            (render print_length table size fuel (deref table r).elem b)
            b
            (deref table r).length
  unfolding render
  render_step size fuel r b = by_form (form (deref table r))
    where
      e : Option TyRef
      e = (deref table r).elem

      by_form :
          (f : Form)
          → (elim f [
            | pointer ↦ elim (render print_length table size fuel (deref table r).elem b) [
              | none ↦ none
              | some b' ↦ some (append size b' (codes "*"))
            ]
            | array ↦ elim (render print_length table size fuel (deref table r).elem b) [
              | none ↦ none
              | some b' ↦ some (append size b' (brackets print_length (deref table r).length))
            ]
            | named name ↦ some (append size b name)
          ])
            ≡ render_form size f
                (render print_length table size fuel (deref table r).elem b)
                b
                (deref table r).length
      by_form pointer = refl
      by_form array = refl
      by_form (named name) = refl

  form-Done :
      (size : ℕ) (f : Form) (o : Option (List ℕ)) (q : Option Buffer) (b : Buffer) (n : ℕ)
      (s0 s : List ℕ)
      → Holds size s0 b
      → ((s' : List ℕ) → o ≡ some s' → Done size (s0 ++ s') q)
      → spelled_form f o n ≡ some s
      → Done size (s0 ++ s) (render_form size f q b n)
  form-Done size pointer none q b n s0 s h ih e = cc
  form-Done size pointer (some s') q b n s0 s h ih e =
      rw (← some_injective e) (more size s0 s' (codes "*") q (ih s' refl))
  form-Done size array none q b n s0 s h ih e = cc
  form-Done size array (some s') q b n s0 s h ih e =
      rw (← some_injective e) (more size s0 s' (brackets print_length n) q (ih s' refl))
  form-Done size (named name) o q b n s0 s h ih e =
      rw (← some_injective e) (append size b name, refl, append-Holds size s0 name b h)

  render-Done :
      (size fuel : ℕ) (o : Option TyRef) (b : Buffer) (s0 s : List ℕ)
      → Holds size s0 b
      → spelled fuel o ≡ some s
      → Done size (s0 ++ s) (render print_length table size fuel o b)
  unfolding render spelled
  render-Done size zero o b s0 s h e = cc
  render-Done size (suc fuel) none b s0 s h e =
      rw (← some_injective e) (append size b (codes "<none>"), refl, append-Holds size s0 _ b h)
  render-Done size (suc fuel) (some r) b s0 s h e = rw (render_step size fuel r b) (
      form-Done size (form (deref table r)) (spelled fuel (deref table r).elem) _ b
        (deref table r).length s0 s h
        (λ s' e'. render-Done size fuel (deref table r).elem b s0 s' h e')
        (sym (spelled_step fuel r) ∙ e))

  form_total :
      (f : Form) (o : Option (List ℕ)) (n : ℕ)
      → ((s : List ℕ) × (o ≡ some s))
      → (s : List ℕ) × (spelled_form f o n ≡ some s)
  form_total pointer o n (s, e) = rw e (s ++ codes "*", refl)
  form_total array o n (s, e) = rw e (s ++ brackets print_length n, refl)
  form_total (named name) o n h = (name, refl)

  -- As much fuel as records made up to the type is enough.
  spelled_total :
      (fuel : ℕ) (o : Option TyRef)
      → IsLayered table
      → ((r : TyRef) → o ≡ some r → r + 1 < fuel)
      → 0 < fuel
      → (s : List ℕ) × (spelled fuel o ≡ some s)
  unfolding spelled
  spelled_total zero o l h i = elim i [ ]
  spelled_total (suc fuel) none l h i = (codes "<none>", refl)
  spelled_total (suc fuel) (some r) l h i =
      let bound : r + 1 < suc fuel = h r refl in
      rw (spelled_step fuel r) (
        form_total (form (deref table r)) _ (deref table r).length
          (spelled_total fuel (deref table r).elem l (λ q e. omega (arith, l r q e)) (omega arith)))

  take-none : (n : ℕ) → take {A = ℕ} n [] ≡ []
  take-none zero = refl
  take-none (suc n) = refl

  empty-Holds :
      (size : ℕ) (buf : List ℕ) → 0 < size → length buf ≡ size → Holds size [] (set buf 0 0, 0)
  empty-Holds size [] h e = let no : ⊥ = omega (arith, e) in elim no [ ]
  empty-Holds size (c ∷ buf) h e = record {
    sized = e;
    written = ground arith;
    text = sym (take-none (size - 1));
    ends = ap (λ (l : List ℕ). l ++ (0 ∷ [])) (sym (take-none (size - 1)));
  }

  ty_str_run :
      (size : ℕ) (o : Option TyRef) (buf : List ℕ) (b : Buffer)
      → 0 < size
      → render print_length table size (length table.heap + 1) o (set buf 0 0, 0) ≡ some b
      → ty_str print_length table size o buf ≡ some b.0
  unfolding ty_str
  ty_str_run size o buf b h e = let z : (size == 0) ≡ false = ground arith in rw (z, e) refl

  -- The name of a type, or of NULL, is always written, into a buffer of any size from one byte on,
  -- where element types were made before the types that have them: the buffer keeps its size and
  -- begins with as much of the full name as leaves room for the NUL, and the NUL.
  pub ty_str-truncates :
      (size : ℕ) (o : Option TyRef) (buf : List ℕ)
      → IsLayered table
      → ((r : TyRef) → o ≡ some r → r < length table.heap)
      → 0 < size
      → length buf ≡ size
      → (s out : List ℕ) × (spelled (length table.heap + 1) o ≡ some s)
        × (ty_str print_length table size o buf ≡ some out)
        × (length out ≡ size)
        × Begins (take (size - 1) s ++ (0 ∷ [])) out
  ty_str-truncates size o buf l i h e =
      let fuel = length table.heap + 1 in
      let (s, whole) = spelled_total fuel o l (λ r q. omega (arith, i r q)) (omega arith) in
      let (b, run, g) =
        render-Done size fuel o (set buf 0 0, 0) [] s (empty-Holds size buf h e) whole in
      (s, b.0, whole, ty_str_run size o buf b h run, g.sized, (suc b.1, g.ends))
