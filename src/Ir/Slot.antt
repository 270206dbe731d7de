-- ===== src/Ir/Slot.antt =====
-- The instruction that produced a value (src/ir/ir.c, `defining_instr`): the first one of the
-- function that has it as its result.
use slop.Base.{
  ℕ, sym, ◌∙◌, ◌++◌, some_injective, ==_iff, ◌≡◌, ◌↔◌, refl, ap, List, [], ◌∷◌, true, false,
  if◌then◌else◌, Option, none, some, Bool, if_both, ◌==◌,
}
use slop.Ir.Data.{IrValue, IrInstr, IrBlock}
use slop.Ir.Verify.{defines, find_in, find_block}
use slop.Ir.WellFormed.{Defines, First, instrs_of}

defines_iff : (i : IrInstr) (val : ℕ) → (defines i val ≡ true) ↔ Defines i val
defines_iff i val = by_result i.result refl
  where
    by_result :
        (o : Option IrValue)
        → i.result ≡ o
        → (◌≡◌ {A = Bool} (elim o [ none ↦ false | some r ↦ r.id == val ]) true)
          ↔ ((r : IrValue) × (o ≡ some r) × (r.id ≡ val))
    by_result none e = (λ h. cc, λ (r, x, _). cc)
    by_result (some r) e = (
      λ h. (r, refl, (==_iff r.id val).0 h),
      λ (q, x, y). (==_iff r.id val).1 (ap (λ (v : IrValue). v.id) (some_injective x) ∙ y),
    )

-- What a search found satisfies `P`.
abbrev pub Found : (IrInstr → Type 0) → Option IrInstr → Type 0
Found P none = Unit {0}
Found P (some i) = P i

pub first_iff :
    (P : IrInstr → Type 0) (is : List IrInstr) (val : ℕ) → Found P (find_in is val) ↔ First is val P
unfolding find_in
first_iff P [] val = (λ _. tt, λ _. tt)
first_iff P (i ∷ is) val =
    let rest = first_iff P is val in
    if_both (λ (o : Option IrInstr). Found P o ↔ First (i ∷ is) val P) (defines i val)
      (λ e. let d = (defines_iff i val).0 e in (λ p. (λ _. p, λ n. absurd (n d)), λ p. p.0 d))
      (λ e.
        let n : ¬ Defines i val = λ d. cc ((defines_iff i val).1 d, e) in
        (λ p. (λ d. absurd (n d), λ _. rest.0 p), λ p. rest.1 (p.1 n)))

-- The first answer, or the second.
abbrev or_else : Option IrInstr → Option IrInstr → Option IrInstr
or_else o q = elim o [ none ↦ q | some x ↦ some x ]

or_else-if :
    (b : Bool) (x : IrInstr) (o p q : Option IrInstr)
    → p ≡ or_else o q
    → (if b then some x else p) ≡ or_else (if b then some x else o) q
or_else-if true x o p q e = refl
or_else-if false x o p q e = e

find_in-append :
    (is js : List IrInstr) (val : ℕ)
    → find_in (is ++ js) val ≡ or_else (find_in is val) (find_in js val)
unfolding find_in
find_in-append [] js val = refl
find_in-append (i ∷ is) js val =
    or_else-if (defines i val) i (find_in is val) (find_in (is ++ js) val) (find_in js val)
      (find_in-append is js val)

pub find_block-instrs_of :
    (bs : List IrBlock) (val : ℕ) → find_block bs val ≡ find_in (instrs_of bs) val
unfolding find_block find_in
find_block-instrs_of [] val = refl
find_block-instrs_of (b ∷ bs) val =
    ap (or_else (find_in b.instrs val)) (find_block-instrs_of bs val)
    ∙ sym (find_in-append b.instrs (instrs_of bs) val)
