-- ===== src/Ir/Strings.antt =====
-- The names of string constants (src/ir/ir.c, `ir_string`).
use slop.Base.{
  ℕ, zero, suc, ◌+◌, ◌%◌, ◌^◌, ◌<◌, ◌≤◌, ◌≡◌, refl, ap, sym, ◌∙◌, List, [], ◌∷◌, ◌++◌, Bool, true,
  false, if◌then◌else◌, arith, length, drop,
}
use mathlib.Core.Path.{subst}
use slop.Lexer.Kind.{codes}
use slop.Ir.Data.{IrGlobal, IrModule}
use slop.Ir.Names.{fmt_name, read_decimal, fmt_name-read_decimal}
use slop.Ir.Module.{ir_string}

-- The names of the string constants, in their order.
unfoldable pub string_names : List IrGlobal → List (List ℕ)
string_names [] = []
string_names (g ∷ gs) = if g.is_private then g.name ∷ string_names gs else string_names gs

-- `.str.0`, `.str.1`, ...
unfoldable pub numbered : ℕ → List (List ℕ)
numbered zero = []
numbered (suc n) = numbered n ++ (fmt_name (codes ".str.") n ∷ [])

-- The string constants have the numbers that were given out, in their order.
pub record IsNumbered (m : IrModule) : Type 0 where
  pub names : string_names m.globals ≡ numbered m.next_string
  pub word : m.next_string < 2 ^ 32

abbrev pub Absent : List ℕ → List (List ℕ) → Type 0
Absent x [] = Unit {0}
Absent x (y ∷ ys) = (y ≡ x → ⊥) × Absent x ys

Absent-append :
    (x : List ℕ) (ys zs : List (List ℕ)) → Absent x ys → Absent x zs → Absent x (ys ++ zs)
Absent-append x [] zs a b = b
Absent-append x (y ∷ ys) zs a b = (a.0, Absent-append x ys zs (a.1) b)

fmt_name-injective :
    (prefix : List ℕ) (m n : ℕ)
    → m < 2 ^ 32
    → n < 2 ^ 32
    → fmt_name prefix m ≡ fmt_name prefix n
    → m ≡ n
fmt_name-injective prefix m n h k e =
    sym (fmt_name-read_decimal prefix m h)
    ∙ (ap (λ (x : List ℕ). read_decimal 0 (drop (length prefix) x)) e
        ∙ fmt_name-read_decimal prefix n k)

numbered-Absent : (n k : ℕ) → n ≤ k → k < 2 ^ 32 → Absent (fmt_name (codes ".str.") k) (numbered n)
unfolding numbered
numbered-Absent zero k h w = tt
numbered-Absent (suc n) k h w =
    Absent-append _ (numbered n) _ (numbered-Absent n k (omega (arith, h)) w) (
      λ e.
          let same = fmt_name-injective (codes ".str.") n k (omega (arith, h, w)) w e in
          absurd (omega (arith, same, h)),
      tt,
    )

string_names-append :
    (gs : List IrGlobal) (g : IrGlobal)
    → g.is_private ≡ true
    → string_names (gs ++ (g ∷ [])) ≡ string_names gs ++ (g.name ∷ [])
unfolding string_names
string_names-append [] g h = rw h refl
string_names-append (x ∷ gs) g h = by_test (string_names-append gs g h) x.is_private
  where
    by_test :
        string_names (gs ++ (g ∷ [])) ≡ string_names gs ++ (g.name ∷ [])
        → (b : Bool)
        → (if b then x.name ∷ string_names (gs ++ (g ∷ [])) else string_names (gs ++ (g ∷ [])))
          ≡ (if b then x.name ∷ string_names gs else string_names gs) ++ (g.name ∷ [])
    by_test rest true = ap (λ xs. x.name ∷ xs) rest
    by_test rest false = rest

-- Where the string constants are numbered in their order and a number is left, one more is numbered
-- too, and its name is none of theirs.
pub ir_string-IsNumbered :
    (m : IrModule) (bytes : List ℕ)
    → IsNumbered m
    → m.next_string + 1 < 2 ^ 32
    → IsNumbered (ir_string m bytes).0 × Absent (ir_string m bytes).1.name (string_names m.globals)
unfolding ir_string numbered
ir_string-IsNumbered m bytes r h =
    let next : suc m.next_string ≡ (m.next_string + 1) % 2 ^ 32 = omega (arith, h) in
    (
      record {
        names =
            string_names-append m.globals _ refl
            ∙ (ap (λ (xs : List (List ℕ)). xs ++ (fmt_name (codes ".str.") m.next_string ∷ []))
                  r.names
                ∙ ap numbered next);
        word = omega (arith, h);
      },
      subst (Absent (fmt_name (codes ".str.") m.next_string)) (sym r.names)
          (numbered-Absent m.next_string m.next_string (omega arith) r.word),
    )
