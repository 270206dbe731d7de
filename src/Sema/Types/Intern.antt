-- ===== src/Sema/Types/Intern.antt =====
-- One record for every pointer and array type (src/sema/types.c).
use slop.Base.{
  ℕ, zero, suc, ◌<◌, ◌≡◌, refl, sym, ap, ◌∙◌, List, [], ◌∷◌, ◌++◌, Bool, true, false, inl, inr, ◌⊎◌,
  arith, if_split, some_injective, length, get_or, none, some, ◌≤◌,
}
use slop.Sema.Types.Kind.{TyKind}
use slop.Sema.Types.{
  Ty, TyRef, TypeTable, blank, deref, add_derived, find_derived, is_ptr_to, is_array_of,
}

abbrev pub Among : TyRef → List TyRef → Type 0
Among r [] = ⊥
Among r (q ∷ qs) = (r ≡ q) ⊎ Among r qs

-- At most one derived type passes the test.
abbrev pub Unique : (Ty → Bool) → TypeTable → Type 0
Unique test table =
    (q r : TyRef)
    → Among q table.derived
    → Among r table.derived
    → test (deref table q) ≡ true
    → test (deref table r) ≡ true
    → q ≡ r

-- The derived types are on the heap, and no two are the same pointer or array type.
pub record IsInterned (table : TypeTable) : Type 0 where
  pub inside : (r : TyRef) → Among r table.derived → r < length table.heap
  pub ptrs : (e : TyRef) → Unique (is_ptr_to e) table
  pub arrays : (e : TyRef) (n : ℕ) → Unique (is_array_of e n) table

-- What adding to a table keeps: the records that were there and the derived types.
pub record Extends (table : TypeTable) (r : TypeTable) : Type 0 where
  pub valid : IsInterned r
  pub grows : length table.heap ≤ length r.heap
  pub kept : (q : TyRef) → q < length table.heap → deref r q ≡ deref table q
  pub derived : (q : TyRef) → Among q table.derived → Among q r.derived

-- The record that `r` returns is derived and passes the test, and is the only one that does.
pub record Interns (test : Ty → Bool) (table : TypeTable) (r : TypeTable × TyRef) : Type 0 where
  pub extends : Extends table r.0
  pub member : Among r.1 r.0.derived
  pub meets : test (deref r.0 r.1) ≡ true
  pub only : (q : TyRef) → Among q r.0.derived → test (deref r.0 q) ≡ true → q ≡ r.1

pub Among-new : (rs : List TyRef) (r : TyRef) → Among r (rs ++ (r ∷ []))
Among-new [] r = inl refl
Among-new (q ∷ rs) r = inr (Among-new rs r)

pub Among-old : (rs : List TyRef) (r q : TyRef) → Among q rs → Among q (rs ++ (r ∷ []))
Among-old [] r q i = elim i [ ]
Among-old (p ∷ rs) r q (inl e) = inl e
Among-old (p ∷ rs) r q (inr i) = inr (Among-old rs r q i)

Among-split : (rs : List TyRef) (r q : TyRef) → Among q (rs ++ (r ∷ [])) → Among q rs ⊎ (q ≡ r)
Among-split [] r q (inl e) = inr e
Among-split [] r q (inr i) = elim i [ ]
Among-split (p ∷ rs) r q (inl e) = inl (inl e)
Among-split (p ∷ rs) r q (inr i) = elim (Among-split rs r q i) [
  | inl j ↦ inl (inr j)
  | inr e ↦ inr e
]

heap-old :
    (h : List Ty) (t d : Ty) (q : ℕ) → q < length h → get_or (h ++ (t ∷ [])) q d ≡ get_or h q d
heap-old [] t d q i = elim i [ ]
heap-old (x ∷ h) t d zero i = refl
heap-old (x ∷ h) t d (suc q) i = heap-old h t d q (omega arith)

heap-new : (h : List Ty) (t d : Ty) → get_or (h ++ (t ∷ [])) (length h) d ≡ t
heap-new [] t d = refl
heap-new (x ∷ h) t d = heap-new h t d

length-heap : (h : List Ty) (t : Ty) → length (h ++ (t ∷ [])) ≡ suc (length h)
length-heap [] t = refl
length-heap (x ∷ h) t = ap suc (length-heap h t)

pub find_derived-hit :
    (test : Ty → Bool) (table : TypeTable) (rs : List TyRef) (r : TyRef)
    → find_derived test table rs ≡ some r
    → Among r rs × (test (deref table r) ≡ true)
unfolding find_derived
find_derived-hit test table [] r f = cc
find_derived-hit test table (q ∷ rs) r f = elim (if_split (test (deref table q)) f) [
  | inl (hit, same) ↦ (
    inl (sym (some_injective same)),
    ap (λ (x : TyRef). test (deref table x)) (sym (some_injective same)) ∙ hit,
  )
  | inr (_, f') ↦ let (i, h) = find_derived-hit test table rs r f' in (inr i, h)
]

pub find_derived-miss :
    (test : Ty → Bool) (table : TypeTable) (rs : List TyRef) (q : TyRef)
    → find_derived test table rs ≡ none
    → Among q rs
    → test (deref table q) ≡ false
unfolding find_derived
find_derived-miss test table [] q f i = elim i [ ]
find_derived-miss test table (p ∷ rs) q f i = elim (if_split (test (deref table p)) f) [
  | inl (hit, same) ↦ cc
  | inr (miss, f') ↦ split miss i (find_derived-miss test table rs q f')
]
  where
    split :
        test (deref table p) ≡ false
        → Among q (p ∷ rs)
        → (Among q rs → test (deref table q) ≡ false)
        → test (deref table q) ≡ false
    split miss (inl e) again = ap (λ (x : TyRef). test (deref table x)) e ∙ miss
    split miss (inr i) again = again i

module _ (table : TypeTable) (t : Ty) (v : IsInterned table) where
  pub old_kept :
      (q : TyRef) → q < length table.heap → deref (add_derived table t).0 q ≡ deref table q
  old_kept q i = heap-old table.heap t (blank TyKind.poison) q i

  pub new_made : deref (add_derived table t).0 (length table.heap) ≡ t
  new_made = heap-new table.heap t (blank TyKind.poison)

  -- Where the new record passes no test that an old one passes, uniqueness stays.
  Unique-add :
      (test : Ty → Bool)
      → Unique test table
      → (test t ≡ true → (q : TyRef) → Among q table.derived → test (deref table q) ≡ false)
      → Unique test (add_derived table t).0
  Unique-add test u fresh q r i j a b = elim (Among-split table.derived (length table.heap) q i) [
    | inl i' ↦ elim (Among-split table.derived (length table.heap) r j) [
      | inl j' ↦ u q r i' j' (old q i' a) (old r j' b)
      | inr e ↦ clash q i' (old q i' a) (new r e b)
    ]
    | inr e ↦ elim (Among-split table.derived (length table.heap) r j) [
      | inl j' ↦ clash r j' (old r j' b) (new q e a)
      | inr e' ↦ e ∙ sym e'
    ]
  ]
    where
      old :
          (x : TyRef)
          → Among x table.derived
          → test (deref (add_derived table t).0 x) ≡ true
          → test (deref table x) ≡ true
      old x i' h = sym (ap test (old_kept x (v.inside x i'))) ∙ h

      new :
          (x : TyRef)
          → x ≡ length table.heap
          → test (deref (add_derived table t).0 x) ≡ true
          → test t ≡ true
      new x e h =
          sym (ap (λ (y : TyRef). test (deref (add_derived table t).0 y)) e ∙ ap test new_made) ∙ h

      clash :
          (x : TyRef) → Among x table.derived → test (deref table x) ≡ true → test t ≡ true → q ≡ r
      clash x i' h n = let f = fresh n x i' in cc (f, h)

  pub add-Extends :
      ((e : TyRef)
        → is_ptr_to e t ≡ true
        → (q : TyRef) → Among q table.derived
        → is_ptr_to e (deref table q) ≡ false)
      → ((e : TyRef) (n : ℕ)
          → is_array_of e n t ≡ true
          → (q : TyRef) → Among q table.derived
          → is_array_of e n (deref table q) ≡ false)
      → Extends table (add_derived table t).0
  add-Extends no_ptr no_array = record {
    valid = record {
      inside = λ r i. elim (Among-split table.derived (length table.heap) r i) [
        | inl i' ↦ omega (arith, length-heap table.heap t, v.inside r i')
        | inr e ↦ omega (arith, length-heap table.heap t, e)
      ];
      ptrs = λ e. Unique-add (is_ptr_to e) (v.ptrs e) (no_ptr e);
      arrays = λ e n. Unique-add (is_array_of e n) (v.arrays e n) (no_array e n);
    };
    grows = omega (arith, length-heap table.heap t);
    kept = old_kept;
    derived = λ q i. Among-old table.derived (length table.heap) q i;
  }
