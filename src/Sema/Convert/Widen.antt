-- ===== src/Sema/Convert/Widen.antt =====
-- An implicit conversion between integer types keeps every value (src/sema/sema.c, `assignable`).
use native.Mathlib.Nat.{pow-le-pow_right}
use slop.Base.{
  ℕ, ◌-◌, ◌*◌, ◌^◌, ◌<◌, ◌≤◌, ◌≡◌, refl, sym, ap, ◌∙◌, ◌↔◌, ◌⊎◌, inl, inr, arith, Bool, true, false,
  ◌&&◌, if_split, and_split, ltb, ltb→lt, ◌==◌, ==_iff, if◌then◌else◌,
}
use slop.Sema.Types.Kind.{TyKind, ty_is_integer, ty_is_signed, is_kind}
use slop.Sema.Types.{Ty, TyRef, TypeTable, deref, fits, ty_int_fits}
use slop.Sema.Convert.{same_bool, assignable, assignable_front, assignable_kind, assignable_real}

-- The bytes of an integer type.
abbrev pub int_size : TyKind → ℕ
int_size TyKind.i8 = 1
int_size TyKind.u8 = 1
int_size TyKind.i32 = 4
int_size TyKind.u32 = 4
int_size _ = 8

-- The integer types of the table have their sizes.
abbrev pub IsLaidOut : TypeTable → Type 0
IsLaidOut table =
    (r : TyRef)
    → ty_is_integer (deref table r).kind ≡ true
    → (deref table r).size ≡ int_size (deref table r).kind

abbrev bits : TyKind → ℕ
bits k = 8 * int_size k - (if ty_is_signed k then 1 else 0)

fits_range :
    (k : TyKind) (v : ℕ)
    → ty_is_integer k ≡ true
    → v < 2 ^ 64
    → (fits k v ≡ true) ↔ (v < 2 ^ bits k)
fits_range TyKind.i8 v h small = ground arith
fits_range TyKind.u8 v h small = ground arith
fits_range TyKind.i32 v h small = ground arith
fits_range TyKind.u32 v h small = ground arith
fits_range TyKind.i64 v h small = ground arith
fits_range TyKind.u64 v h small = ground arith
fits_range _ v h small = cc

-- Integer types take the last part of each definition.
int_fits-fits :
    (table : TypeTable) (t : Ty) (v : ℕ)
    → ty_is_integer t.kind ≡ true
    → ty_int_fits table t v ≡ fits t.kind v
unfolding ty_int_fits
int_fits-fits table t v h = by_kind t.kind refl h
  where
    by_kind :
        (k : TyKind) → t.kind ≡ k → ty_is_integer k ≡ true → ty_int_fits table t v ≡ fits t.kind v
    by_kind TyKind.i8 e h = rw e refl
    by_kind TyKind.u8 e h = rw e refl
    by_kind TyKind.i32 e h = rw e refl
    by_kind TyKind.u32 e h = rw e refl
    by_kind TyKind.i64 e h = rw e refl
    by_kind TyKind.u64 e h = rw e refl
    by_kind _ e h = cc

kind-real : (f t : Ty) → ty_is_integer f.kind ≡ true → assignable_kind f t ≡ assignable_real f t
unfolding assignable_kind
kind-real f t h = by_kind f.kind refl h
  where
    by_kind :
        (k : TyKind)
        → f.kind ≡ k
        → ty_is_integer k ≡ true
        → assignable_kind f t ≡ assignable_real f t
    by_kind TyKind.i8 e h = rw e refl
    by_kind TyKind.u8 e h = rw e refl
    by_kind TyKind.i32 e h = rw e refl
    by_kind TyKind.u32 e h = rw e refl
    by_kind TyKind.i64 e h = rw e refl
    by_kind TyKind.u64 e h = rw e refl
    by_kind _ e h = cc

front-kind :
    (table : TypeTable) (f t : TyRef)
    → ty_is_integer (deref table f).kind ≡ true
    → assignable table f t
      ≡ assignable_front table f t (assignable_kind (deref table f) (deref table t))
unfolding assignable
front-kind table f t h = by_kind (deref table f).kind refl h
  where
    by_kind :
        (k : TyKind)
        → (deref table f).kind ≡ k
        → ty_is_integer k ≡ true
        → assignable table f t
          ≡ assignable_front table f t (assignable_kind (deref table f) (deref table t))
    by_kind TyKind.i8 e h = rw e refl
    by_kind TyKind.u8 e h = rw e refl
    by_kind TyKind.i32 e h = rw e refl
    by_kind TyKind.u32 e h = rw e refl
    by_kind TyKind.i64 e h = rw e refl
    by_kind TyKind.u64 e h = rw e refl
    by_kind _ e h = cc

assignable-int :
    (table : TypeTable) (f t : TyRef)
    → ty_is_integer (deref table f).kind ≡ true
    → assignable table f t
      ≡ assignable_front table f t (assignable_real (deref table f) (deref table t))
assignable-int table f t h =
    front-kind table f t h
    ∙ ap (assignable_front table f t) (kind-real (deref table f) (deref table t) h)

not_poison : (k : TyKind) → ty_is_integer k ≡ true → is_kind k TyKind.poison ≡ false
not_poison TyKind.poison h = cc
not_poison _ h = refl

same_bool-eq : (a b : Bool) → same_bool a b ≡ true → a ≡ b
same_bool-eq true b h = sym h
same_bool-eq false true h = cc
same_bool-eq false false h = refl

real-int :
    (f t : Ty)
    → ty_is_integer f.kind ≡ true
    → ty_is_integer t.kind ≡ true
    → assignable_real f t
      ≡ (same_bool (ty_is_signed f.kind) (ty_is_signed t.kind) && ltb f.size t.size)
unfolding assignable_real
real-int f t h g = rw (h, g) refl

-- The integer type `t` takes every value of the integer type `f`: the sign is the same and the
-- size no smaller.
abbrev pub Widens : Ty → Ty → Type 0
Widens f t = (ty_is_signed f.kind ≡ ty_is_signed t.kind) × (f.size ≤ t.size)

front_run :
    (table : TypeTable) (f t : TyRef) (rest : Bool)
    → ty_is_integer (deref table f).kind ≡ true
    → ty_is_integer (deref table t).kind ≡ true
    → assignable_front table f t rest ≡ (if f == t then true else rest)
unfolding assignable_front
front_run table f t rest hf ht =
    rw (not_poison (deref table f).kind hf, not_poison (deref table t).kind ht) refl

front_cases :
    (table : TypeTable) (f t : TyRef) (rest : Bool)
    → ty_is_integer (deref table f).kind ≡ true
    → ty_is_integer (deref table t).kind ≡ true
    → assignable_front table f t rest ≡ true
    → (f ≡ t) ⊎ (rest ≡ true)
front_cases table f t rest hf ht e =
    elim (if_split (f == t) (sym (front_run table f t rest hf ht) ∙ e)) [
      | inl (same, _) ↦ inl ((==_iff f t).0 same)
      | inr (_, e2) ↦ inr e2
    ]

assignable-Widens :
    (table : TypeTable) (f t : TyRef)
    → ty_is_integer (deref table f).kind ≡ true
    → ty_is_integer (deref table t).kind ≡ true
    → assignable table f t ≡ true
    → Widens (deref table f) (deref table t)
assignable-Widens table f t hf ht h =
    elim (front_cases table f t _ hf ht (sym (assignable-int table f t hf) ∙ h)) [
      | inl same ↦ (
        ap (λ (x : TyRef). ty_is_signed (deref table x).kind) same,
        omega (arith, ap (λ (x : TyRef). (deref table x).size) same),
      )
      | inr e ↦
          let (a, b) = and_split _ _ (sym (real-int (deref table f) (deref table t) hf ht) ∙ e) in
          (same_bool-eq _ _ a, omega (arith, ltb→lt _ _ b))
    ]

-- Where an integer type converts implicitly to another one, both of the sizes that integer types
-- have, the sign is kept, the size does not shrink, and every 64-bit value that fits the first
-- fits the second.
pub assignable-fits :
    (table : TypeTable) (f t : TyRef) (v : ℕ)
    → IsLaidOut table
    → ty_is_integer (deref table f).kind ≡ true
    → ty_is_integer (deref table t).kind ≡ true
    → v < 2 ^ 64
    → assignable table f t ≡ true
    → Widens (deref table f) (deref table t)
      × (ty_int_fits table (deref table f) v ≡ true → ty_int_fits table (deref table t) v ≡ true)
assignable-fits table f t v sized hf ht small h =
    let w = assignable-Widens table f t hf ht h in
    (
      w,
      λ g.
          int_fits-fits table (deref table t) v ht
          ∙ (fits_range (deref table t).kind v ht small).1 (below w g),
    )
  where
    wide :
        Widens (deref table f) (deref table t)
        → bits (deref table f).kind ≤ bits (deref table t).kind
    wide w =
        let e : bits (deref table t).kind
            ≡ 8 * int_size (deref table t).kind
              - (if ty_is_signed (deref table f).kind then 1 else 0) =
          ap (λ (b : Bool). 8 * int_size (deref table t).kind - (if b then 1 else 0)) (sym w.0) in
        omega (arith, e, sized f hf, sized t ht, w.1)

    below :
        Widens (deref table f) (deref table t)
        → ty_int_fits table (deref table f) v ≡ true
        → v < 2 ^ bits (deref table t).kind
    below w g =
        let at_most : v < 2 ^ bits (deref table f).kind =
          (fits_range (deref table f).kind v hf small).0
            (sym (int_fits-fits table (deref table f) v hf) ∙ g) in
        let wider : bits (deref table f).kind ≤ bits (deref table t).kind = wide w in
        omega (arith, at_most, pow-le-pow_right {n = 2} (omega arith) wider)
