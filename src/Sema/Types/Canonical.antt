-- ===== src/Sema/Types/Canonical.antt =====
-- The constructors of derived types keep the table interned and return the one record of the type
-- they are asked for (src/sema/types.c).
use slop.Base.{
  ℕ, ◌≡◌, refl, sym, ap, ◌∙◌, List, [], ◌∷◌, Bool, true, false, Option-cases, inl, inr, ◌==◌,
  ==_iff, ◌&&◌, and_split, length, none, some, ◌*◌, ◌%◌, ◌^◌, arith, Option, ◌↔◌,
}
use slop.Support.Diag.{SrcPos}
use slop.Support.StrView.{StrView}
use slop.Sema.Types.Kind.{TyKind}
use slop.Sema.Types.{
  Ty, TyRef, TypeTable, blank, deref, ty_ptr, ty_array, ty_struct_new, ty_enum_new, add_derived,
  find_derived, is_ptr_to, is_array_of, ptr_size, ptr_align, same_ref,
}
use slop.Sema.Types.Intern.{
  Unique, IsInterned, Extends, Interns, find_derived-hit, find_derived-miss, Among-new, add-Extends,
  new_made,
}

eq_refl : (n : ℕ) → (n == n) ≡ true
eq_refl n = (==_iff n n).1 refl

Extends-refl : (table : TypeTable) → IsInterned table → Extends table table
Extends-refl table v = record {
  valid = v;
  grows = omega arith;
  kept = λ q i. refl;
  derived = λ q i. i;
}

-- The scan found the record.
found-Interns :
    (test : Ty → Bool) (table : TypeTable) (r : TyRef)
    → IsInterned table
    → Unique test table
    → find_derived test table table.derived ≡ some r
    → Interns test table (table, r)
found-Interns test table r v u f =
    let (i, h) = find_derived-hit test table table.derived r f in
    record { extends = Extends-refl table v; member = i; meets = h; only = λ q j g. u q r j i g h }

-- The scan found nothing and the record was made.
made-Interns :
    (test : Ty → Bool) (table : TypeTable) (t : Ty) (v : IsInterned table)
    → Extends table (add_derived table t).0
    → Unique test (add_derived table t).0
    → test t ≡ true
    → Interns test table (add_derived table t)
made-Interns test table t v x u h =
    let i = Among-new table.derived (length table.heap) in
    let m : test (deref (add_derived table t).0 (length table.heap)) ≡ true =
      ap test (new_made table t v) ∙ h in
    record { extends = x; member = i; meets = m; only = λ q j g. u q (length table.heap) j i g m }

no_clash : {P : Type 0} → false ≡ true → P
no_clash h = cc

abbrev ptr_record : TyRef → Ty
ptr_record elem = record (blank TyKind.ptr) { elem = some elem; size = ptr_size; align = ptr_align }

abbrev array_record : TypeTable → TyRef → ℕ → Ty
array_record table elem len = record (blank TyKind.array) {
  elem = some elem;
  length = len;
  size = (len * (deref table elem).size) % 2 ^ 64 % 2 ^ 32;
  align = (deref table elem).align;
}

ptr-Extends :
    (table : TypeTable) (elem : TyRef)
    → IsInterned table
    → find_derived (is_ptr_to elem) table table.derived ≡ none
    → Extends table (add_derived table (ptr_record elem)).0
ptr-Extends table elem v missed =
    add-Extends table (ptr_record elem) v
      (λ e h q i.
        ap (λ (x : TyRef). is_ptr_to x (deref table q)) (sym ((==_iff elem e).0 h))
        ∙ find_derived-miss (is_ptr_to elem) table table.derived q missed i)
      (λ e n h q i. no_clash h)

-- Asking for a pointer type gives the one derived record that is a pointer to that element, and
-- keeps the table interned, every record as it was and every derived type.
pub ty_ptr-Interns :
    (table : TypeTable) (elem : TyRef)
    → IsInterned table
    → Interns (is_ptr_to elem) table (ty_ptr table elem)
unfolding ty_ptr
ty_ptr-Interns table elem v =
    elim (Option-cases (find_derived (is_ptr_to elem) table table.derived)) [
      | inl missed ↦
          rw (missed, ty_ptr)
            (let x = ptr-Extends table elem v missed in
              made-Interns (is_ptr_to elem) table (ptr_record elem) v x (x.valid.ptrs elem)
                (eq_refl elem))
      | inr (r, f) ↦ rw (f, ty_ptr) (found-Interns (is_ptr_to elem) table r v (v.ptrs elem) f)
    ]

array-Extends :
    (table : TypeTable) (elem : TyRef) (len : ℕ)
    → IsInterned table
    → find_derived (is_array_of elem len) table table.derived ≡ none
    → Extends table (add_derived table (array_record table elem len)).0
array-Extends table elem len v missed =
    add-Extends table (array_record table elem len) v (λ e h q i. no_clash h)
      (λ e n h q i.
        let (a, b) = and_split (elem == e) (len == n) h in
        ap (λ (x : TyRef). is_array_of x n (deref table q)) (sym ((==_iff elem e).0 a))
        ∙ (ap (λ (m : ℕ). is_array_of elem m (deref table q)) (sym ((==_iff len n).0 b))
            ∙ find_derived-miss (is_array_of elem len) table table.derived q missed i))

-- Asking for an array type gives the one derived record that is an array of that element and
-- length, and keeps the table interned, every record as it was and every derived type.
pub ty_array-Interns :
    (table : TypeTable) (elem : TyRef) (len : ℕ)
    → IsInterned table
    → Interns (is_array_of elem len) table (ty_array table elem len)
unfolding ty_array
ty_array-Interns table elem len v =
    elim (Option-cases (find_derived (is_array_of elem len) table table.derived)) [
      | inl missed ↦
          rw (missed, ty_array)
            (let x = array-Extends table elem len v missed in
              made-Interns (is_array_of elem len) table (array_record table elem len) v x
                (x.valid.arrays elem len) (both elem len))
      | inr (r, f) ↦
          rw (f, ty_array) (found-Interns (is_array_of elem len) table r v (v.arrays elem len) f)
    ]
  where
    both : (a b : ℕ) → ((a == a) && (b == b)) ≡ true
    both a b = rw (eq_refl a, eq_refl b) refl

-- The calls that make derived types.
pub data Call : Type 0 where
  pointer : TyRef → Call
  array : TyRef → ℕ → Call
  struct : StrView → SrcPos → Call
  enum : StrView → TyRef → SrcPos → Call

pub run : List Call → TypeTable → TypeTable
run [] table = table
run (pointer elem ∷ cs) table = run cs (ty_ptr table elem).0
run (array elem len ∷ cs) table = run cs (ty_array table elem len).0
run (struct name pos ∷ cs) table = run cs (ty_struct_new table name pos).0
run (enum name base pos ∷ cs) table = run cs (ty_enum_new table name base pos).0

struct-Extends :
    (table : TypeTable) (name : StrView) (pos : SrcPos)
    → IsInterned table
    → Extends table (ty_struct_new table name pos).0
unfolding ty_struct_new
struct-Extends table name pos v =
    add-Extends table _ v (λ e h q i. no_clash h) (λ e n h q i. no_clash h)

enum-Extends :
    (table : TypeTable) (name : StrView) (base : TyRef) (pos : SrcPos)
    → IsInterned table
    → Extends table (ty_enum_new table name base pos).0
unfolding ty_enum_new
enum-Extends table name base pos v =
    add-Extends table _ v (λ e h q i. no_clash h) (λ e n h q i. no_clash h)

Extends-trans : (a b c : TypeTable) → Extends a b → Extends b c → Extends a c
Extends-trans a b c x y = record {
  valid = y.valid;
  grows = omega (arith, x.grows, y.grows);
  kept = λ r i. y.kept r (omega (arith, x.grows)) ∙ x.kept r i;
  derived = λ r i. y.derived r (x.derived r i);
}

-- Whatever types are made, the table stays interned, and the records and derived types stay.
pub run-Extends :
    (cs : List Call) (table : TypeTable) → IsInterned table → Extends table (run cs table)
unfolding run
run-Extends [] table v = Extends-refl table v
run-Extends (pointer elem ∷ cs) table v =
    let x = (ty_ptr-Interns table elem v).extends in
    Extends-trans table _ _ x (run-Extends cs _ x.valid)
run-Extends (array elem len ∷ cs) table v =
    let x = (ty_array-Interns table elem len v).extends in
    Extends-trans table _ _ x (run-Extends cs _ x.valid)
run-Extends (struct name pos ∷ cs) table v =
    let x = struct-Extends table name pos v in Extends-trans table _ _ x (run-Extends cs _ x.valid)
run-Extends (enum name base pos ∷ cs) table v =
    let x = enum-Extends table name base pos v in
    Extends-trans table _ _ x (run-Extends cs _ x.valid)

same_ref_injective :
    (o : Option TyRef) (a b : TyRef) → same_ref o a ≡ true → same_ref o b ≡ true → a ≡ b
same_ref_injective none a b h g = no_clash h
same_ref_injective (some q) a b h g = sym ((==_iff q a).0 h) ∙ (==_iff q b).0 g

-- What a record passes when it is made it passes after any later calls.
survives :
    (test : Ty → Bool) (t0 : TypeTable) (r1 r2 : TypeTable × TyRef) (cs : List Call)
    → Interns test t0 r1
    → Extends (run cs r1.0) r2.0
    → test (deref r2.0 r1.1) ≡ true
survives test t0 r1 r2 cs x y =
    let m = run-Extends cs r1.0 x.extends.valid in
    let i = x.extends.valid.inside r1.1 x.member in
    ap test (y.kept r1.1 (omega (arith, m.grows, i)) ∙ m.kept r1.1 i) ∙ x.meets

-- A record that was asked for once is what every later request of that test gives.
again :
    (test : Ty → Bool) (t0 : TypeTable) (r1 r2 : TypeTable × TyRef) (cs : List Call)
    → Interns test t0 r1
    → Interns test (run cs r1.0) r2
    → r1.1 ≡ r2.1
again test t0 r1 r2 cs x y =
    let m = run-Extends cs r1.0 x.extends.valid in
    y.only r1.1 (y.extends.derived r1.1 (m.derived r1.1 x.member))
      (survives test t0 r1 r2 cs x y.extends)

-- Over an interned table two pointer types are the same record exactly when their elements are,
-- whatever types were made in between.
pub ty_ptr_iff :
    (table : TypeTable) (a b : TyRef) (cs : List Call)
    → IsInterned table
    → ((ty_ptr table a).1 ≡ (ty_ptr (run cs (ty_ptr table a).0) b).1) ↔ (a ≡ b)
ty_ptr_iff table a b cs v =
    let x = ty_ptr-Interns table a v in
    let y = ty_ptr-Interns (run cs (ty_ptr table a).0) b (run-Extends cs _ x.extends.valid).valid in
    (
      λ e.
          let r2 = ty_ptr (run cs (ty_ptr table a).0) b in
          let h = survives (is_ptr_to a) table (ty_ptr table a) r2 cs x y.extends in
          let g = ap (λ (q : TyRef). is_ptr_to b (deref r2.0 q)) e ∙ y.meets in
          same_ref_injective (deref r2.0 (ty_ptr table a).1).elem a b (and_split _ _ h).1
            (and_split _ _ g).1,
      λ e. rw (← e) (
          again (is_ptr_to a) table (ty_ptr table a) _ cs x (
            ty_ptr-Interns (run cs (ty_ptr table a).0) a (run-Extends cs _ x.extends.valid).valid)),
    )

-- Over an interned table two array types are the same record exactly when their elements and
-- lengths are, whatever types were made in between.
pub ty_array_iff :
    (table : TypeTable) (a b m n : ℕ) (cs : List Call)
    → IsInterned table
    → ((ty_array table a m).1 ≡ (ty_array (run cs (ty_array table a m).0) b n).1)
      ↔ ((a ≡ b) × (m ≡ n))
ty_array_iff table a b m n cs v =
    let x = ty_array-Interns table a m v in
    let w = (run-Extends cs (ty_array table a m).0 x.extends.valid).valid in
    let y = ty_array-Interns (run cs (ty_array table a m).0) b n w in
    (
      λ e.
          let r2 = ty_array (run cs (ty_array table a m).0) b n in
          let d = deref r2.0 (ty_array table a m).1 in
          let h = survives (is_array_of a m) table (ty_array table a m) r2 cs x y.extends in
          let g = ap (λ (q : TyRef). is_array_of b n (deref r2.0 q)) e ∙ y.meets in
          let (h1, h2) = and_split (same_ref d.elem a) (d.length == m) (and_split _ _ h).1 in
          let (g1, g2) = and_split (same_ref d.elem b) (d.length == n) (and_split _ _ g).1 in
          (
            same_ref_injective d.elem a b h1 g1,
            sym ((==_iff d.length m).0 h2) ∙ (==_iff d.length n).0 g2,
          ),
      λ e.
          rw (← e.0, ← e.1)
            (again (is_array_of a m) table (ty_array table a m) _ cs x
              (ty_array-Interns (run cs (ty_array table a m).0) a m w)),
    )
