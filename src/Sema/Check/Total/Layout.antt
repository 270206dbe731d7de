-- ===== src/Sema/Check/Total/Layout.antt =====
-- The resolution of types and the layout (src/sema/sema.c) return: each nested layout starts one
-- more struct.
use slop.Base.{
  inl, ℕ, zero, suc, ◌+◌, ◌<◌, ◌≤◌, ◌≡◌, refl, List, [], ◌∷◌, Bool, true, false, ◌&&◌, not, arith,
  ltb, ◌==◌, length, get_elem?, set, Option, none, some, if_both, ◌/◌,
}
use slop.Ast.{Syntax, Item, Field}
use slop.Support.Diag.{SrcPos}
use slop.Sema.Types.{
  Ty, TyRef, FieldSym, LayoutState, blank, deref, find_field, ty_from_token, ty_is_sized,
}
use slop.Sema.Types.Kind.{TyKind, is_kind}
use slop.Sema.Check.State.{Sema, Check, ◌>>=◌, pure, skip, follow, gets, error, set_ty}
use slop.Sema.Check.Layout.{
  Layout, is_struct, lay_out, max_size, resolve_array, resolve_over, Placed, field_type,
  check_duplicate, place_fields, nothing_placed, laid_out, with_state, fields_of, decl_of,
  lay_fields, layout_over, layout_on, layout_struct, resolve_type, resolve_laid, place,
}
use slop.Sema.Check.Layout.Spread.{
  IsAlign, Arranged, Arranged-nil, check_duplicate-reports, Arranged-cons,
}
use slop.Sema.Check.Ready.{is_unstarted, work, Sound, Good, Runs, Any}
use slop.Sema.Check.Rules.{
  Runs-Any, Runs-pure, Runs-bind, Runs-bind-run, Runs-gets, Runs-if, Runs-option, Runs-error,
  Runs-Never, note-Runs, skip-Runs, poison-Runs, fails-Runs, Runs-put, Runs-map,
}
use slop.Sema.Check.Total.Types.{
  ptr_to-Runs, array_of-Runs, set_ty-Moves, set_ty-Runs, work-set_started,
}
use slop.Sema.Check.Total.Names.{find_type-Runs}

-- A layout that returns for every struct where less than `n` structs wait.
abbrev pub Lays : ℕ → Layout → Type 0
Lays n lay =
    (r : TyRef) (s : Sema)
    → Good s
    → is_struct (deref s.types r) ≡ true
    → work s.types.heap < n
    → Runs Any Any s (lay r s)

unwaiting : (b : Bool) → (b && false) ≡ false
unwaiting true = refl
unwaiting false = refl

module _ (n : ℕ) (lay : Layout) (h : Lays n lay) where
  pub lay_out-Runs :
      (r : TyRef) {s : Sema} → Good s → work s.types.heap < n → Runs Any Any s (lay_out lay r s)
  unfolding lay_out
  lay_out-Runs r {s} g w =
      Runs-gets _ _
        (Runs-if (is_struct (deref s.types r)) (lay r) skip (λ e. h r s g e w) (λ e. skip-Runs g))

  resolve_array-Runs :
      (pos : SrcPos) (elem : TyRef) (len : ℕ) {s : Sema}
      → Good s
      → work s.types.heap < n
      → Runs Any Any s (resolve_array lay pos elem len s)
  unfolding resolve_array
  resolve_array-Runs pos elem len g w = Runs-bind Any Any _ _ (lay_out-Runs elem g w) (λ q c m _ _.
      let d : Ty = deref q.types elem in
      Runs-gets _ _ (
        Runs-if (len == 0) _ _ (λ e. Runs-Never (fails-Runs pos m.good))
          (λ e.
            Runs-if (not (ty_is_sized d)) _ _ (λ e. Runs-Never (fails-Runs pos m.good))
              (λ e.
                Runs-if (not (d.size == 0) && ltb (max_size / d.size) len) _ _
                  (λ e. Runs-Never (fails-Runs pos m.good))
                  (λ e. Runs-Any (λ a _. tt) (array_of-Runs elem len m.good))))))

  pub resolve_over-Runs :
      (t : Syntax) {s : Sema}
      → Good s
      → work s.types.heap < n
      → Runs Any Any s (resolve_over lay t s)
  unfolding resolve_over
  resolve_over-Runs Syntax.missing g w = poison-Runs g
  resolve_over-Runs (Syntax.core_type pos k) {s} g w =
      Runs-gets _ _
        (Runs-option (ty_from_token s.types k) _ _ (λ e. poison-Runs g) (λ r e. Runs-pure g tt tt))
  resolve_over-Runs (Syntax.named_type pos name) g w =
      Runs-bind Any Any _ _ (find_type-Runs name g) (λ q o m _ _.
        Runs-option o _ _ (λ e. Runs-Never (fails-Runs pos m.good))
          (λ r e. Runs-pure m.good tt (λ _. tt)))
  resolve_over-Runs (Syntax.pointer_type pos t) g w =
      Runs-bind Any Any _ _ (resolve_over-Runs t g w)
        (λ q r m _ _. Runs-Any (λ a _. tt) (ptr_to-Runs r m.good))
  resolve_over-Runs (Syntax.array_type pos t len) g w =
      Runs-bind Any Any _ _ (resolve_over-Runs t g w) (λ q r m _ _.
        Runs-Any (λ a _. tt) (resolve_array-Runs pos r len m.good (omega (arith, m.work, w))))

  field_type-Runs :
      (f : Field) {s : Sema} → Good s → work s.types.heap < n → Runs Any Any s (field_type lay f s)
  unfolding field_type
  field_type-Runs f g w = Runs-bind Any Any _ _ (resolve_over-Runs f.type g w) (λ q r m _ _.
      Runs-bind Any Any _ _ (lay_out-Runs r m.good (omega (arith, m.work, w))) (λ q1 u m1 _ _.
        Runs-gets _ _ (
          Runs-if (not (ty_is_sized (deref q1.types r))) _ _
            (λ e. Runs-Never (fails-Runs f.pos m1.good)) (λ e. Runs-pure m1.good tt (λ _ _. tt)))))

  check_duplicate-Runs :
      (placed : List FieldSym) (f : Field) {s : Sema}
      → Good s
      → Runs Any Any s (check_duplicate placed f s)
  unfolding check_duplicate
  check_duplicate-Runs placed f g =
      Runs-option (find_field placed f.name) _ _ (λ e. skip-Runs g)
        (λ old e. Runs-error f.pos _ g (λ q m up. note-Runs old.pos m.good))

  pub place_fields-Runs :
      (fs : List Field) (p : Placed) {s : Sema}
      → Good s
      → work s.types.heap < n
      → Runs (Arranged lay fs s p) Any s (place_fields lay fs p s)
  unfolding place_fields
  place_fields-Runs [] p g w = Runs-pure g (Arranged-nil lay _ p) tt
  place_fields-Runs (f ∷ fs) p {s} g w =
      Runs-bind-run Any Any _ _ (field_type-Runs f g w) (λ q r run m _ _.
        Runs-bind-run Any Any _ _ (check_duplicate-Runs p.fields f m.good) (λ q1 u dup m1 _ _.
          let t : Ty = deref q1.types r in
          Runs-gets _ _ (
            Runs-map
              (Arranged-cons lay f fs r s q q1 p run
                (check_duplicate-reports p.fields f q (q1, u) dup) (m1.good.types.sound r).align)
              (λ a _ _ _ _. tt)
              (place_fields-Runs fs (place p f r t) m1.good (omega (arith, m.work, m1.work, w))))))

-- Another state of the layout, or the layout itself, keeps a record sound.
with_state-Sound : (k : ℕ) (l : LayoutState) (t : Ty) → Sound k t → Sound k (with_state l t)
with_state-Sound k l t h = record { align = h.align; elem = h.elem; decl = h.decl }

laid_out-Sound :
    (k : ℕ) (p : Placed) (t : Ty) → IsAlign p.align → Sound k t → Sound k (laid_out p t)
laid_out-Sound k p t a h = record { align = a; elem = h.elem; decl = h.decl }

module _ {A : Type 0} {V W : A → Type 0} {s : Sema} where
  -- The item of a struct is there.
  Runs-decl_of :
      (t : Ty) (f : Option Item → Check A)
      → Sound (length s.items) t
      → ((o : Option Item) → Runs V W s (f o s))
      → Runs V W s ((decl_of t >>= f) s)
  unfolding decl_of ◌>>=◌
  Runs-decl_of t f h k = by_decl t.decl h.decl
    where
      in_range : (xs : List (Option Item)) (i : ℕ) → i < length xs → get_elem? xs i ≡ none → ⊥
      in_range [] i h e = elim h [ ]
      in_range (x ∷ xs) zero h e = cc
      in_range (x ∷ xs) (suc i) h e = in_range xs i (omega arith) e

      found :
          (i : ℕ) (o : Option (Option Item))
          → get_elem? s.items i ≡ o
          → i < length s.items
          → Runs V W s (((do it ← follow o; pure it) >>= f) s)
      found i none e h = absurd (in_range s.items i h e)
      found i (some it) e h = k it

      by_decl :
          (d : Option ℕ)
          → ((i : ℕ) → d ≡ some i → (i < length s.items) × (is_kind t.kind TyKind.struct ≡ true))
          → Runs V W s (
              ((elim d as (λ (_ : Option ℕ). Check (Option Item)) [
                | none ↦ pure none
                | some i ↦ do items ← gets (λ s. s.items); o ← follow (get_elem? items i); pure o
              ])
                  >>= f)
                s)
      by_decl none h = k none
      by_decl (some i) h = found i (get_elem? s.items i) refl (h i refl).0

lay_fields-Runs :
    (n : ℕ) (lay : Layout) (r : TyRef) {s : Sema}
    → Lays n lay
    → Good s
    → is_unstarted (deref s.types r) ≡ true
    → work s.types.heap < suc n
    → Runs Any Any s (lay_fields lay r (deref s.types r) s)
unfolding lay_fields
lay_fields-Runs n lay r {s} h g u w = Runs-decl_of _ _ (g.types.sound r) (λ o.
    Runs-option o _ _ (λ e. set_ty-Runs r _ g (with_state-Sound _ LayoutState.done) (unwaiting _))
      (λ it e.
        let m =
          set_ty-Moves r (with_state LayoutState.in_progress) g
            (with_state-Sound _ LayoutState.in_progress) (unwaiting _) in
        let less = work_less in
        Runs-put _ _ m (
          Runs-bind (Arranged lay (fields_of it) _ nothing_placed) Any _ _
            (place_fields-Runs n lay h (fields_of it) nothing_placed m.good
              (omega (arith, less, w)))
            (λ q p m1 v _.
              Runs-Any (λ a _ _. tt)
                (set_ty-Runs r _ m1.good (λ t k. laid_out-Sound _ p t (v.align (inl refl)) k)
                  (unwaiting _))))))
  where
    work_less :
        work (set s.types.heap r (with_state LayoutState.in_progress (deref s.types r)))
        < work s.types.heap
    work_less =
        work-set_started s.types.heap r (with_state LayoutState.in_progress (deref s.types r))
          (blank TyKind.poison) refl u (unwaiting (is_struct (deref s.types r)))

layout_over-Runs :
    (n : ℕ) (lay : Layout) (r : TyRef) {s : Sema}
    → Lays n lay
    → Good s
    → is_struct (deref s.types r) ≡ true
    → work s.types.heap < suc n
    → Runs Any Any s (layout_over lay r s)
unfolding layout_over
layout_over-Runs n lay r {s} h g k w = Runs-gets _ _ (by_state (deref s.types r).state refl)
  where
    by_state :
        (l : LayoutState)
        → l ≡ (deref s.types r).state
        → Runs Any Any s (
            (elim l as (λ (_ : LayoutState). Check (Unit {0})) [
              | LayoutState.done ↦ skip
              | LayoutState.in_progress ↦ do
                _ ← error (deref s.types r).pos
                set_ty r (with_state LayoutState.done)
              | LayoutState.unstarted ↦ lay_fields lay r (deref s.types r)
            ])
              s)
    by_state LayoutState.done e = skip-Runs g
    by_state LayoutState.in_progress e =
        Runs-error _ _ g
          (λ q m up. set_ty-Runs r _ m.good (with_state-Sound _ LayoutState.done) (unwaiting _))
    by_state LayoutState.unstarted e = lay_fields-Runs n lay r h g (ground (arith, k, e)) w

layout_on-Lays : (n : ℕ) → Lays n (layout_on n)
unfolding layout_on
layout_on-Lays zero r s g k w = elim w [ ]
layout_on-Lays (suc n) r s g k w = layout_over-Runs n (layout_on n) r (layout_on-Lays n) g k w

work-length : (ts : List Ty) → work ts ≤ length ts
unfolding work
work-length [] = omega arith
work-length (t ∷ ts) =
    if_both (λ (k : ℕ). k + work ts ≤ suc (length ts)) (is_unstarted t)
      (λ e. omega (arith, work-length ts)) (λ e. omega (arith, work-length ts))

-- The fuel of an outer layout is enough, however many structs wait.
pub layout_struct-Lays : (n : ℕ) → Lays n layout_struct
unfolding layout_struct
layout_struct-Lays n r s g k w =
    Runs-gets _ _
      (layout_on-Lays (suc (length s.types.heap)) r s g k (omega (arith, work-length s.types.heap)))

pub resolve_type-Runs : (t : Syntax) {s : Sema} → Good s → Runs Any Any s (resolve_type t s)
unfolding resolve_type
resolve_type-Runs t {s} g =
    let n : ℕ = suc (work s.types.heap) in
    resolve_over-Runs n layout_struct (layout_struct-Lays n) t g (omega arith)

pub lay_out_struct-Runs :
    (r : TyRef) {s : Sema} → Good s → Runs Any Any s (lay_out layout_struct r s)
lay_out_struct-Runs r {s} g =
    let n : ℕ = suc (work s.types.heap) in
    lay_out-Runs n layout_struct (layout_struct-Lays n) r g (omega arith)

pub resolve_laid-Runs : (t : Syntax) {s : Sema} → Good s → Runs Any Any s (resolve_laid t s)
unfolding resolve_laid
resolve_laid-Runs t g = Runs-bind Any Any _ _ (resolve_type-Runs t g) (λ q r m _ _.
    Runs-bind Any Any _ _ (lay_out_struct-Runs r m.good)
      (λ q1 u m1 _ _. Runs-pure m1.good tt (λ _ _. tt)))
