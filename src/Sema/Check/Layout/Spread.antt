-- ===== src/Sema/Check/Layout/Spread.antt =====
-- The arithmetic of `layout_struct` (src/sema/sema.c): where the fields of a struct lie.
use slop.Base.{
  ℕ, ◌+◌, ◌%◌, ◌^◌, ◌<◌, ◌≤◌, ◌≡◌, refl, sym, ap, ◌∙◌, List, [], ◌∷◌, ◌++◌, ◌⊎◌, inl, inr, arith,
  if_both, ltb, append_assoc, append_nil, Option, none, some, some_injective,
}
use mathlib.Core.Path.{subst}
use slop.Ast.{Field}
use slop.Sema.Types.{Ty, TyRef, FieldSym, deref, find_field}
use slop.Sema.Check.State.{Sema, Check, ◌>>=◌, skip, error, note}
use slop.Sema.Check.Layout.{
  Layout, round_up, Placed, place, nothing_placed, field_type, check_duplicate,
}

-- The alignments that there are.
abbrev pub IsAlign : ℕ → Type 0
IsAlign a = (a ≡ 1) ⊎ ((a ≡ 4) ⊎ (a ≡ 8))

-- A field with its type, and the type's record when the field was placed.
pub record Part : Type 0 where
  pub field : Field
  pub ref : TyRef
  pub ty : Ty

abbrev pub fields_in : List Part → List Field
fields_in [] = []
fields_in (x ∷ xs) = x.field ∷ fields_in xs

-- The fields placed one behind the other.
abbrev pub place_all : Placed → List Part → Placed
place_all p [] = p
place_all p (x ∷ xs) = place_all (place p x.field x.ref x.ty) xs

abbrev pub AllAligned : List Part → Type 0
AllAligned [] = Unit {0}
AllAligned (x ∷ xs) = IsAlign x.ty.align × AllAligned xs

-- As many bytes as the fields can take, gaps and all.
abbrev pub room : List Part → ℕ
room [] = 0
room (x ∷ xs) = x.ty.align + x.ty.size + room xs

-- Every field starts at a multiple of its alignment, no earlier than the one before it ends, and
-- the last one ends by `hi`.
abbrev pub Spread : ℕ → List FieldSym → List Part → ℕ → Type 0
Spread lo [] [] hi = lo ≤ hi
Spread lo (g ∷ gs) (x ∷ xs) hi =
    (lo ≤ g.offset) × ((g.offset % x.ty.align ≡ 0) × Spread (g.offset + x.ty.size) gs xs hi)
Spread lo [] (x ∷ xs) hi = ⊥
Spread lo (g ∷ gs) [] hi = ⊥

-- Every field's alignment divides `align`.
abbrev pub Divides : List Part → ℕ → Type 0
Divides [] align = Unit {0}
Divides (x ∷ xs) align = (align % x.ty.align ≡ 0) × Divides xs align

pub round_up-bounds :
    (n a : ℕ)
    → IsAlign a
    → n + a < 2 ^ 32
    → (n ≤ round_up n a) × ((round_up n a ≤ n + a) × (round_up n a % a ≡ 0))
unfolding round_up
round_up-bounds n a (inl e) h = rw e (omega (arith, h, e), (omega (arith, h, e), omega arith))
round_up-bounds n a (inr (inl e)) h = rw e (omega (arith, h, e), (omega (arith, h, e), omega arith))
round_up-bounds n a (inr (inr e)) h = rw e (omega (arith, h, e), (omega (arith, h, e), omega arith))

pub place-IsAlign :
    (p : Placed) (x : Part)
    → IsAlign p.align
    → IsAlign x.ty.align
    → IsAlign (place p x.field x.ref x.ty).align
unfolding place
place-IsAlign p x a b = if_both IsAlign (ltb p.align x.ty.align) (λ _. b) (λ _. a)

-- A greater alignment is a multiple of a smaller one.
multiple : (a b : ℕ) → IsAlign a → IsAlign b → a ≤ b → b % a ≡ 0
multiple a b (inl e) hb h = rw e (omega arith)
multiple a b (inr (inl e)) (inl f) h = absurd (omega (arith, e, f, h))
multiple a b (inr (inl e)) (inr (inl f)) h = rw (e, f) refl
multiple a b (inr (inl e)) (inr (inr f)) h = rw (e, f) refl
multiple a b (inr (inr e)) (inl f) h = absurd (omega (arith, e, f, h))
multiple a b (inr (inr e)) (inr (inl f)) h = absurd (omega (arith, e, f, h))
multiple a b (inr (inr e)) (inr (inr f)) h = rw (e, f) refl

-- What placing the fields `xs` behind `p` gives.
pub record Places (p : Placed) (xs : List Part) (r : Placed) : Type 0 where
  pub added : List FieldSym
  pub fields : r.fields ≡ p.fields ++ added
  pub spread : Spread p.offset added xs r.offset
  pub end : r.offset ≤ p.offset + room xs
  pub align : IsAlign r.align
  pub greater : p.align ≤ r.align
  pub divides : Divides xs r.align

-- The next offset and the alignment behind one more field.
place-greater :
    (p : Placed) (x : Part)
    → (p.align ≤ (place p x.field x.ref x.ty).align)
      × (x.ty.align ≤ (place p x.field x.ref x.ty).align)
unfolding place
place-greater p x = (ground arith, ground arith)

place-offset :
    (p : Placed) (x : Part)
    → round_up p.offset x.ty.align + x.ty.size < 2 ^ 32
    → (place p x.field x.ref x.ty).offset ≡ round_up p.offset x.ty.align + x.ty.size
unfolding place
place-offset p x h = omega (arith, h)

-- The field that is placed.
abbrev new_field : Placed → Part → FieldSym
new_field p x = record {
  name = (x.field).name;
  type = x.ref;
  offset = round_up p.offset x.ty.align;
  pos = (x.field).pos;
}

place-fields :
    (p : Placed) (x : Part) → (place p x.field x.ref x.ty).fields ≡ p.fields ++ (new_field p x ∷ [])
unfolding place
place-fields p x = refl

pub place_all-Places :
    (xs : List Part) (p : Placed)
    → IsAlign p.align
    → AllAligned xs
    → p.offset + room xs < 2 ^ 32
    → Places p xs (place_all p xs)
place_all-Places [] p a h k = record {
  added = [];
  fields = sym (append_nil p.fields);
  spread = omega arith;
  end = omega arith;
  align = a;
  greater = omega arith;
  divides = tt;
}
place_all-Places (x ∷ xs) p a h k =
    let (low, (high, aligned)) = round_up-bounds p.offset x.ty.align h.0 (omega (arith, k)) in
    let at_end = place-offset p x (omega (arith, high, k)) in
    let up = place-greater p x in
    let more =
      place_all-Places xs (place p x.field x.ref x.ty) (place-IsAlign p x a h.0) h.1
        (omega (arith, at_end, high, k)) in
    record {
      added = new_field p x ∷ more.added;
      fields =
          more.fields
          ∙ ap (λ (l : List FieldSym). l ++ more.added) (place-fields p x)
          ∙ append_assoc p.fields (new_field p x ∷ []) more.added;
      spread = (
        low,
        (
          aligned,
          subst (λ n. Spread n more.added xs (place_all (place p x.field x.ref x.ty) xs).offset)
              at_end more.spread,
        ),
      );
      end = omega (arith, more.end, at_end, high);
      align = more.align;
      greater = omega (arith, up.0, more.greater);
      divides =
          (multiple x.ty.align _ h.0 more.align (omega (arith, up.1, more.greater)), more.divides);
    }

-- A struct of the fields `xs`: its fields, its size and its alignment.
pub record IsLaid (xs : List Part) (r : Placed) : Type 0 where
  pub spread : Spread 0 r.fields xs (round_up r.offset r.align)
  pub whole : round_up r.offset r.align % r.align ≡ 0
  pub divides : Divides xs r.align

-- A later end will do.
Spread-later :
    (gs : List FieldSym) (xs : List Part) (lo hi hi2 : ℕ)
    → hi ≤ hi2
    → Spread lo gs xs hi
    → Spread lo gs xs hi2
Spread-later [] [] lo hi hi2 h s = omega (arith, h, s)
Spread-later (g ∷ gs) (x ∷ xs) lo hi hi2 h s =
    (s.0, (s.1.0, Spread-later gs xs (g.offset + x.ty.size) hi hi2 h s.1.1))
Spread-later [] (x ∷ xs) lo hi hi2 h s = elim s [ ]
Spread-later (g ∷ gs) [] lo hi hi2 h s = elim s [ ]

pub place_all-IsLaid :
    (xs : List Part)
    → AllAligned xs
    → room xs + 8 < 2 ^ 32
    → IsLaid xs (place_all nothing_placed xs)
place_all-IsLaid xs h k =
    let m = place_all-Places xs nothing_placed (inl refl) h (omega (arith, k)) in
    let r = place_all nothing_placed xs in
    let (low, (high, whole)) =
      round_up-bounds r.offset r.align m.align (omega (arith, m.end, k, small r.align m.align)) in
    record {
      spread =
          subst (λ (gs : List FieldSym). Spread 0 gs xs (round_up r.offset r.align)) (sym m.fields)
            (Spread-later m.added xs 0 r.offset (round_up r.offset r.align) low m.spread);
      whole = whole;
      divides = m.divides;
    }
  where
    small : (a : ℕ) → IsAlign a → a ≤ 8
    small a (inl e) = omega (arith, e)
    small a (inr (inl e)) = omega (arith, e)
    small a (inr (inr e)) = omega (arith, e)

-- `xs` are the fields `fs`, read one after the other from `s` on. Each has the type that its
-- resolution gives, and that type's record as it stands behind the resolution. Between two of them
-- nothing but the reports changes.
abbrev pub AreRead : Layout → List Field → Sema → List Part → Type 0
AreRead lay [] s [] = Unit {0}
AreRead lay (f ∷ fs) s (x ∷ xs) =
    (u : Sema) × (v : Sema) × (field_type lay f s ≡ some (u, x.ref))
    × (x.field ≡ f)
    × (x.ty ≡ deref u.types x.ref)
    × (v ≡ record u { diag = v.diag })
    × AreRead lay fs v xs
AreRead lay [] s (x ∷ xs) = ⊥
AreRead lay (f ∷ fs) s [] = ⊥

-- The search for a field of the same name changes nothing but the reports.
pub check_duplicate-reports :
    (placed : List FieldSym) (f : Field) (s : Sema) (r : Sema × Unit {0})
    → check_duplicate placed f s ≡ some r
    → r.0 ≡ record s { diag = r.0.diag }
unfolding check_duplicate ◌>>=◌
check_duplicate-reports placed f s r h = by_found (find_field placed f.name) h
  where
    by_found :
        (o : Option FieldSym)
        → (elim o as (λ (_ : Option FieldSym). Check (Unit {0})) [
          | none ↦ skip
          | some g ↦ do _ ← error f.pos; note g.pos
        ])
            s
          ≡ some r
        → r.0 ≡ record s { diag = r.0.diag }
    by_found none e =
        subst (λ (q : Sema × Unit {0}). q.0 ≡ record s { diag = q.0.diag }) (some_injective e) refl
    by_found (some g) e =
        subst (λ (q : Sema × Unit {0}). q.0 ≡ record s { diag = q.0.diag }) (some_injective e) refl

-- The fields `fs` placed behind `p` from `s` on, with the records that were read, all aligned.
pub record Arranged (lay : Layout) (fs : List Field) (s : Sema) (p r : Placed) : Type 0 where
  pub parts : List Part
  pub read : AreRead lay fs s parts
  pub declared : fields_in parts ≡ fs
  pub aligned : AllAligned parts
  pub placed : r ≡ place_all p parts
  pub align : IsAlign p.align → IsAlign r.align

pub Arranged-nil : (lay : Layout) (s : Sema) (p : Placed) → Arranged lay [] s p p
Arranged-nil lay s p = record {
  parts = [];
  read = tt;
  declared = refl;
  aligned = tt;
  placed = refl;
  align = λ a. a;
}

pub Arranged-cons :
    (lay : Layout) (f : Field) (fs : List Field) (r : TyRef) (s u v : Sema) (p : Placed)
    → field_type lay f s ≡ some (u, r)
    → v ≡ record u { diag = v.diag }
    → IsAlign (deref v.types r).align
    → (q : Placed) → Arranged lay fs v (place p f r (deref v.types r)) q
    → Arranged lay (f ∷ fs) s p q
Arranged-cons lay f fs r s u v p run same a q h =
    let x : Part = record { field = f; ref = r; ty = deref v.types r } in
    record {
      parts = x ∷ h.parts;
      read = (u, v, run, refl, ap (λ (w : Sema). deref w.types r) same, same, h.read);
      declared = ap (λ (l : List Field). f ∷ l) h.declared;
      aligned = (a, h.aligned);
      placed = h.placed;
      align = λ b. h.align (place-IsAlign p x b a);
    }
