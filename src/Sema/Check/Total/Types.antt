-- ===== src/Sema/Check/Total/Types.antt =====
-- The steps on the type table and on the names (src/sema/sema.c, types.c).
use slop.Base.{
  inl, inr, ℕ, zero, suc, ◌<◌, ◌≤◌, ◌≡◌, refl, List, [], ◌∷◌, ◌++◌, true, false, arith, length,
  get_or, set, Option, none, some, ◌*◌, ◌%◌, ◌^◌,
}
use slop.Sema.Types.{
  Ty, TyRef, TypeTable, blank, deref, ty_core, ty_ptr, ty_array, add_derived, find_derived,
  is_ptr_to, is_array_of,
}
use slop.Sema.Types.Kind.{TyKind}
use slop.Sema.Check.State.{Sema, ptr_to, array_of, set_ty}
use slop.Sema.Check.Ready.{
  is_unstarted, work, Sound, GoodTypes, Good, Moves, Runs, Any, types-Moves,
}
use slop.Sema.Check.Rules.{Runs-pure}

-- What holds of a read and of the new element holds of the read behind both.
pub get_or-append :
    {A : Type 0} (P : A → Type 0) (xs : List A) (x d : A) (i : ℕ)
    → P (get_or xs i d)
    → P x
    → P d
    → P (get_or (xs ++ (x ∷ [])) i d)
get_or-append P [] x d zero h p q = p
get_or-append P [] x d (suc i) h p q = q
get_or-append P (y ∷ ys) x d zero h p q = h
get_or-append P (y ∷ ys) x d (suc i) h p q = get_or-append P ys x d i h p q

get_or-set :
    {A : Type 0} (P : A → Type 0) (xs : List A) (x d : A) (i j : ℕ)
    → P (get_or xs j d)
    → P x
    → P (get_or (set xs i x) j d)
get_or-set P [] x d i j h p = h
get_or-set P (y ∷ ys) x d zero zero h p = p
get_or-set P (y ∷ ys) x d zero (suc j) h p = h
get_or-set P (y ∷ ys) x d (suc i) zero h p = h
get_or-set P (y ∷ ys) x d (suc i) (suc j) h p = get_or-set P ys x d i j h p

-- One more record, which is no struct that waits for its layout.
work-append : (ts : List Ty) (t : Ty) → is_unstarted t ≡ false → work (ts ++ (t ∷ [])) ≡ work ts
unfolding work
work-append [] t h = rw h refl
work-append (x ∷ ts) t h = omega (arith, work-append ts t h)

-- A record that is written over: the work is that of the others and its own.
pub work-set :
    (ts : List Ty) (i : ℕ) (t d : Ty) → is_unstarted t ≡ false → work (set ts i t) ≤ work ts
unfolding work
work-set [] i t d h = omega arith
work-set (x ∷ ts) zero t d h = rw h (omega arith)
work-set (x ∷ ts) (suc i) t d h = omega (arith, work-set ts i t d h)

-- A struct whose layout is started: the work is less.
pub work-set_started :
    (ts : List Ty) (i : ℕ) (t d : Ty)
    → is_unstarted d ≡ false
    → is_unstarted (get_or ts i d) ≡ true
    → is_unstarted t ≡ false
    → work (set ts i t) < work ts
unfolding work
work-set_started [] i t d n u h = cc
work-set_started (x ∷ ts) zero t d n u h = rw (h, u) (omega arith)
work-set_started (x ∷ ts) (suc i) t d n u h = omega (arith, work-set_started ts i t d n u h)

pub blank-Sound : (n : ℕ) → Sound n (blank TyKind.poison)
blank-Sound n = record { align = inl refl; elem = λ h. cc; decl = λ i h. cc }

-- A new record keeps the table good.
add_derived-Good :
    (table : TypeTable) (n : ℕ) (t : Ty)
    → GoodTypes table n
    → Sound n t
    → GoodTypes (add_derived table t).0 n
unfolding ty_core
add_derived-Good table n t g h = record {
  cores = g.cores;
  sound = λ r.
      get_or-append (Sound n) table.heap t (blank TyKind.poison) r (g.sound r) h (blank-Sound n);
}

-- A derived type with an element.
new-Moves :
    (t : Ty) (s : Sema)
    → Good s
    → Sound (length s.items) t
    → is_unstarted t ≡ false
    → Moves s (record s { types = (add_derived s.types t).0 })
new-Moves t s g h u =
    types-Moves _ g (add_derived-Good s.types _ t g.types h)
      (omega (arith, work-append s.types.heap t u))

pub ptr_to-Runs : (r : TyRef) {s : Sema} → Good s → Runs Any Any s (ptr_to r s)
unfolding ptr_to ty_ptr
ptr_to-Runs r {s} g = found (find_derived (is_ptr_to r) s.types s.types.derived)
  where
    found :
        (o : Option TyRef)
        → Runs Any Any s (
            let t : TypeTable × TyRef = elim o [
              | some d ↦ (s.types, d)
              | none ↦
                  add_derived s.types
                    (record (blank TyKind.ptr) { elem = some r; size = 8; align = 8 })
            ] in
            some (record s { types = t.0 }, t.1))
    found (some d) = Runs-pure g tt tt
    found none = record {
      next = _;
      result = _;
      run = refl;
      moves =
          new-Moves _ s g (record { align = inr (inr refl); elem = λ h. tt; decl = λ i h. cc })
            refl;
      always = tt;
      clean = λ _. tt;
    }

pub array_of-Runs : (r : TyRef) (len : ℕ) {s : Sema} → Good s → Runs Any Any s (array_of r len s)
unfolding array_of ty_array
array_of-Runs r len {s} g = found (find_derived (is_array_of r len) s.types s.types.derived)
  where
    found :
        (o : Option TyRef)
        → Runs Any Any s (
            let t : TypeTable × TyRef = elim o [
              | some d ↦ (s.types, d)
              | none ↦ add_derived s.types (record (blank TyKind.array) {
                elem = some r;
                length = len;
                size = (len * (deref s.types r).size) % 2 ^ 64 % 2 ^ 32;
                align = (deref s.types r).align;
              })
            ] in
            some (record s { types = t.0 }, t.1))
    found (some d) = Runs-pure g tt tt
    found none = record {
      next = _;
      result = _;
      run = refl;
      moves =
          new-Moves _ s g
            (record { align = (g.types.sound r).align; elem = λ h. tt; decl = λ i h. cc }) refl;
      always = tt;
      clean = λ _. tt;
    }

-- A record is written over by one that is as sound.
set-Good :
    (table : TypeTable) (n : ℕ) (r : TyRef) (t : Ty)
    → GoodTypes table n
    → Sound n t
    → GoodTypes (record table { heap = set table.heap r t }) n
unfolding ty_core
set-Good table n r t g h = record {
  cores = g.cores;
  sound = λ q. get_or-set (Sound n) table.heap t (blank TyKind.poison) r q (g.sound q) h;
}

pub set_ty-Moves :
    (r : TyRef) (f : Ty → Ty) {s : Sema}
    → Good s
    → ((t : Ty) → Sound (length s.items) t → Sound (length s.items) (f t))
    → is_unstarted (f (deref s.types r)) ≡ false
    → Moves s
        (record s { types = record (s.types) { heap = set s.types.heap r (f (deref s.types r)) } })
set_ty-Moves r f {s} g h u =
    types-Moves _ g (set-Good s.types _ r _ g.types (h _ (g.types.sound r)))
      (work-set s.types.heap r _ (blank TyKind.poison) u)

pub set_ty-Runs :
    (r : TyRef) (f : Ty → Ty) {s : Sema}
    → Good s
    → ((t : Ty) → Sound (length s.items) t → Sound (length s.items) (f t))
    → is_unstarted (f (deref s.types r)) ≡ false
    → Runs Any Any s (set_ty r f s)
set_ty-Runs r f g h u = record {
  next = _;
  result = _;
  run = refl;
  moves = set_ty-Moves r f g h u;
  always = tt;
  clean = λ _. tt;
}
