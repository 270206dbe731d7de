-- ===== src/Sema/Check/Ready.antt =====
-- The states that the passes behind the collection run in (src/sema/sema.c), and what a step of
-- the checker keeps.
use slop.Base.{
  append_nil, append_assoc, sym, ℕ, ◌+◌, ◌<◌, ◌≤◌, ◌≡◌, refl, ap, ◌∙◌, List, [], ◌∷◌, ◌++◌, Bool,
  true, false, ◌||◌, ◌&&◌, arith, if◌then◌else◌, length, get_elem?, Option, none, some,
}
use slop.Support.Diag.{SrcPos, Diag, diag_error, diag_note}
use slop.Support.StrView.{StrView}
use slop.Sema.Types.{Ty, TyRef, TypeTable, LayoutState, deref, ty_core}
use slop.Sema.Types.Kind.{TyKind, is_kind}
use slop.Sema.Scope.{Sym, Globals, Scopes, globals_find_type, globals_find_value}
use slop.Sema.Check.State.{Sema}
use slop.Sema.Check.Layout.Spread.{IsAlign}
use slop.Sema.Check.Stmts.{member_of}

abbrev pub IsSome {ℓ} : {A : Type ℓ} → Option A → Type 0
IsSome none = ⊥
IsSome (some a) = Unit {0}

-- Pointers and arrays have an element type.
abbrev pub points : TyKind → Bool
points k = is_kind k TyKind.ptr || is_kind k TyKind.array

-- A struct that has a layout ahead of it.
abbrev pub is_unstarted : Ty → Bool
is_unstarted t =
    is_kind t.kind TyKind.struct && (elim t.state [ LayoutState.unstarted ↦ true | _ ↦ false ])

-- How many structs have a layout ahead of them.
unfoldable pub work : List Ty → ℕ
work [] = 0
work (t ∷ ts) = (if is_unstarted t then 1 else 0) + work ts

-- What one record of the type table has, among `n` items.
pub record Sound (n : ℕ) (t : Ty) : Type 0 where
  pub align : IsAlign t.align
  pub elem : points t.kind ≡ true → IsSome t.elem
  pub decl : (i : ℕ) → t.decl ≡ some i → (i < n) × (is_kind t.kind TyKind.struct ≡ true)

-- Has the kind its own record from the start?
abbrev pub is_core : TyKind → Bool
is_core TyKind.ptr = false
is_core TyKind.array = false
is_core TyKind.struct = false
is_core TyKind.enum = false
is_core _ = true

pub record GoodTypes (table : TypeTable) (n : ℕ) : Type 0 where
  pub cores : (k : TyKind) → is_core k ≡ true → IsSome (ty_core table k)
  pub sound : (r : TyRef) → Sound n (deref table r)

-- A global symbol that is found is there.
abbrev pub There : Option (Option ℕ) → ℕ → Type 0
There none n = ⊥
There (some none) n = Unit {0}
There (some (some i)) n = i < n

-- The member of an enum has a type.
abbrev pub Member : Sym → Type 0
Member sym = (m : Sym) → member_of (some sym) ≡ some m → IsSome m.type

pub record GoodNames (g : Globals) (syms : List Sym) : Type 0 where
  pub types : (name : StrView) → IsSome (globals_find_type g name)
  pub values : (name : StrView) → There (globals_find_value g name) (length syms)
  pub members : (i : ℕ) (sym : Sym) → get_elem? syms i ≡ some sym → Member sym

abbrev pub Current : Option ℕ → ℕ → Type 0
Current none n = Unit {0}
Current (some i) n = i < n

-- A state behind the collection of the names.
pub record Good (s : Sema) : Type 0 where
  pub types : GoodTypes s.types (length s.items)
  pub names : GoodNames s.globals s.syms
  pub fn : Current s.cur_fn (length s.syms)

-- Inner scopes are closed, and the innermost one at most grew.
pub record Inner (a b : Scopes) : Type 0 where
  pub marks : b.marks ≡ a.marks
  pub added : List Sym
  pub syms : b.syms ≡ a.syms ++ added

-- What the checker keeps on its way from `s` to `q`.
pub record Moves (s q : Sema) : Type 0 where
  pub good : Good q
  pub count : s.diag.count ≤ q.diag.count
  pub work : work q.types.heap ≤ work s.types.heap
  pub scopes : Inner s.scopes q.scopes
  pub loop_depth : q.loop_depth ≡ s.loop_depth

pub Inner-refl : (a : Scopes) → Inner a a
Inner-refl a = record { marks = refl; added = []; syms = sym (append_nil a.syms) }

pub Inner-trans : {a b c : Scopes} → Inner a b → Inner b c → Inner a c
Inner-trans {a} x y = record {
  marks = y.marks ∙ x.marks;
  added = x.added ++ y.added;
  syms = y.syms ∙ ap (λ (l : List Sym). l ++ y.added) x.syms ∙ append_assoc a.syms x.added y.added;
}

pub Moves-refl : {s : Sema} → Good s → Moves s s
Moves-refl {s} g = record {
  good = g;
  count = omega arith;
  work = omega arith;
  scopes = Inner-refl s.scopes;
  loop_depth = refl;
}

pub Moves-trans : {s q r : Sema} → Moves s q → Moves q r → Moves s r
Moves-trans a b = record {
  good = b.good;
  count = omega (arith, a.count, b.count);
  work = omega (arith, a.work, b.work);
  scopes = Inner-trans a.scopes b.scopes;
  loop_depth = b.loop_depth ∙ a.loop_depth;
}

-- The step `o` from `s` returns. Its result satisfies `V`, and `W` where nothing was reported.
pub record Runs {A : Type 0} (V W : A → Type 0) (s : Sema) (o : Option (Sema × A)) : Type 0 where
  pub next : Sema
  pub result : A
  pub run : o ≡ some (next, result)
  pub moves : Moves s next
  pub always : V result
  pub clean : next.diag.count ≡ s.diag.count → W result

-- After a step to `q` the clean part is owed only where the step reported nothing.
abbrev pub Then : {A : Type 0} → Sema → Sema → (A → Type 0) → A → Type 0
Then s q W a = q.diag.count ≡ s.diag.count → W a

-- No demand on the result.
abbrev pub Any : {A : Type 0} → A → Type 0
Any a = Unit {0}

diag_error-count : (d : Diag) (pos : SrcPos) → (diag_error d pos).count ≡ d.count + 1
unfolding diag_error
diag_error-count d pos = ground arith

diag_note-count : (d : Diag) (pos : SrcPos) → (diag_note d pos).count ≡ d.count
unfolding diag_note
diag_note-count d pos = ground arith

pub error-Moves :
    (pos : SrcPos) {s : Sema}
    → Good s
    → Moves s (record s { diag = diag_error s.diag pos })
      × (s.diag.count < (diag_error s.diag pos).count)
error-Moves pos {s} g =
    let up = diag_error-count s.diag pos in
    (
      record {
        good = record { types = g.types; names = g.names; fn = g.fn };
        count = omega (arith, up);
        work = omega arith;
        scopes = Inner-refl s.scopes;
        loop_depth = refl;
      },
      omega (arith, up),
    )

pub note-Moves :
    (pos : SrcPos) {s : Sema} → Good s → Moves s (record s { diag = diag_note s.diag pos })
note-Moves pos {s} g = record {
  good = record { types = g.types; names = g.names; fn = g.fn };
  count = omega (arith, diag_note-count s.diag pos);
  work = omega arith;
  scopes = Inner-refl s.scopes;
  loop_depth = refl;
}

-- A step that leaves all but the types as it was.
pub types-Moves :
    {s : Sema} (table : TypeTable)
    → Good s
    → GoodTypes table (length s.items)
    → work table.heap ≤ work s.types.heap
    → Moves s (record s { types = table })
types-Moves {s} table g t w = record {
  good = record { types = t; names = g.names; fn = g.fn };
  count = omega arith;
  work = w;
  scopes = Inner-refl s.scopes;
  loop_depth = refl;
}
