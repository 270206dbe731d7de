-- ===== src/Sema/Check/Layout.antt =====
-- The resolution of written types and the layout of structs (src/sema/sema.c). The two call each
-- other: `resolve_over` takes the layout as an argument, and the layout runs on fuel.
pub mod Spread
use slop.Base.{
  ℕ, zero, suc, ◌+◌, ◌*◌, ◌/◌, ◌%◌, ◌^◌, List, [], ◌∷◌, ◌++◌, Bool, ◌&&◌, not, ltb, ◌==◌,
  if◌then◌else◌, length, get_elem?, Option, none, some,
}
use slop.Ast.{Syntax, Item, struct_item, Field}
use slop.Support.Diag.{SrcPos}
use slop.Sema.Types.{Ty, TyRef, FieldSym, LayoutState, find_field, ty_from_token, ty_is_sized}
use slop.Sema.Types.Kind.{TyKind, is_kind}
use slop.Sema.Check.State.{
  Check, ◌>>=◌, pure, skip, follow, out_of_fuel, gets, error, note, ty, set_ty, poison, fails,
  ptr_to, array_of, find_type,
}

-- The layout of a struct, as `resolve_type` calls it.
abbrev pub Layout : Type 0
Layout = TyRef → Check (Unit {0})

abbrev pub is_struct : Ty → Bool
is_struct t = is_kind t.kind TyKind.struct

-- A struct is laid out, and any other type left alone.
unfoldable pub lay_out : Layout → TyRef → Check (Unit {0})
lay_out lay r = do d ← ty r; if is_struct d then lay r else skip

abbrev pub max_size : ℕ
max_size = 0xFFFFFFFF

-- What `resolve_type` makes of an array's element and length.
unfoldable pub resolve_array : Layout → SrcPos → TyRef → ℕ → Check TyRef
unfolding lay_out array_of fails
resolve_array lay pos elem len = do
  _ ← lay_out lay elem
  d ← ty elem
  if len == 0
      then fails pos
      else if not (ty_is_sized d)
      then fails pos
      else if not (d.size == 0) && ltb (max_size / d.size) len
      then fails pos
      else array_of elem len

unfoldable pub resolve_over : Layout → Syntax → Check TyRef
unfolding resolve_array poison fails ptr_to find_type
resolve_over lay Syntax.missing = poison
resolve_over lay (Syntax.core_type pos k) = do
  r ← gets (λ s. ty_from_token s.types k)
  elim r as (λ (_ : Option TyRef). Check TyRef) [ none ↦ poison | some t ↦ pure t ]
resolve_over lay (Syntax.named_type pos name) = do
  r ← find_type name
  elim r as (λ (_ : Option TyRef). Check TyRef) [ none ↦ fails pos | some t ↦ pure t ]
resolve_over lay (Syntax.pointer_type pos t) = do elem ← resolve_over lay t; ptr_to elem
resolve_over lay (Syntax.array_type pos t len) = do
  elem ← resolve_over lay t
  resolve_array lay pos elem len

-- `(n + align - 1u) / align * align` on 32 bits.
unfoldable pub round_up : ℕ → ℕ → ℕ
round_up n align = (n + align + 0xFFFFFFFF) % 2 ^ 32 / align * align

-- The fields that are placed, with the next offset and the greatest alignment so far.
pub record Placed : Type 0 where
  pub fields : List FieldSym
  pub offset : ℕ
  pub align : ℕ

-- A field of type `r`, whose record is `t`, behind those that are placed.
unfoldable pub place : Placed → Field → TyRef → Ty → Placed
unfolding round_up
place p f r t =
    let offset = round_up p.offset t.align in
    record {
      fields = p.fields ++ (record { name = f.name; type = r; offset = offset; pos = f.pos } ∷ []);
      offset = (offset + t.size) % 2 ^ 32;
      align = if ltb p.align t.align then t.align else p.align;
    }

-- The field's type, laid out; a type with no size is reported and replaced.
unfoldable pub field_type : Layout → Field → Check TyRef
unfolding resolve_over lay_out fails
field_type lay f = do
  r ← resolve_over lay f.type
  _ ← lay_out lay r
  d ← ty r
  if not (ty_is_sized d) then fails f.pos else pure r

-- A field of the same name before this one.
unfoldable pub check_duplicate : List FieldSym → Field → Check (Unit {0})
unfolding find_field
check_duplicate placed f =
    elim (find_field placed f.name) as (λ (_ : Option FieldSym). Check (Unit {0})) [
      | none ↦ skip
      | some g ↦ do _ ← error f.pos; note g.pos
    ]

unfoldable pub place_fields : Layout → List Field → Placed → Check Placed
unfolding field_type check_duplicate place
place_fields lay [] p = pure p
place_fields lay (f ∷ fs) p = do
  r ← field_type lay f
  _ ← check_duplicate p.fields f
  t ← ty r
  place_fields lay fs (place p f r t)

abbrev pub nothing_placed : Placed
nothing_placed = record { fields = []; offset = 0; align = 1 }

-- The struct's record, laid out as placed.
abbrev pub laid_out : Placed → Ty → Ty
laid_out p t = record t {
  fields = p.fields;
  align = p.align;
  size = round_up p.offset p.align;
  state = LayoutState.done;
}

abbrev pub with_state : LayoutState → Ty → Ty
with_state state t = record t { state = state }

-- The fields that a struct's item declares.
abbrev pub fields_of : Item → List Field
fields_of (struct_item pos name fs) = fs
fields_of _ = []

-- The item of a struct that its record names.
unfoldable pub decl_of : Ty → Check (Option Item)
decl_of t = elim t.decl as (λ (_ : Option ℕ). Check (Option Item)) [
  | none ↦ pure none
  | some n ↦ do items ← gets (λ s. s.items); o ← follow (get_elem? items n); pure o
]

-- A struct that is not laid out yet: while its fields are, it is in progress.
unfoldable pub lay_fields : Layout → TyRef → Ty → Check (Unit {0})
unfolding decl_of place_fields round_up
lay_fields lay r t = do
  it ← decl_of t
  elim it as (λ (_ : Option Item). Check (Unit {0})) [
    | none ↦ set_ty r (with_state LayoutState.done)
    | some i ↦ do
      _ ← set_ty r (with_state LayoutState.in_progress)
      p ← place_fields lay (fields_of i) nothing_placed
      set_ty r (laid_out p)
  ]

-- A struct that contains itself is reported where its own layout comes back to it.
unfoldable pub layout_over : Layout → TyRef → Check (Unit {0})
unfolding lay_fields
layout_over lay r = do
  t ← ty r
  elim t.state as (λ (_ : LayoutState). Check (Unit {0})) [
    | LayoutState.done ↦ skip
    | LayoutState.in_progress ↦ do _ ← error t.pos; set_ty r (with_state LayoutState.done)
    | LayoutState.unstarted ↦ lay_fields lay r t
  ]

unfoldable pub layout_on : ℕ → TyRef → Check (Unit {0})
unfolding layout_over
layout_on zero r = out_of_fuel
layout_on (suc f) r = layout_over (layout_on f) r

-- Each nested layout starts another struct of the heap.
unfoldable pub layout_struct : TyRef → Check (Unit {0})
unfolding layout_on
layout_struct r = do n ← gets (λ s. length s.types.heap); layout_on (suc n) r

unfoldable pub resolve_type : Syntax → Check TyRef
unfolding resolve_over layout_struct
resolve_type t = resolve_over layout_struct t

-- A written type, laid out where it is a struct.
unfoldable pub resolve_laid : Syntax → Check TyRef
unfolding resolve_type lay_out layout_struct
resolve_laid t = do r ← resolve_type t; _ ← lay_out layout_struct r; pure r
