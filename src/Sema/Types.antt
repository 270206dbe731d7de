-- ===== src/Sema/Types.antt =====
-- The resolved types (src/sema/types.h, types.c). A `Ty*` is the number of its record in `heap`,
-- which holds every record that `ty_new` made, in order; NULL is `none`. `derived` holds the
-- elements of the growable array of that name. The arena clears what it hands out.
pub mod Kind
pub mod Spell
pub mod Truncate
pub mod Rendered
pub mod Core
pub mod Intern
pub mod Canonical
use slop.Base.{
  ℕ, ◌+◌, ◌*◌, ◌%◌, ◌^◌, List, [], ◌∷◌, ◌++◌, Bool, true, false, ◌&&◌, ◌||◌, leb, ◌==◌,
  if◌then◌else◌, length, get_or, get_elem?, set, replicate, Option, none, some,
}
use slop.Lexer.Kind.{TokenKind}
use slop.Support.Diag.{SrcPos}
use slop.Support.StrView.{StrView, strview_eq_view}
use slop.Sema.Types.Kind.{TyKind, ord, is_kind}

abbrev pub TyRef : Type 0
TyRef = ℕ

pub record FieldSym : Type 0 where
  pub name : StrView
  pub type : TyRef
  pub offset : ℕ
  pub pos : SrcPos

pub record EnumSym : Type 0 where
  pub name : StrView
  pub value : ℕ
  pub pos : SrcPos

pub data LayoutState : Type 0 where
  unstarted in_progress done : LayoutState

pub record Ty : Type 0 where
  pub kind : TyKind
  pub size : ℕ
  pub align : ℕ
  pub elem : Option TyRef
  pub length : ℕ
  pub name : StrView
  pub pos : SrcPos
  pub fields : List FieldSym
  pub state : LayoutState
  pub decl : Option ℕ
  pub members : List EnumSym
  pub base : Option TyRef

-- The record that `ty_new` makes.
abbrev pub blank : TyKind → Ty
blank kind = record {
  kind = kind;
  size = 0;
  align = 1;
  elem = none;
  length = 0;
  name = [];
  pos = record { line = 0; col = 0 };
  fields = [];
  state = LayoutState.unstarted;
  decl = none;
  members = [];
  base = none;
}

pub record TypeTable : Type 0 where
  pub heap : List Ty
  pub core : List (Option TyRef)
  pub derived : List TyRef

abbrev pub ptr_size : ℕ
ptr_size = 8

abbrev pub ptr_align : ℕ
ptr_align = 8

-- The rows of the table of core types: kind, size, alignment.
abbrev pub core_layout : List (TyKind × ℕ × ℕ)
core_layout =
    (TyKind.void, 0, 1)
    ∷ (TyKind.i8, 1, 1)
    ∷ (TyKind.u8, 1, 1)
    ∷ (TyKind.i32, 4, 4)
    ∷ (TyKind.u32, 4, 4)
    ∷ (TyKind.i64, 8, 8)
    ∷ (TyKind.u64, 8, 8)
    ∷ (TyKind.f32, 4, 4)
    ∷ (TyKind.f64, 8, 8)
    ∷ (TyKind.b8, 1, 1)
    ∷ (TyKind.b32, 4, 4)
    ∷ (TyKind.b64, 8, 8)
    ∷ (TyKind.untyped_int, 0, 1)
    ∷ (TyKind.untyped_float, 0, 1)
    ∷ (TyKind.untyped_bool, 0, 1)
    ∷ (TyKind.null, ptr_size, ptr_align)
    ∷ (TyKind.poison, 0, 1)
    ∷ []

-- A record on the heap; the number of a record that is not there reads as an unsized blank.
abbrev pub deref : TypeTable → TyRef → Ty
deref table r = get_or table.heap r (blank TyKind.poison)

-- A new record is made and its number returned.
abbrev pub ty_new : TypeTable → Ty → TypeTable × TyRef
ty_new table t = (record table { heap = table.heap ++ (t ∷ []) }, length table.heap)

unfoldable pub core_from : List (TyKind × ℕ × ℕ) → TypeTable → TypeTable
core_from [] table = table
core_from ((kind, size, align) ∷ rows) table =
    let (made, r) = ty_new table (record (blank kind) { size = size; align = align }) in
    core_from rows (record made { core = set made.core (ord kind) (some r) })

unfoldable pub types_init : TypeTable
unfolding core_from
types_init = core_from core_layout (record { heap = []; core = replicate 21 none; derived = [] })

-- The array of derived types is dropped; the records live as long as the arena.
unfoldable pub types_free : TypeTable → TypeTable
types_free table = record table { derived = [] }

unfoldable pub ty_core : TypeTable → TyKind → Option TyRef
ty_core table kind = get_or table.core (ord kind) none

unfoldable pub ty_from_token : TypeTable → TokenKind → Option TyRef
unfolding ty_core
ty_from_token table TokenKind.kw_void = ty_core table TyKind.void
ty_from_token table TokenKind.kw_i8 = ty_core table TyKind.i8
ty_from_token table TokenKind.kw_u8 = ty_core table TyKind.u8
ty_from_token table TokenKind.kw_i32 = ty_core table TyKind.i32
ty_from_token table TokenKind.kw_u32 = ty_core table TyKind.u32
ty_from_token table TokenKind.kw_i64 = ty_core table TyKind.i64
ty_from_token table TokenKind.kw_u64 = ty_core table TyKind.u64
ty_from_token table TokenKind.kw_f32 = ty_core table TyKind.f32
ty_from_token table TokenKind.kw_f64 = ty_core table TyKind.f64
ty_from_token table TokenKind.kw_b8 = ty_core table TyKind.b8
ty_from_token table TokenKind.kw_b32 = ty_core table TyKind.b32
ty_from_token table TokenKind.kw_b64 = ty_core table TyKind.b64
ty_from_token table _ = none

-- Are two pointers the same?
abbrev pub same_ref : Option TyRef → TyRef → Bool
same_ref none r = false
same_ref (some q) r = q == r

abbrev pub is_ptr_to : TyRef → Ty → Bool
is_ptr_to elem d = is_kind TyKind.ptr d.kind && same_ref d.elem elem

abbrev pub is_array_of : TyRef → ℕ → Ty → Bool
is_array_of elem len d = is_kind TyKind.array d.kind && (same_ref d.elem elem && (d.length == len))

-- The scan over the derived types.
unfoldable pub find_derived : (Ty → Bool) → TypeTable → List TyRef → Option TyRef
find_derived test table [] = none
find_derived test table (r ∷ rs) =
    if test (deref table r) then some r else find_derived test table rs

-- A new record is made and pushed onto the derived types.
abbrev pub add_derived : TypeTable → Ty → TypeTable × TyRef
add_derived table t =
    let (made, r) = ty_new table t in (record made { derived = made.derived ++ (r ∷ []) }, r)

unfoldable pub ty_ptr : TypeTable → TyRef → TypeTable × TyRef
unfolding find_derived
ty_ptr table elem = elim (find_derived (is_ptr_to elem) table table.derived) [
  | some d ↦ (table, d)
  | none ↦
      add_derived table
        (record (blank TyKind.ptr) { elem = some elem; size = ptr_size; align = ptr_align })
]

unfoldable pub ty_array : TypeTable → TyRef → ℕ → TypeTable × TyRef
unfolding find_derived
ty_array table elem len = elim (find_derived (is_array_of elem len) table table.derived) [
  | some d ↦ (table, d)
  | none ↦ add_derived table (record (blank TyKind.array) {
    elem = some elem;
    length = len;
    size = (len * (deref table elem).size) % 2 ^ 64 % 2 ^ 32;
    align = (deref table elem).align;
  })
]

unfoldable pub ty_struct_new : TypeTable → StrView → SrcPos → TypeTable × TyRef
ty_struct_new table name pos =
    add_derived table (record (blank TyKind.struct) { name = name; pos = pos })

unfoldable pub ty_enum_new : TypeTable → StrView → TyRef → SrcPos → TypeTable × TyRef
ty_enum_new table name base pos = add_derived table (record (blank TyKind.enum) {
  name = name;
  pos = pos;
  base = some base;
  size = (deref table base).size;
  align = (deref table base).align;
  state = LayoutState.done;
})

-- The first field of the name.
unfoldable pub find_field : List FieldSym → StrView → Option FieldSym
find_field [] name = none
find_field (f ∷ fs) name = if strview_eq_view f.name name then some f else find_field fs name

unfoldable pub ty_field : Option Ty → StrView → Option FieldSym
unfolding find_field
ty_field none name = none
ty_field (some t) name = if is_kind TyKind.struct t.kind then find_field t.fields name else none

unfoldable pub ty_is_sized : Ty → Bool
ty_is_sized t = elim t.kind [
  | TyKind.void ↦ false
  | TyKind.poison ↦ false
  | TyKind.untyped_int ↦ false
  | TyKind.untyped_float ↦ false
  | TyKind.untyped_bool ↦ false
  | TyKind.struct ↦ elim t.state [ LayoutState.done ↦ true | _ ↦ false ]
  | _ ↦ true
]

-- `ty_int_fits` of a type that is not an enum.
abbrev pub fits : TyKind → ℕ → Bool
fits TyKind.i8 v = leb v 0x7f
fits TyKind.u8 v = leb v 0xff
fits TyKind.i32 v = leb v 0x7fffffff
fits TyKind.u32 v = leb v 0xffffffff
fits TyKind.i64 v = leb v 0x7fffffffffffffff
fits TyKind.u64 v = true
fits TyKind.f32 v = true
fits TyKind.f64 v = true
fits _ v = false

-- An enum asks its underlying type, which is a core type: the recursion is one step deep.
unfoldable pub ty_int_fits : TypeTable → Ty → ℕ → Bool
ty_int_fits table t v = elim t.kind [
  | TyKind.enum ↦ elim t.base [ none ↦ false | some b ↦ fits (deref table b).kind v ]
  | k ↦ fits k v
]
