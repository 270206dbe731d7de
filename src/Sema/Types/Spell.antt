-- ===== src/Sema/Types/Spell.antt =====
-- Types in source syntax, written into a buffer (src/sema/types.c). A buffer is its bytes and the
-- number written. The text that `snprintf` gives for a length is a parameter. The recursion over
-- the element types runs on fuel, and `none` means that it would not end.
use slop.Base.{
  ℕ, zero, suc, ◌+◌, ◌-◌, List, [], ◌∷◌, ◌++◌, ◌||◌, leb, ltb, ◌==◌, if◌then◌else◌, length, set,
  take, Option, none, some,
}
use slop.Lexer.Kind.{codes}
use slop.Sema.Types.Kind.{TyKind}
use slop.Sema.Types.{TyRef, TypeTable, deref, Ty}

abbrev pub Buffer : Type 0
Buffer = List ℕ × ℕ

-- `memcpy(buf + at, s, length s)`
unfoldable pub memcpy : List ℕ → ℕ → List ℕ → List ℕ
memcpy buf at [] = buf
memcpy buf at (c ∷ s) = memcpy (set buf at c) (suc at) s

-- How many of `n` bytes there is room for.
abbrev pub clamp : ℕ → ℕ → ℕ
clamp n room = if ltb room n then room else n

unfoldable pub append : ℕ → Buffer → List ℕ → Buffer
unfolding memcpy
append size (buf, at) s =
    if (size == 0) || leb size (at + 1)
    then (buf, at)
    else (let n = clamp (length s) (size - 1 - at) in
        (set (memcpy buf at (take n s)) (at + n) 0, at + n))

-- The name of a type that is no pointer, array, struct or enum.
abbrev pub core_name : TyKind → List ℕ
core_name TyKind.void = codes "void"
core_name TyKind.i8 = codes "i8"
core_name TyKind.u8 = codes "u8"
core_name TyKind.i32 = codes "i32"
core_name TyKind.u32 = codes "u32"
core_name TyKind.i64 = codes "i64"
core_name TyKind.u64 = codes "u64"
core_name TyKind.f32 = codes "f32"
core_name TyKind.f64 = codes "f64"
core_name TyKind.b8 = codes "b8"
core_name TyKind.b32 = codes "b32"
core_name TyKind.b64 = codes "b64"
core_name TyKind.untyped_int = codes "integer literal"
core_name TyKind.untyped_float = codes "float literal"
core_name TyKind.untyped_bool = codes "bool"
core_name TyKind.null = codes "null"
core_name _ = codes "<error>"

-- How a type is written: after its element type, or by a name alone.
pub data Form : Type 0 where
  pointer array : Form
  named : List ℕ → Form

abbrev pub form_of : TyKind → List ℕ → Form
form_of TyKind.ptr name = pointer
form_of TyKind.array name = array
form_of TyKind.struct name = named name
form_of TyKind.enum name = named name
form_of k name = named (core_name k)

abbrev pub form : Ty → Form
form t = form_of t.kind t.name

module _ (print_length : ℕ → List ℕ) where
  -- What is written after the element type of an array.
  abbrev pub brackets : ℕ → List ℕ
  brackets n = codes "[" ++ (print_length n ++ codes "]")

module _ (print_length : ℕ → List ℕ) (table : TypeTable) (size : ℕ) where
  unfoldable pub render : ℕ → Option TyRef → Buffer → Option Buffer
  unfolding append
  render zero o b = none
  render (suc fuel) none b = some (append size b (codes "<none>"))
  render (suc fuel) (some r) b = elim (form (deref table r)) [
    | pointer ↦ elim (render fuel (deref table r).elem b) [
      | none ↦ none
      | some b' ↦ some (append size b' (codes "*"))
    ]
    | array ↦ elim (render fuel (deref table r).elem b) [
      | none ↦ none
      | some b' ↦ some (append size b' (brackets print_length (deref table r).length))
    ]
    | named name ↦ some (append size b name)
  ]

  -- One step of fuel for every record is enough.
  unfoldable pub ty_str : Option TyRef → List ℕ → Option (List ℕ)
  unfolding render
  ty_str o buf =
      if size == 0 then some buf else elim (render (length table.heap + 1) o (set buf 0 0, 0)) [
        | none ↦ none
        | some b ↦ some b.0
      ]
