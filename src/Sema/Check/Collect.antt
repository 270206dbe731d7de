-- ===== src/Sema/Check/Collect.antt =====
-- The collection of the global names (src/sema/sema.c). `n` is the number of the item among all
-- items of all files.
use slop.Base.{
  ℕ, suc, ◌+◌, ◌%◌, ◌^◌, List, [], ◌∷◌, Bool, true, false, not, if◌then◌else◌, Option, none, some,
}
use slop.Ast.{FnDecl, EnumMember, Item, fn_item, struct_item, enum_item, global_item, extern_item}
use slop.Lexer.Kind.{TokenKind, codes}
use slop.Support.Diag.{SrcPos}
use slop.Support.StrView.{StrView, strview_eq}
use slop.Sema.Types.{TyRef, EnumSym, deref, ty_from_token, ty_int_fits, ty_struct_new, ty_enum_new}
use slop.Sema.Types.Kind.{TyKind, ty_is_integer}
use slop.Sema.Scope.{Sym, SymKind}
use slop.Sema.Check.State.{
  Check, ◌>>=◌, pure, skip, gets, error, note, ty, set_ty, core, find_type, find_global, sym_at,
  add_type, add_sym, sym_new,
}

-- The name of a type is taken: an error, and a note on the first one.
abbrev pub taken_type : SrcPos → TyRef → Check (Unit {0})
taken_type pos r = do _ ← error pos; t ← ty r; note t.pos

-- The same for a name of the other namespace.
abbrev pub taken_sym : SrcPos → ℕ → Check (Unit {0})
taken_sym pos n = do old ← sym_at n; _ ← error pos; note old.pos

unfoldable pub new_struct : StrView → SrcPos → Check TyRef
new_struct name pos s =
    let t = ty_struct_new s.types name pos in some (record s { types = t.0 }, t.1)

unfoldable pub new_enum : StrView → TyRef → SrcPos → Check TyRef
new_enum name base pos s =
    let t = ty_enum_new s.types name base pos in some (record s { types = t.0 }, t.1)

unfoldable pub collect_struct : ℕ → SrcPos → StrView → Check (Unit {0})
unfolding find_type new_struct add_type
collect_struct n pos name = do
  existing ← find_type name
  elim existing as (λ (_ : Option TyRef). Check (Unit {0})) [
    | some r ↦ taken_type pos r
    | none ↦ do
      r ← new_struct name pos
      _ ← set_ty r (λ t. record t { decl = some n })
      add_type name r
  ]

-- A new symbol, unless its name is taken.
unfoldable pub collect_sym : Sym → Check (Unit {0})
unfolding find_global add_sym
collect_sym sym = do
  existing ← find_global sym.name
  elim existing as (λ (_ : Option ℕ). Check (Unit {0})) [
    | some old ↦ taken_sym sym.pos old
    | none ↦ add_sym sym
  ]

-- The value of a member: the one that is written, or the next one.
abbrev pub member_value : EnumMember → ℕ → ℕ
member_value m next = if m.has_value then m.value else next

-- The members of the enum `r` over `base`, from the next value on. The value after the greatest is
-- 0 again.
unfoldable pub collect_members : TyRef → TyRef → ℕ → List EnumMember → Check (List EnumSym)
unfolding collect_sym
collect_members r base next [] = pure []
collect_members r base next (m ∷ ms) = do
  let value = member_value m next
  fits ← gets (λ s. ty_int_fits s.types (deref s.types base) value)
  _ ← if not fits then error m.pos else skip
  _ ←
      collect_sym
        (record (sym_new SymKind.enum_member m.name m.pos) { type = some r; value = value })
  rest ← collect_members r base ((value + 1) % 2 ^ 64) ms
  pure (record { name = m.name; value = value; pos = m.pos } ∷ rest)

-- The underlying type: `i32` after an error.
unfoldable pub enum_base : SrcPos → TokenKind → Check TyRef
unfolding core
enum_base pos k = do
  written ← gets (λ s. ty_from_token s.types k)
  elim written as (λ (_ : Option TyRef). Check TyRef) [
    | none ↦ do _ ← error pos; core TyKind.i32
    | some b ↦ do
      d ← ty b
      if not (ty_is_integer d.kind) then (do _ ← error pos; core TyKind.i32) else pure b
  ]

unfoldable pub collect_enum : SrcPos → StrView → TokenKind → List EnumMember → Check (Unit {0})
unfolding find_type enum_base new_enum add_type collect_members
collect_enum pos name k ms = do
  existing ← find_type name
  base ← enum_base pos k
  elim existing as (λ (_ : Option TyRef). Check (Unit {0})) [
    | some r ↦ taken_type pos r
    | none ↦ do
      r ← new_enum name base pos
      _ ← add_type name r
      members ← collect_members r base 0 ms
      set_ty r (λ t. record t { members = members })
  ]

-- The function `j` of the item `n`.
unfoldable pub collect_fn : ℕ → ℕ → Bool → FnDecl → Check (Unit {0})
unfolding collect_sym
collect_fn n j is_extern fn = collect_sym (record (sym_new SymKind.fn fn.name fn.pos) {
  decl = some (n, j);
  is_variadic = fn.is_variadic;
  is_extern = is_extern;
})

unfoldable pub collect_global : ℕ → SrcPos → Bool → StrView → Check (Unit {0})
unfolding collect_sym
collect_global n pos is_mut name =
    collect_sym (record (sym_new SymKind.global name pos) { is_mut = is_mut; item = some n })

-- The functions of an `extern` block, from number `j` on.
unfoldable pub collect_fns : ℕ → ℕ → List FnDecl → Check (Unit {0})
unfolding collect_fn
collect_fns n j [] = skip
collect_fns n j (fn ∷ fns) = do _ ← collect_fn n j true fn; collect_fns n (suc j) fns

unfoldable pub collect_item : ℕ → Item → Check (Unit {0})
unfolding collect_struct collect_enum collect_fn collect_global collect_fns
collect_item n (struct_item pos name fs) = collect_struct n pos name
collect_item n (enum_item pos name base ms) = collect_enum pos name base ms
collect_item n (fn_item pos fn) = collect_fn n 0 false fn
collect_item n (global_item pos is_mut t name init) = collect_global n pos is_mut name
collect_item n (extern_item pos abi fns) = do
  _ ← if not (strview_eq abi (codes "c")) then error pos else skip
  collect_fns n 0 fns

-- The items of a file, from number `n` on.
unfoldable pub collect_program : ℕ → List (Option Item) → Check (Unit {0})
unfolding collect_item
collect_program n [] = skip
collect_program n (none ∷ is) = collect_program (suc n) is
collect_program n (some i ∷ is) = do _ ← collect_item n i; collect_program (suc n) is
