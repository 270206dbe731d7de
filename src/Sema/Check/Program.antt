-- ===== src/Sema/Check/Program.antt =====
-- The signatures, the globals, the bodies, and the whole check (src/sema/sema.h, sema.c). `n` is
-- the number of an item among all items of all files. The trees that C annotates in place are the
-- results: the initializers of the globals and the bodies of the functions, in order.
use slop.Base.{
  ℕ, suc, ◌+◌, List, [], ◌∷◌, ◌++◌, Bool, true, false, ◌||◌, ◌&&◌, not, ◌==◌, if◌then◌else◌, length,
  Option, none, some,
}
use slop.Ast.{
  Syntax, Expr, Param, FnDecl, Item, fn_item, struct_item, enum_item, global_item, extern_item,
}
use slop.Support.Diag.{SrcPos, diag_init, diag_error_count}
use slop.Support.StrView.{StrView}
use slop.Sema.Types.{TyRef, ty_is_sized, types_init}
use slop.Sema.Types.Kind.{TyKind, is_kind}
use slop.Sema.Scope.{Sym, SymKind, globals_init, scopes_init}
use slop.Sema.Diverge.{block_diverges}
use slop.Sema.Check.State.{
  Sema, Check, ◌>>=◌, pure, skip, gets, put, error, ty, poison, fails, find_type, find_global,
  sym_at, set_sym, scoped, sym_new,
}
use slop.Sema.Check.Tree.{Typed, null, enter, TypedStmts}
use slop.Sema.Check.Coerce.{is_poison}
use slop.Sema.Check.Layout.{is_struct, resolve_laid, layout_struct}
use slop.Sema.Check.Stmts.{check_init, check_block, declare_new}
use slop.Sema.Check.Collect.{collect_program}

-- Structs and arrays are passed and returned by pointer only.
unfoldable pub check_passable : TyRef → SrcPos → Check Bool
check_passable r pos = do
  t ← ty r
  if is_struct t || is_kind t.kind TyKind.array then (do _ ← error pos; pure false) else pure true

-- A parameter's type; one that cannot be passed is reported and replaced.
unfoldable pub param_type : Param → Check TyRef
unfolding resolve_laid fails check_passable poison
param_type p = do
  r ← resolve_laid p.type
  t ← ty r
  if is_kind t.kind TyKind.void
      then fails p.pos
      else do ok ← check_passable r p.pos; if not ok then poison else pure r

unfoldable pub param_types : List Param → Check (List TyRef)
unfolding param_type
param_types [] = pure []
param_types (p ∷ ps) = do r ← param_type p; rs ← param_types ps; pure (r ∷ rs)

-- The signature of `fn`, whose symbol is the record `i`.
unfoldable pub resolve_signature : ℕ → FnDecl → Check (Unit {0})
unfolding resolve_laid check_passable param_types
resolve_signature i fn = do
  ret ← resolve_laid fn.ret
  _ ← check_passable ret fn.pos
  params ← param_types fn.params
  sym ← sym_at i
  set_sym i (record sym { type = some ret; params = params })

-- The type of a global, a value type or poison.
unfoldable pub global_type : SrcPos → Syntax → Check TyRef
unfolding resolve_laid fails
global_type pos written = do
  r ← resolve_laid written
  t ← ty r
  if not (ty_is_sized t) then fails pos else pure r

-- The global whose symbol is the record `i`. Its initializer sees its type.
unfoldable pub resolve_global : ℕ → SrcPos → Syntax → Expr → Check Typed
unfolding global_type check_init
resolve_global i pos written init = do
  r ← global_type pos written
  sym ← sym_at i
  _ ← set_sym i (record sym { type = some r })
  check_init pos sym.is_mut init r

-- Is the number the declaration's?
abbrev pub is_item : Option ℕ → ℕ → Bool
is_item none n = false
is_item (some k) n = k == n

abbrev pub is_decl : Option (ℕ × ℕ) → ℕ → ℕ → Bool
is_decl none n j = false
is_decl (some (k, l)) n j = (k == n) && (l == j)

abbrev pub declares_fn : ℕ → ℕ → Sym → Bool
declares_fn n j sym = elim sym.kind [ SymKind.fn ↦ is_decl sym.decl n j | _ ↦ false ]

abbrev pub declares_global : ℕ → Sym → Bool
declares_global n sym = elim sym.kind [ SymKind.global ↦ is_item sym.item n | _ ↦ false ]

-- The symbol of the name goes to `m` where it is the one that is meant: a rejected duplicate has
-- none, since the name belongs to the first one.
unfoldable pub owned {ℓ} : {A : Type ℓ} → StrView → (Sym → Bool) → A → (ℕ → Check A) → Check A
unfolding find_global
owned name test missed m = do
  o ← find_global name
  elim o [ none ↦ pure missed | some i ↦ do sym ← sym_at i; if test sym then m i else pure missed ]

unfoldable pub resolve_struct : ℕ → StrView → Check (Unit {0})
unfolding find_type layout_struct
resolve_struct n name = do
  o ← find_type name
  elim o as (λ (_ : Option TyRef). Check (Unit {0})) [
    | none ↦ skip
    | some r ↦ do t ← ty r; if is_item t.decl n then layout_struct r else skip
  ]

unfoldable pub resolve_fn : ℕ → ℕ → FnDecl → Check (Unit {0})
unfolding owned resolve_signature
resolve_fn n j fn = owned fn.name (declares_fn n j) tt (λ i. resolve_signature i fn)

unfoldable pub resolve_fns : ℕ → ℕ → List FnDecl → Check (Unit {0})
unfolding resolve_fn
resolve_fns n j [] = skip
resolve_fns n j (fn ∷ fns) = do _ ← resolve_fn n j fn; resolve_fns n (suc j) fns

-- The initializer of a global, NULL for any other item.
unfoldable pub resolve_item : ℕ → Item → Check Typed
unfolding resolve_struct resolve_fn owned resolve_global resolve_fns enter
resolve_item n (struct_item pos name fs) = do _ ← resolve_struct n name; pure null
resolve_item n (enum_item pos name base ms) = pure null
resolve_item n (fn_item pos fn) = do _ ← resolve_fn n 0 fn; pure null
resolve_item n (global_item pos is_mut t name init) =
    owned name (declares_global n) (enter init) (λ i. resolve_global i pos t init)
resolve_item n (extern_item pos abi fns) = do _ ← resolve_fns n 0 fns; pure null

unfoldable pub resolve_program : ℕ → List (Option Item) → Check (List Typed)
unfolding resolve_item
resolve_program n [] = pure []
resolve_program n (none ∷ is) = do ys ← resolve_program (suc n) is; pure (null ∷ ys)
resolve_program n (some i ∷ is) = do
  y ← resolve_item n i
  ys ← resolve_program (suc n) is
  pure (y ∷ ys)

-- The parameters enter the function's outermost scope.
unfoldable pub declare_params : List Param → List TyRef → Check (Unit {0})
unfolding declare_new
declare_params [] rs = skip
declare_params (p ∷ ps) [] = skip
declare_params (p ∷ ps) (r ∷ rs) = do
  _ ← declare_new (record (sym_new SymKind.param p.name p.pos) { type = some r; is_mut = p.is_mut })
  declare_params ps rs

-- A function that returns a value must not fall off its end.
unfoldable pub check_falls : Sym → FnDecl → Check (Unit {0})
unfolding block_diverges
check_falls sym fn = elim sym.type as (λ (_ : Option TyRef). Check (Unit {0})) [
  | none ↦ skip
  | some r ↦ do
    t ← ty r
    if not (is_kind t.kind TyKind.void) && (not (is_poison t) && not (block_diverges fn.body))
        then error fn.pos
        else skip
]

-- The parameters and the body.
unfoldable pub check_body : Sym → FnDecl → Check TypedStmts
unfolding declare_params check_block
check_body sym fn = do _ ← declare_params fn.params sym.params; check_block fn.body

-- The body of `fn`, whose symbol is the record `i`.
unfoldable pub check_fn : ℕ → FnDecl → Check TypedStmts
unfolding scoped check_body check_falls
check_fn i fn = if not fn.has_body then pure TypedStmts.stop else do
  sym ← sym_at i
  _ ← put (λ s. record s { cur_fn = some i; loop_depth = 0 })
  b ← scoped (check_body sym fn)
  _ ← check_falls sym fn
  _ ← put (λ s. record s { cur_fn = none })
  pure b

unfoldable pub check_item : ℕ → Item → Check TypedStmts
unfolding owned check_fn
check_item n (fn_item pos fn) = owned fn.name (declares_fn n 0) TypedStmts.stop (λ i. check_fn i fn)
check_item n _ = pure TypedStmts.stop

unfoldable pub check_program : ℕ → List (Option Item) → Check (List TypedStmts)
unfolding check_item
check_program n [] = pure []
check_program n (none ∷ is) = do ys ← check_program (suc n) is; pure (TypedStmts.stop ∷ ys)
check_program n (some i ∷ is) = do y ← check_item n i; ys ← check_program (suc n) is; pure (y ∷ ys)

-- A pass over all files, each numbered behind those before it.
unfoldable pub each_program {ℓ} :
    {A : Type ℓ}
    → (ℕ → List (Option Item) → Check A)
    → ℕ
    → List (List (Option Item))
    → Check (List A)
each_program pass n [] = pure []
each_program pass n (p ∷ ps) = do
  y ← pass n p
  ys ← each_program pass (n + length p) ps
  pure (y ∷ ys)

-- The items of all files.
abbrev pub all_items : List (List (Option Item)) → List (Option Item)
all_items [] = []
all_items (p ∷ ps) = p ++ all_items ps

-- What the check leaves: the number of errors and the trees.
pub record Checked : Type 0 where
  pub errors : ℕ
  pub inits : List (List Typed)
  pub bodies : List (List TypedStmts)

abbrev pub sema_init : List (Option Item) → Sema
sema_init items = record {
  diag = diag_init;
  types = types_init;
  globals = globals_init;
  scopes = scopes_init;
  cur_fn = none;
  loop_depth = 0;
  syms = [];
  items = items;
}

-- The three passes.
unfoldable pub passes : List (List (Option Item)) → Check Checked
unfolding each_program collect_program resolve_program check_program diag_error_count
passes programs = do
  _ ← each_program collect_program 0 programs
  inits ← each_program resolve_program 0 programs
  bodies ← each_program check_program 0 programs
  errors ← gets (λ s. diag_error_count s.diag)
  pure (record { errors = errors; inits = inits; bodies = bodies })

unfoldable pub sema_check : List (List (Option Item)) → Option Checked
unfolding passes types_init
sema_check programs = elim (passes programs (sema_init (all_items programs))) [
  | none ↦ none
  | some r ↦ some r.1
]
