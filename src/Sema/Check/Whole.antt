-- ===== src/Sema/Check/Whole.antt =====
-- Trees of bounded depth with no child missing and the grammar's unary operators, and trees that
-- are annotated throughout (the checker's tree of src/ast/ast.h). A check does not look below a
-- conversion.
use slop.Base.{ℕ, zero, suc, ◌≤◌, ◌≡◌, true, max, arith}
use slop.Ast.{Expr, Exprs}
use slop.Parser.Exprs.{is_prefix}
use slop.Parser.Total.Exprs.{WholeExpr, WholeArgs}
use slop.Sema.Check.Tree.{
  Typed, null, node, Shape, TypedArgs, enter, enter_args, height, height_args,
}
use slop.Sema.Check.Ready.{IsSome}

-- The tree is less than `n` deep and has no child missing.
abbrev mutual
  pub Deep : ℕ → Typed → Type 0
  Deep zero e = ⊥
  Deep (suc n) null = ⊥
  Deep (suc n) (node p t x) = DeepShape n x

  pub DeepShape : ℕ → Shape → Type 0
  DeepShape n (Shape.int_lit v) = Unit {0}
  DeepShape n (Shape.char_lit v) = Unit {0}
  DeepShape n (Shape.float_lit v) = Unit {0}
  DeepShape n (Shape.string_lit v) = Unit {0}
  DeepShape n (Shape.bool_lit b) = Unit {0}
  DeepShape n Shape.null_lit = Unit {0}
  DeepShape n (Shape.name v) = Unit {0}
  DeepShape n (Shape.unary op x) = (is_prefix op ≡ true) × Deep n x
  DeepShape n (Shape.binary op l r) = Deep n l × Deep n r
  DeepShape n (Shape.call c es) = DeepArgs n es
  DeepShape n (Shape.index b i) = Deep n b × Deep n i
  DeepShape n (Shape.field b v) = Deep n b
  DeepShape n (Shape.cast x t) = Deep n x
  DeepShape n (Shape.size_of t) = Unit {0}
  DeepShape n (Shape.conv x) = Unit {0}

  pub DeepArgs : ℕ → TypedArgs → Type 0
  DeepArgs n TypedArgs.no_args = Unit {0}
  DeepArgs n (TypedArgs.arg x es) = Deep n x × DeepArgs n es

-- Every expression has its type, the callees of calls apart.
abbrev mutual
  pub AllTyped : Typed → Type 0
  AllTyped null = ⊥
  AllTyped (node p t x) = IsSome t × AllShape x

  pub AllShape : Shape → Type 0
  AllShape (Shape.int_lit v) = Unit {0}
  AllShape (Shape.char_lit v) = Unit {0}
  AllShape (Shape.float_lit v) = Unit {0}
  AllShape (Shape.string_lit v) = Unit {0}
  AllShape (Shape.bool_lit b) = Unit {0}
  AllShape Shape.null_lit = Unit {0}
  AllShape (Shape.name v) = Unit {0}
  AllShape (Shape.unary op x) = AllTyped x
  AllShape (Shape.binary op l r) = AllTyped l × AllTyped r
  AllShape (Shape.call c es) = AllArgs es
  AllShape (Shape.index b i) = AllTyped b × AllTyped i
  AllShape (Shape.field b v) = AllTyped b
  AllShape (Shape.cast x t) = AllTyped x
  AllShape (Shape.size_of t) = Unit {0}
  AllShape (Shape.conv x) = AllTyped x

  pub AllArgs : TypedArgs → Type 0
  AllArgs TypedArgs.no_args = Unit {0}
  AllArgs (TypedArgs.arg x es) = AllTyped x × AllArgs es

-- What stands below a conversion is annotated throughout.
abbrev mutual
  pub Below : Typed → Type 0
  Below null = Unit {0}
  Below (node p t x) = BelowShape x

  pub BelowShape : Shape → Type 0
  BelowShape (Shape.int_lit v) = Unit {0}
  BelowShape (Shape.char_lit v) = Unit {0}
  BelowShape (Shape.float_lit v) = Unit {0}
  BelowShape (Shape.string_lit v) = Unit {0}
  BelowShape (Shape.bool_lit b) = Unit {0}
  BelowShape Shape.null_lit = Unit {0}
  BelowShape (Shape.name v) = Unit {0}
  BelowShape (Shape.unary op x) = Below x
  BelowShape (Shape.binary op l r) = Below l × Below r
  BelowShape (Shape.call c es) = BelowArgs es
  BelowShape (Shape.index b i) = Below b × Below i
  BelowShape (Shape.field b v) = Below b
  BelowShape (Shape.cast x t) = Below x
  BelowShape (Shape.size_of t) = Unit {0}
  BelowShape (Shape.conv x) = AllTyped x

  pub BelowArgs : TypedArgs → Type 0
  BelowArgs TypedArgs.no_args = Unit {0}
  BelowArgs (TypedArgs.arg x es) = Below x × BelowArgs es

mutual
  pub AllTyped→Below : (e : Typed) → AllTyped e → Below e
  AllTyped→Below null h = elim h [ ]
  AllTyped→Below (node p t x) h = AllShape→Below x h.1

  AllShape→Below : (x : Shape) → AllShape x → BelowShape x
  AllShape→Below (Shape.int_lit v) h = tt
  AllShape→Below (Shape.char_lit v) h = tt
  AllShape→Below (Shape.float_lit v) h = tt
  AllShape→Below (Shape.string_lit v) h = tt
  AllShape→Below (Shape.bool_lit b) h = tt
  AllShape→Below Shape.null_lit h = tt
  AllShape→Below (Shape.name v) h = tt
  AllShape→Below (Shape.unary op x) h = AllTyped→Below x h
  AllShape→Below (Shape.binary op l r) h = (AllTyped→Below l h.0, AllTyped→Below r h.1)
  AllShape→Below (Shape.call c es) h = AllArgs→Below es h
  AllShape→Below (Shape.index b i) h = (AllTyped→Below b h.0, AllTyped→Below i h.1)
  AllShape→Below (Shape.field b v) h = AllTyped→Below b h
  AllShape→Below (Shape.cast x t) h = AllTyped→Below x h
  AllShape→Below (Shape.size_of t) h = tt
  AllShape→Below (Shape.conv x) h = h

  AllArgs→Below : (es : TypedArgs) → AllArgs es → BelowArgs es
  AllArgs→Below TypedArgs.no_args h = tt
  AllArgs→Below (TypedArgs.arg x es) h = (AllTyped→Below x h.0, AllArgs→Below es h.1)

mutual
  unfolding enter

  pub enter-Below : (e : Expr) → WholeExpr e → Below (enter e)
  enter-Below Expr.missing h = elim h [ ]
  enter-Below (Expr.int_lit p n) h = tt
  enter-Below (Expr.char_lit p n) h = tt
  enter-Below (Expr.float_lit p t) h = tt
  enter-Below (Expr.string_lit p t) h = tt
  enter-Below (Expr.bool_lit p b) h = tt
  enter-Below (Expr.null_lit p) h = tt
  enter-Below (Expr.name p n) h = tt
  enter-Below (Expr.unary p op x) h = enter-Below x h.1
  enter-Below (Expr.binary p op l r) h = (enter-Below l h.0, enter-Below r h.1)
  enter-Below (Expr.call p c es) h = enter_args-Below es h.1
  enter-Below (Expr.index p b i) h = (enter-Below b h.0, enter-Below i h.1)
  enter-Below (Expr.field p b n) h = enter-Below b h
  enter-Below (Expr.cast p x t) h = enter-Below x h.0
  enter-Below (Expr.size_of p t) h = tt
  enter-Below (Expr.conv p x) h = elim h [ ]

  enter_args-Below : (es : Exprs) → WholeArgs es → BelowArgs (enter_args es)
  enter_args-Below Exprs.no_args h = tt
  enter_args-Below (Exprs.arg x es) h = (enter-Below x h.0, enter_args-Below es h.1)

left_max : (a b n : ℕ) → max a b ≤ n → a ≤ n
left_max a b n h = omega arith

right_max : (a b n : ℕ) → max a b ≤ n → b ≤ n
right_max a b n h = omega arith

-- A tree without a missing child is within its height and one more.
mutual
  unfolding enter height

  pub enter-Deep : (e : Expr) (n : ℕ) → WholeExpr e → height (enter e) ≤ n → Deep (suc n) (enter e)
  enter-Deep Expr.missing n h k = elim h [ ]
  enter-Deep (Expr.int_lit p v) n h k = tt
  enter-Deep (Expr.char_lit p v) n h k = tt
  enter-Deep (Expr.float_lit p t) n h k = tt
  enter-Deep (Expr.string_lit p t) n h k = tt
  enter-Deep (Expr.bool_lit p b) n h k = tt
  enter-Deep (Expr.null_lit p) n h k = tt
  enter-Deep (Expr.name p v) n h k = tt
  enter-Deep (Expr.unary p op x) zero h k = elim k [ ]
  enter-Deep (Expr.unary p op x) (suc n) h k = (h.0, enter-Deep x n h.1 (omega (arith, k)))
  enter-Deep (Expr.binary p op l r) zero h k = elim k [ ]
  enter-Deep (Expr.binary p op l r) (suc n) h k = (
    enter-Deep l n h.0 (left_max _ (height (enter r)) n (omega (arith, k))),
    enter-Deep r n h.1 (right_max (height (enter l)) _ n (omega (arith, k))),
  )
  enter-Deep (Expr.call p c es) zero h k = elim k [ ]
  enter-Deep (Expr.call p c es) (suc n) h k = enter_args-Deep es n h.1 (omega (arith, k))
  enter-Deep (Expr.index p b i) zero h k = elim k [ ]
  enter-Deep (Expr.index p b i) (suc n) h k = (
    enter-Deep b n h.0 (left_max _ (height (enter i)) n (omega (arith, k))),
    enter-Deep i n h.1 (right_max (height (enter b)) _ n (omega (arith, k))),
  )
  enter-Deep (Expr.field p b v) zero h k = elim k [ ]
  enter-Deep (Expr.field p b v) (suc n) h k = enter-Deep b n h (omega (arith, k))
  enter-Deep (Expr.cast p x t) zero h k = elim k [ ]
  enter-Deep (Expr.cast p x t) (suc n) h k = enter-Deep x n h.0 (omega (arith, k))
  enter-Deep (Expr.size_of p t) n h k = tt
  enter-Deep (Expr.conv p x) n h k = elim h [ ]

  enter_args-Deep :
      (es : Exprs) (n : ℕ)
      → WholeArgs es
      → height_args (enter_args es) ≤ n
      → DeepArgs (suc n) (enter_args es)
  enter_args-Deep Exprs.no_args n h k = tt
  enter_args-Deep (Exprs.arg x es) n h k = (
    enter-Deep x n h.0 (left_max _ (height_args (enter_args es)) n k),
    enter_args-Deep es n h.1 (right_max (height (enter x)) _ n k),
  )
