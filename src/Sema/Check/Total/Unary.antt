-- ===== src/Sema/Check/Total/Unary.antt =====
-- The rules of the unary operators (src/sema/sema.c) return.
use slop.Base.{◌≡◌, true, ◌&&◌, not, if◌then◌else◌, length, if_both, arith, refl}
use slop.Support.Diag.{SrcPos}
use slop.Sema.Types.{Ty, TyRef, deref}
use slop.Sema.Types.Kind.{TyKind, is_kind, ty_is_integer, ty_is_bool, ty_is_numeric, ty_is_signed}
use slop.Sema.Convert.{is_integerish}
use slop.Sema.Check.State.{Sema, Check, ◌>>=◌, pure, ty, fails, follow}
use slop.Sema.Check.Tree.{Typed}
use slop.Sema.Check.Coerce.{is_lvalue, is_poison}
use slop.Sema.Check.Ops.{
  is_ptr, unless_poison, check_negate, check_tilde, check_bang, check_star, check_address,
}
use slop.Sema.Check.Ready.{Good, Runs, Any, points, Sound}
use slop.Sema.Check.Rules.{
  Runs-pure, Runs-gets, Runs-if, Runs-follow, Runs-Never, core-Runs, fails-Runs,
}
use slop.Sema.Check.Total.Types.{ptr_to-Runs}

-- The unary operators.
module _ (pos : SrcPos) (t : TyRef) {s : Sema} (g : Good s) where
  unless_poison-Runs :
      (k : Ty → Check TyRef)
      → Runs Any Any s (k (deref s.types t) s)
      → Runs Any Any s (unless_poison t k s)
  unless_poison-Runs k r =
      Runs-gets _ _ (Runs-if (is_poison (deref s.types t)) _ _ (λ _. Runs-pure g tt tt) (λ _. r))

  pub fails-Runs-Any : Runs Any Any s (fails pos s)
  fails-Runs-Any = Runs-Never (fails-Runs pos g)

  pub check_negate-Runs : Runs Any Any s (check_negate pos t s)
  unfolding check_negate
  check_negate-Runs =
      let d : Ty = deref s.types t in
      unless_poison-Runs _ (
        Runs-if (not (ty_is_numeric d.kind)) _ _ (λ _. fails-Runs-Any)
          (λ _.
            Runs-if (ty_is_integer d.kind && not (ty_is_signed d.kind)) _ _ (λ _. fails-Runs-Any)
              (λ _. Runs-pure g tt tt)))

  pub check_tilde-Runs : Runs Any Any s (check_tilde pos t s)
  unfolding check_tilde
  check_tilde-Runs = unless_poison-Runs _ (
      Runs-if (not (is_integerish (deref s.types t))) _ _ (λ _. fails-Runs-Any)
        (λ _. Runs-pure g tt tt))

  pub check_bang-Runs : Runs Any Any s (check_bang pos t s)
  unfolding check_bang
  check_bang-Runs =
      let d : Ty = deref s.types t in
      unless_poison-Runs _ (
        Runs-if (not (ty_is_bool d.kind) && not (is_kind d.kind TyKind.untyped_bool)) _ _
          (λ _. fails-Runs-Any) (λ _. core-Runs TyKind.untyped_bool refl g))

  -- What a pointer points to, unless it is `void`.
  pub pointee-Runs :
      (d : Ty)
      → Sound (length s.items) d
      → points d.kind ≡ true
      → Runs Any Any s (
          (do
            elem ← follow d.elem
            to ← ty elem
            if is_kind to.kind TyKind.void then fails pos else pure elem)
            s)
  pointee-Runs d h k = Runs-follow d.elem _ (h.elem k) (λ elem _. Runs-gets _ _ (
      Runs-if (is_kind (deref s.types elem).kind TyKind.void) _ _ (λ _. fails-Runs-Any)
        (λ _. Runs-pure g tt tt)))

  pub check_star-Runs : Runs Any Any s (check_star pos t s)
  unfolding check_star
  check_star-Runs =
      let d : Ty = deref s.types t in
      unless_poison-Runs _ (
        if_both (λ (m : Check TyRef). Runs Any Any s (m s)) (not (is_ptr d)) (λ _. fails-Runs-Any)
          (λ e. pointee-Runs d (g.types.sound t) (ground (arith, e))))

  pub check_address-Runs : (e : Typed) → Runs Any Any s (check_address pos e t s)
  unfolding check_address
  check_address-Runs e =
      unless_poison-Runs _
        (Runs-if (not (is_lvalue e)) _ _ (λ _. fails-Runs-Any) (λ _. ptr_to-Runs t g))
