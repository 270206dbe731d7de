-- ===== src/Sema/Check/Total/Program.antt =====
-- The bodies of a file (src/sema/sema.c): their check returns, and where it reports nothing leaves
-- every expression annotated.
use slop.Base.{
  ℕ, suc, ◌<◌, ◌≡◌, refl, sym, List, [], ◌∷◌, Bool, ◌&&◌, not, arith, if◌then◌else◌, length, Option,
  none, some, ◌∙◌,
}
use slop.Ast.{Param, FnDecl, Item, fn_item, struct_item, enum_item, global_item, extern_item}
use slop.Support.StrView.{StrView}
use slop.Parser.Total.Stmts.{WholeStmts}
use slop.Parser.Total.Items.{WholeItem}
use slop.Sema.Types.{Ty, TyRef, deref}
use slop.Sema.Types.Kind.{TyKind, is_kind}
use slop.Sema.Scope.{Sym}
use slop.Sema.Diverge.{block_diverges}
use slop.Sema.Check.State.{Sema, Check, ◌>>=◌, pure, skip, error, sym_at, ty}
use slop.Sema.Check.Tree.{TypedStmts}
use slop.Sema.Check.Coerce.{is_poison}
use slop.Sema.Check.Stmts.{check_stmts, check_block}
use slop.Sema.Check.Program.{
  owned, declares_fn, declare_params, check_falls, check_body, check_fn, check_item, check_program,
}
use slop.Sema.Check.Ready.{Good, Moves, Runs, Any, Inner-refl}
use slop.Sema.Check.Rules.{
  Runs-map, Runs-Any, Runs-pure, Runs-bind, Runs-gets, Runs-put, Runs-if, skip-Runs,
}
use slop.Sema.Check.Total.Names.{Within, Runs-find_global, Runs-sym_at}
use slop.Sema.Check.Total.Leaves.{report-Runs}
use slop.Sema.Check.Total.Scoped.{scoped-Restores, declare_new-Runs}
use slop.Sema.Check.Total.Blocks.{AllStmts, check_stmts-Runs}

-- The symbol that owns a name, with its number, or none.
pub owned-Runs :
    {A : Type 0} {V W : A → Type 0} (name : StrView) (test : Sym → Bool) (missed : A)
    (m : ℕ → Check A) {s : Sema}
    → Good s
    → V missed
    → W missed
    → ((i : ℕ) → i < length s.syms → Runs V W s (m i s))
    → Runs V W s (owned name test missed m s)
unfolding owned
owned-Runs {A} {V} {W} name test missed m {s} g v w k = Runs-find_global name _ g found
  where
    found :
        (o : Option ℕ)
        → Within (length s.syms) o
        → Runs V W s (
            (elim o as (λ (_ : Option ℕ). Check A) [
              | none ↦ pure missed
              | some i ↦ do sym ← sym_at i; if test sym then m i else pure missed
            ])
              s)
    found none h = Runs-pure g v w
    found (some i) h =
        Runs-sym_at i _ g h (λ sym _. Runs-if (test sym) _ _ (λ _. k i h) (λ _. Runs-pure g v w))

declare_params-Runs :
    (ps : List Param) (rs : List TyRef) {s : Sema}
    → Good s
    → Runs Any Any s (declare_params ps rs s)
unfolding declare_params
declare_params-Runs [] rs g = skip-Runs g
declare_params-Runs (p ∷ ps) [] g = skip-Runs g
declare_params-Runs (p ∷ ps) (r ∷ rs) g =
    Runs-bind Any Any _ _ (declare_new-Runs _ g)
      (λ q u m _ _. Runs-Any (λ a _. tt) (declare_params-Runs ps rs m.good))

check_falls-Runs :
    (sy : Sym) (fn : FnDecl) {s : Sema} → Good s → Runs Any Any s (check_falls sy fn s)
unfolding check_falls
check_falls-Runs sy fn {s} g = by_type sy.type
  where
    by_type :
        (o : Option TyRef)
        → Runs Any Any s (
            (elim o as (λ (_ : Option TyRef). Check (Unit {0})) [
              | none ↦ skip
              | some r ↦ do
                t ← ty r
                if not (is_kind t.kind TyKind.void)
                      && (not (is_poison t) && not (block_diverges fn.body))
                    then error fn.pos
                    else skip
            ])
              s)
    by_type none = skip-Runs g
    by_type (some r) =
        let t : Ty = deref s.types r in
        Runs-gets _ _ (
          report-Runs
            (not (is_kind t.kind TyKind.void)
              && (not (is_poison t) && not (block_diverges fn.body)))
            fn.pos g)

check_body-Runs :
    (sy : Sym) (fn : FnDecl) {s : Sema}
    → Good s
    → WholeStmts fn.body
    → Runs Any AllStmts s (check_body sy fn s)
unfolding check_body check_block
check_body-Runs sy fn g h =
    Runs-bind Any Any _ _ (declare_params-Runs fn.params sy.params g) (λ q u m _ _.
      Runs-map (λ a v. v) (λ a v w _. w)
        (scoped-Restores (check_stmts fn.body) m.good (λ p gp. check_stmts-Runs fn.body gp h)).runs)

-- Another function, outside of loops.
enter-Moves :
    (o : Option ℕ) {s : Sema}
    → (g : Good (record s { cur_fn = o; loop_depth = 0 })) → s.loop_depth ≡ 0
    → Moves s (record s { cur_fn = o; loop_depth = 0 })
enter-Moves o {s} g e = record {
  good = g;
  count = omega arith;
  work = omega arith;
  scopes = Inner-refl s.scopes;
  loop_depth = sym e;
}

leave-Moves : {s : Sema} → Good s → Moves s (record s { cur_fn = none })
leave-Moves {s} g = record {
  good = record { types = g.types; names = g.names; fn = tt };
  count = omega arith;
  work = omega arith;
  scopes = Inner-refl s.scopes;
  loop_depth = refl;
}

check_fn-Runs :
    (i : ℕ) (fn : FnDecl) {s : Sema}
    → Good s
    → s.loop_depth ≡ 0
    → i < length s.syms
    → WholeStmts fn.body
    → Runs Any AllStmts s (check_fn i fn s)
unfolding check_fn
check_fn-Runs i fn {s} g e l h =
    Runs-if (not fn.has_body) _ _ (λ _. Runs-pure g tt tt)
      (λ _. Runs-sym_at i _ g l (λ sy _.
        Runs-put _ _ (enter-Moves (some i) (record { types = g.types; names = g.names; fn = l }) e)
          (Runs-bind Any AllStmts _ _
            (scoped-Restores (check_body sy fn)
              (record { types = g.types; names = g.names; fn = l })
              (λ p gp. check_body-Runs sy fn gp h)).runs
            (λ q b m _ w. Runs-bind Any Any _ _ (check_falls-Runs sy fn m.good) (λ q1 u m1 _ _.
              Runs-put _ _ (leave-Moves m1.good)
                (Runs-pure (leave-Moves m1.good).good tt (λ _ _ e0 _. w e0)))))))

check_item-Runs :
    (n : ℕ) (it : Item) {s : Sema}
    → Good s
    → s.loop_depth ≡ 0
    → WholeItem it
    → Runs Any AllStmts s (check_item n it s)
unfolding check_item
check_item-Runs n (fn_item pos fn) g e h =
    owned-Runs fn.name (declares_fn n 0) TypedStmts.stop _ g tt tt
      (λ i l. check_fn-Runs i fn g e l h.1.1)
check_item-Runs n (struct_item pos name fs) g e h = Runs-pure g tt tt
check_item-Runs n (enum_item pos name k ms) g e h = Runs-pure g tt tt
check_item-Runs n (global_item pos m t name init) g e h = Runs-pure g tt tt
check_item-Runs n (extern_item pos abi fns) g e h = Runs-pure g tt tt

-- Items with no child missing.
abbrev pub WholeFile : List (Option Item) → Type 0
WholeFile [] = Unit {0}
WholeFile (none ∷ is) = WholeFile is
WholeFile (some it ∷ is) = WholeItem it × WholeFile is

abbrev pub AllBodies : List TypedStmts → Type 0
AllBodies [] = Unit {0}
AllBodies (b ∷ bs) = AllStmts b × AllBodies bs

pub check_program-Runs :
    (n : ℕ) (is : List (Option Item)) {s : Sema}
    → Good s
    → s.loop_depth ≡ 0
    → WholeFile is
    → Runs Any AllBodies s (check_program n is s)
unfolding check_program
check_program-Runs n [] g e h = Runs-pure g tt tt
check_program-Runs n (none ∷ is) g e h =
    Runs-bind Any AllBodies _ _ (check_program-Runs (suc n) is g e h)
      (λ q ys m _ w. Runs-pure m.good tt (λ e0. (tt, w e0)))
check_program-Runs n (some it ∷ is) g e h =
    Runs-bind Any AllStmts _ _ (check_item-Runs n it g e h.0) (λ q y m _ w.
      Runs-bind Any AllBodies _ _ (check_program-Runs (suc n) is m.good (m.loop_depth ∙ e) h.1)
        (λ q1 ys m1 _ w1. Runs-pure m1.good tt (λ e1 e0. (w e0, w1 e1))))
