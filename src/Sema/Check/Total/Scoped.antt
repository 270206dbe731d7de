-- ===== src/Sema/Check/Total/Scoped.antt =====
-- The brackets of a block and of a loop (src/sema/sema.c): what is opened is closed.
use slop.Base.{ℕ, ◌+◌, ◌-◌, ◌≡◌, refl, sym, ap, ◌∙◌, List, [], ◌∷◌, ◌++◌, arith, length, Option}
use slop.Sema.Scope.{Sym, Scopes, scope_push, scope_pop, scope_declare, scope_find_current}
use slop.Sema.Scope.Shadow.{inside, scope_pop-inside}
use slop.Sema.Check.State.{Sema, Check, ◌>>=◌, scoped, declare}
use slop.Sema.Check.Stmts.{in_loop, declare_new}
use slop.Sema.Check.Ready.{Good, Runs, Any, Inner, Inner-refl}
use slop.Sema.Check.Rules.{Runs-gets, Runs-option, Runs-error, note-Runs}

-- The step `o` from `s` returns, with the scopes as they were.
pub record Restores {A : Type 0} (V W : A → Type 0) (s : Sema) (o : Option (Sema × A))
    : Type 0 where
  pub runs : Runs V W s o
  pub scopes : runs.next.scopes ≡ s.scopes

pop-inside :
    (sc b : Scopes) (added : List Sym)
    → b.marks ≡ sc.marks ++ (length sc.syms ∷ [])
    → b.syms ≡ sc.syms ++ added
    → scope_pop b ≡ sc
pop-inside sc b added m y = ap scope_pop (same b.syms b.marks m y) ∙ scope_pop-inside sc added
  where
    same :
        (syms : List Sym) (marks : List ℕ)
        → marks ≡ sc.marks ++ (length sc.syms ∷ [])
        → syms ≡ sc.syms ++ added
        → (record { syms = syms; marks = marks }) ≡ inside sc added
    same syms marks e f = rw (e, f) refl

pop-push : (sc b : Scopes) → Inner (scope_push sc) b → scope_pop b ≡ sc
unfolding scope_push
pop-push sc b i = pop-inside sc b i.added i.marks i.syms

same-Inner : (a b : Scopes) → b ≡ a → Inner a b
same-Inner a b e = rw e (Inner-refl a)

module _ {A : Type 0} {V W : A → Type 0} {s : Sema} where
  pub scoped-Restores :
      (m : Check A)
      → Good s
      → ((q : Sema) → Good q → Runs V W q (m q))
      → Restores V W s (scoped m s)
  unfolding scoped ◌>>=◌
  scoped-Restores m g k =
      let q : Sema = record s { scopes = scope_push s.scopes } in
      let gq : Good q = record { types = g.types; names = g.names; fn = g.fn } in
      let r = k q gq in
      let back = pop-push s.scopes r.next.scopes r.moves.scopes in
      record {
        runs = record {
          next = record (r.next) { scopes = scope_pop r.next.scopes };
          result = r.result;
          run = rw (r.run, scoped, ◌>>=◌) refl;
          moves = record {
            good = record {
              types = r.moves.good.types;
              names = r.moves.good.names;
              fn = r.moves.good.fn;
            };
            count = r.moves.count;
            work = r.moves.work;
            scopes = same-Inner s.scopes _ back;
            loop_depth = r.moves.loop_depth;
          };
          always = r.always;
          clean = r.clean;
        };
        scopes = back;
      }

  pub in_loop-Runs :
      (m : Check A) → Good s → ((q : Sema) → Good q → Runs V W q (m q)) → Runs V W s (in_loop m s)
  unfolding in_loop ◌>>=◌
  in_loop-Runs m g k =
      let q : Sema = record s { loop_depth = s.loop_depth + 1 } in
      let gq : Good q = record { types = g.types; names = g.names; fn = g.fn } in
      let r = k q gq in
      record {
        next = record (r.next) { loop_depth = r.next.loop_depth - 1 };
        result = r.result;
        run = rw (r.run, in_loop, ◌>>=◌) refl;
        moves = record {
          good = record {
            types = r.moves.good.types;
            names = r.moves.good.names;
            fn = r.moves.good.fn;
          };
          count = r.moves.count;
          work = r.moves.work;
          scopes = r.moves.scopes;
          loop_depth = omega (arith, r.moves.loop_depth);
        };
        always = r.always;
        clean = r.clean;
      }

declare-Runs : (sym : Sym) {s : Sema} → Good s → Runs Any Any s (declare sym s)
unfolding scope_declare
declare-Runs sym {s} g = record {
  next = _;
  result = _;
  run = refl;
  moves = record {
    good = record { types = g.types; names = g.names; fn = g.fn };
    count = omega arith;
    work = omega arith;
    scopes = record { marks = refl; added = sym ∷ []; syms = refl };
    loop_depth = refl;
  };
  always = tt;
  clean = λ _. tt;
}

pub declare_new-Runs : (sym : Sym) {s : Sema} → Good s → Runs Any Any s (declare_new sym s)
unfolding declare_new
declare_new-Runs sym {s} g = Runs-gets _ _ (
    Runs-option (scope_find_current s.scopes sym.name) _ _ (λ _. declare-Runs sym g)
      (λ old _. Runs-error sym.pos _ g (λ q m up. note-Runs old.pos m.good)))
