-- ===== src/Parser/Total/Progress.antt =====
-- The round of a list with recovery (src/parser/parser.c): an element, the recovery where it failed,
-- and the guard that takes a token where neither did.
use slop.Base.{
  ℕ, ◌≤◌, ◌<◌, ◌≡◌, ◌∙◌, List, [], ◌∷◌, Bool, false, ◌==◌, if◌then◌else◌, arith, if_both, length,
}
use slop.Lexer.Kind.{TokenKind, kind_eq}
use slop.Lexer.State.{Token}
use slop.Parser.State.{Parser, Parse, ◌>>=◌, done, head, cur, left, moved}
use slop.Parser.Stmts.{make_progress}
use slop.Parser.Runs.{
  Closed, IsReady, Moves, Runs, Then, Any, Moves-refl, Moves-trans, Runs-pure, Runs-after, Runs-map,
  Runs-bind, moved-Advanced,
}
use slop.Parser.Rules.{Runs-if, Runs-left, carry}

-- With two tokens left the first one is not the end of file.
not_last : {p : Parser} → IsReady p → 2 ≤ length p.toks → kind_eq (cur p) TokenKind.eof ≡ false
not_last {p} r h = by_list p.toks r.closed h
  where
    by_list :
        (ts : List Token) → Closed ts → 2 ≤ length ts → kind_eq (head ts).kind TokenKind.eof ≡ false
    by_list [] c h = elim c [ ]
    by_list (t ∷ []) c h = absurd (omega (arith, h))
    by_list (t ∷ u ∷ ts) c h = c.0

-- Whatever came before it, the guard leaves fewer tokens than the round began with.
pub Runs-progress :
    {A : Type 0} {W : A → Type 0} {p : Parser} (before : ℕ) (f : Parse A)
    → IsReady p
    → length p.toks ≤ before
    → 2 ≤ before
    → ((q : Parser) → Moves p q → length q.toks < before → Runs (Then p q W) q (f q))
    → Runs W p ((make_progress before >>= λ _. f) p)
unfolding ◌>>=◌ make_progress
Runs-progress {A} {W} {p} before f r l two k =
    if_both (λ (g : Parse (Unit {0})). Runs W p (carry (g p) (λ _. f))) (length p.toks == before)
      (λ e.
        let a = moved-Advanced r (not_last r (ground (arith, e, two))) in
        Runs-after a.moves (k (moved p) a.moves (omega (arith, l, a.strict))))
      (λ e. Runs-after (Moves-refl r) (k p (Moves-refl r) (ground (arith, e, l))))

pub Runs-round :
    {A C : Type 0} {W : A → Type 0} {p : Parser} (V : C → Type 0) (m : Parse C) (failed : C → Bool)
    (sync : Parse (Unit {0})) (f : C → Parse A)
    → 2 ≤ length p.toks
    → Runs V p (m p)
    → ((q : Parser) → IsReady q → Runs Any q (sync q))
    → ((q : Parser) (c : C)
        → Moves p q
        → length q.toks < length p.toks
        → (q.diag.count ≡ p.diag.count → V c)
        → Runs (Then p q W) q (f c q))
    → Runs W p (
        (left >>= λ before.
        m >>= λ c. (if failed c then sync else done) >>= λ _. make_progress before >>= λ _. f c)
          p)
Runs-round {W = W} {p} V m failed sync f two r s k = Runs-left _ (
    Runs-bind V m _ r (λ q1 c m1 v.
      Runs-bind Any (if failed c then sync else done) _
        (Runs-if (failed c) sync done (λ _. s q1 m1.ready) (λ _. Runs-pure m1.ready tt))
        (λ q2 u m2 _.
          Runs-progress (length p.toks) (f c) m2.ready (omega (arith, m1.shorter, m2.shorter)) two
            (λ q3 m3 l.
              Runs-map (λ a w e3 e2 e1. w (e3 ∙ e2 ∙ e1))
                (k q3 c (Moves-trans m1 (Moves-trans m2 m3)) l
                  (λ e. v (omega (arith, e, m1.count, m2.count, m3.count))))))))
