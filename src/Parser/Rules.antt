-- ===== src/Parser/Rules.antt =====
-- The rules of `Runs`, one for each step of the parser (src/parser/parser.c).
use slop.Base.{
  ℕ, ◌+◌, ◌-◌, ◌<◌, ◌≤◌, ◌≡◌, refl, Bool, true, false, arith, leb, if◌then◌else◌, if_both, length,
  Option, none, some,
}
use slop.Lexer.Kind.{TokenKind, kind_eq}
use slop.Lexer.State.{Token}
use slop.Support.Diag.{SrcPos}
use slop.Support.StrView.{StrView}
use slop.Parser.State.{
  Parser, Parse, ◌>>=◌, ◌>>◌, pure, head, cur, moved, advance, accept, reported, error_unexpected,
  peek, here, left, at, expect, expect_ident, nested, limited, max_nesting, pos_of,
}
use slop.Parser.Runs.{
  IsReady, Moves, Runs, Then, Runs-pure, Runs-after, Runs-void, Any, moved-Advanced, reported-Moves,
}

-- Two kinds with different numbers: a token of one is not of the other.
pub other_kind :
    (a k e : TokenKind) → kind_eq a k ≡ true → kind_eq k e ≡ false → kind_eq a e ≡ false
other_kind a k e h n = ground arith

-- How a parse goes on with the outcome of its first step.
abbrev pub carry : {A C : Type 0} → Option (Parser × C) → (C → Parse A) → Option (Parser × A)
carry o f = elim o [ none ↦ none | some r ↦ f r.1 r.0 ]

-- An element that is there and satisfies `W`.
abbrev pub WholeSome : {A : Type 0} → (A → Type 0) → Option A → Type 0
WholeSome W none = ⊥
WholeSome W (some a) = W a

module _ {A : Type 0} {W : A → Type 0} {p : Parser} where
  pub Runs-peek : (f : TokenKind → Parse A) → Runs W p (f (cur p) p) → Runs W p ((peek >>= f) p)
  unfolding ◌>>=◌
  Runs-peek f r = r

  pub Runs-here :
      (f : SrcPos → Parse A) → Runs W p (f (pos_of (head p.toks)) p) → Runs W p ((here >>= f) p)
  unfolding ◌>>=◌
  Runs-here f r = r

  pub Runs-left : (f : ℕ → Parse A) → Runs W p (f (length p.toks) p) → Runs W p ((left >>= f) p)
  unfolding ◌>>=◌
  Runs-left f r = r

  pub Runs-at :
      (kind : TokenKind) (f : Bool → Parse A)
      → Runs W p (f (kind_eq (cur p) kind) p)
      → Runs W p ((at kind >>= f) p)
  unfolding ◌>>=◌
  Runs-at kind f r = r

  -- A conditional, each branch under its test.
  pub Runs-if :
      (b : Bool) (m n : Parse A)
      → (b ≡ true → Runs W p (m p))
      → (b ≡ false → Runs W p (n p))
      → Runs W p ((if b then m else n) p)
  Runs-if b m n x y = if_both (λ (k : Parse A). Runs W p (k p)) b x y

  -- An optional result: `X` is what the element is owed under.
  pub Runs-option :
      {C : Type 0} {X : Type 0} (V : C → Type 0) (o : Option C) (m : Parse A) (f : C → Parse A)
      → (X → WholeSome V o)
      → ((X → ⊥) → Runs W p (m p))
      → ((c : C) → (X → V c) → Runs W p (f c p))
      → Runs W p ((elim o as (λ (_ : Option C). Parse A) [ none ↦ m | some c ↦ f c ]) p)
  Runs-option V none m f v x y = x v
  Runs-option V (some c) m f v x y = y c v

  -- The parse of a token that was looked at: `k` is what the rest does with it.
  pub Runs-advance :
      (f : Token → Parse A)
      → IsReady p
      → kind_eq (cur p) TokenKind.eof ≡ false
      → ((q : Parser)
          → Moves p q
          → length q.toks < length p.toks
          → Runs (Then p q W) q (f (head p.toks) q))
      → Runs W p ((advance >>= f) p)
  unfolding ◌>>=◌
  Runs-advance f r h k =
      let a = moved-Advanced r h in Runs-after a.moves (k (moved p) a.moves a.strict)

  pub Runs-accept :
      (kind : TokenKind) (f : Bool → Parse A)
      → kind_eq kind TokenKind.eof ≡ false
      → IsReady p
      → ((q : Parser) → Moves p q → length q.toks < length p.toks → Runs (Then p q W) q (f true q))
      → Runs W p (f false p)
      → Runs W p ((accept kind >>= f) p)
  unfolding ◌>>=◌ accept
  Runs-accept kind f h r taken missed =
      if_both (λ o. Runs W p (carry o f)) (kind_eq (cur p) kind)
        (λ e.
          let a = moved-Advanced r (other_kind (cur p) kind TokenKind.eof e h) in
          Runs-after a.moves (taken (moved p) a.moves a.strict))
        (λ _. missed)

  pub Runs-expect :
      (kind : TokenKind) (f : Bool → Parse A)
      → kind_eq kind TokenKind.eof ≡ false
      → IsReady p
      → ((q : Parser) → Moves p q → length q.toks < length p.toks → Runs (Then p q W) q (f true q))
      → ((q : Parser) → Moves p q → p.diag.count < q.diag.count → Runs Any q (f false q))
      → Runs W p ((expect kind >>= f) p)
  unfolding ◌>>=◌ expect
  Runs-expect kind f h r taken missed =
      if_both (λ o. Runs W p (carry o f)) (kind_eq (cur p) kind)
        (λ e.
          let a = moved-Advanced r (other_kind (cur p) kind TokenKind.eof e h) in
          Runs-after a.moves (taken (moved p) a.moves a.strict))
        (λ _.
          let (m, up) = reported-Moves r in
          Runs-after m (Runs-void p up (missed (reported p) m up)))

  -- A token that is expected and then forgotten.
  pub Runs-expect_any :
      (kind : TokenKind) (f : Parse A)
      → kind_eq kind TokenKind.eof ≡ false
      → IsReady p
      → ((q : Parser) → Moves p q → Runs (Then p q W) q (f q))
      → Runs W p ((expect kind >>= λ _. f) p)
  unfolding ◌>>=◌ expect
  Runs-expect_any kind f h r k =
      if_both (λ (o : Option (Parser × Bool)). Runs W p (carry o (λ _. f))) (kind_eq (cur p) kind)
        (λ e.
          let a = moved-Advanced r (other_kind (cur p) kind TokenKind.eof e h) in
          Runs-after a.moves (k (moved p) a.moves))
        (λ _. let (m, up) = reported-Moves r in Runs-after m (k (reported p) m))

  pub Runs-ident :
      (f : Option StrView → Parse A)
      → IsReady p
      → ((q : Parser) (name : StrView)
          → Moves p q
          → length q.toks < length p.toks
          → Runs (Then p q W) q (f (some name) q))
      → ((q : Parser) → Moves p q → p.diag.count < q.diag.count → Runs Any q (f none q))
      → Runs W p ((expect_ident >>= f) p)
  unfolding ◌>>=◌ expect_ident
  Runs-ident f r taken missed =
      if_both (λ o. Runs W p (carry o f)) (kind_eq (cur p) TokenKind.ident)
        (λ e.
          let a = moved-Advanced r (other_kind (cur p) TokenKind.ident TokenKind.eof e refl) in
          Runs-after a.moves (taken (moved p) _ a.moves a.strict))
        (λ _.
          let (m, up) = reported-Moves r in
          Runs-after m (Runs-void p up (missed (reported p) m up)))

  pub Runs-error :
      (f : Parse A)
      → IsReady p
      → ((q : Parser) → Moves p q → p.diag.count < q.diag.count → Runs Any q (f q))
      → Runs W p ((error_unexpected >> f) p)
  unfolding ◌>>=◌
  Runs-error f r k =
      let (m, up) = reported-Moves r in Runs-after m (Runs-void p up (k (reported p) m up))

  -- An error and no result.
  pub Runs-fail : (a : A) → IsReady p → Runs W p ((error_unexpected >> pure a) p)
  Runs-fail a r = Runs-error (pure a) r (λ q m up. Runs-pure m.ready tt)

  pub Runs-limited :
      (missing : A) (m : Parse A)
      → IsReady p
      → ((q : Parser) → IsReady q → length q.toks ≤ length p.toks → Runs W q (m q))
      → Runs W p (limited missing m p)
  unfolding limited nested
  Runs-limited missing m r k =
      if_both (λ o. Runs W p o) (leb max_nesting p.depth)
        (λ _.
          let (f, up) = reported-Moves r in Runs-after f (Runs-void p up (Runs-pure f.ready tt)))
        inner
    where
      inner : leb max_nesting p.depth ≡ false → Runs W p (nested m p)
      inner e =
          let r' : IsReady (record p { depth = p.depth + 1 }) = record {
            closed = r.closed;
            clean = r.clean;
            depth = ground (arith, e);
          } in
          let s = k (record p { depth = p.depth + 1 }) r' (omega arith) in
          rw (s.run, nested)
            (record {
              next = record s.next { depth = s.next.depth - 1 };
              result = s.result;
              run = refl;
              moves = record {
                ready = record {
                  closed = s.moves.ready.closed;
                  clean = s.moves.ready.clean;
                  depth = omega (arith, s.moves.ready.depth);
                };
                shorter = s.moves.shorter;
                depth = omega (arith, s.moves.depth);
                count = s.moves.count;
                reports = s.moves.reports;
              };
              whole = s.whole;
            })

-- A token that may stand there, whichever way it goes.
pub accept-Runs :
    (kind : TokenKind) {p : Parser}
    → kind_eq kind TokenKind.eof ≡ false
    → IsReady p
    → Runs Any p (accept kind p)
unfolding accept
accept-Runs kind {p} h r =
    if_both (λ (o : Option (Parser × Bool)). Runs Any p o) (kind_eq (cur p) kind)
      (λ e.
        let a = moved-Advanced r (other_kind (cur p) kind TokenKind.eof e h) in
        Runs-after a.moves (Runs-pure a.moves.ready (λ _. tt)))
      (λ _. Runs-pure r tt)
