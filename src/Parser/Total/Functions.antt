-- ===== src/Parser/Total/Functions.antt =====
-- Functions, and the lists between braces (src/parser/parser.c).
use slop.Base.{
  ℕ, zero, suc, ◌≤◌, refl, List, [], ◌∷◌, Bool, true, false, ◌||◌, arith, length, Option, none,
  some,
}
use slop.Ast.{Stmts, Syntax, Param, FnDecl}
use slop.Lexer.Kind.{TokenKind, kind_eq}
use slop.Support.Diag.{SrcPos}
use slop.Support.StrView.{StrView}
use slop.Parser.State.{Parser, Parse, cur, done, error_at}
use slop.Parser.Recover.{sync_member}
use slop.Parser.Stmts.{is_none, is_null_type, parse_stmt}
use slop.Parser.Items.{
  typed_name, params_loop, parse_params, parse_ret, parse_fn_end, parse_fn_tail, parse_fn_decl,
  kept, members_loop, members,
}
use slop.Parser.Runs.{
  IsReady, Runs, Any, Runs-pure, Runs-after, Runs-map, Runs-bind, Runs-void, some_token, two_tokens,
  reported_at-Moves,
}
use slop.Parser.Rules.{
  WholeSome, Runs-peek, Runs-here, Runs-left, Runs-at, Runs-if, Runs-option, Runs-advance,
  Runs-accept, Runs-expect, Runs-expect_any, Runs-ident, accept-Runs, other_kind,
}
use slop.Parser.Total.Types.{WholeType, null_type-not_whole, parse_type-Runs}
use slop.Parser.Total.Recover.{sync_member-Runs}
use slop.Parser.Total.Progress.{Runs-round}
use slop.Parser.Total.Stmts.{WholeStmts}
use slop.Parser.Total.Control.{parse_block-Runs}
use slop.Parser.Total.Match.{parse_stmt-Runs}

abbrev pub Each : {A : Type 0} → (A → Type 0) → List A → Type 0
Each W [] = Unit {0}
Each W (x ∷ xs) = W x × Each W xs

abbrev pub WholeParam : Param → Type 0
WholeParam prm = WholeType prm.type

abbrev pub WholeFn : FnDecl → Type 0
WholeFn d = Each WholeParam d.params × (WholeType d.ret × WholeStmts d.body)

pub kept-Whole :
    {A : Type 0} (W : A → Type 0) (o : Option A) (xs : List A)
    → WholeSome W o
    → Each W xs
    → Each W (kept o xs)
kept-Whole W none xs w ws = ws
kept-Whole W (some x) xs w ws = (w, ws)

module _ {A : Type 0} (W : A → Type 0) (member : Parse (Option A))
    (h : (p : Parser) → IsReady p → Runs (WholeSome W) p (member p)) where
  members_loop-Runs :
      (f : ℕ) {p : Parser}
      → IsReady p
      → length p.toks ≤ f
      → Runs (Each W) p (members_loop member f p)
  unfolding members_loop
  members_loop-Runs zero r k = absurd (omega (arith, k, some_token r))
  members_loop-Runs (suc f) {p} r k = Runs-peek _ (
      Runs-if (kind_eq (cur p) TokenKind.rbrace || kind_eq (cur p) TokenKind.eof) _ _
        (λ _. Runs-pure r tt)
        (λ e.
          Runs-round (WholeSome W) member is_none sync_member _ (two_tokens r (ground (arith, e)))
            (h p r) (λ q r'. sync_member-Runs r')
            (λ q o m u w.
              Runs-bind (Each W) _ _ (members_loop-Runs f m.ready (omega (arith, k, u)))
                (λ q1 xs m1 w1. Runs-pure m1.ready (λ e1 e0. kept-Whole W o xs (w e0) (w1 e1))))))

  pub members-Runs : {p : Parser} → IsReady p → Runs (Each W) p (members member p)
  unfolding members
  members-Runs {p} r = Runs-left _ (
      Runs-bind (Each W) _ _ (members_loop-Runs (length p.toks) r (omega arith)) (λ q xs m w.
        Runs-expect_any TokenKind.rbrace _ refl m.ready
          (λ q1 m1. Runs-pure m1.ready (λ _ e0. w e0))))

abbrev pub WholeTyped : Syntax × StrView → Type 0
WholeTyped (t, name) = WholeType t

pub typed_name-Runs : {p : Parser} → IsReady p → Runs (WholeSome WholeTyped) p (typed_name p)
unfolding typed_name
typed_name-Runs r = Runs-bind WholeType _ _ (parse_type-Runs r) (λ q t m w.
    Runs-if (is_null_type t) _ _ (λ x. Runs-pure m.ready (λ e. null_type-not_whole t x (w e)))
      (λ _.
        Runs-ident _ m.ready (λ q1 v m1 s. Runs-pure m1.ready (λ _ e0. w e0))
          (λ q1 m1 up. Runs-pure m1.ready tt)))

abbrev WholeParams : List Param × Bool → Type 0
WholeParams (ps, v) = Each WholeParam ps

error_at-Runs : (pos : SrcPos) {p : Parser} → IsReady p → Runs Any p (error_at pos p)
error_at-Runs pos {p} r =
    let (m, up) = reported_at-Moves pos r in Runs-after m (Runs-void p up (Runs-pure m.ready tt))

params_loop-Runs :
    (is_extern : Bool) (f : ℕ) {p : Parser}
    → IsReady p
    → length p.toks ≤ f
    → Runs (WholeSome WholeParams) p (params_loop is_extern f p)
unfolding params_loop
params_loop-Runs is_extern zero r k = absurd (omega (arith, k, some_token r))
params_loop-Runs is_extern (suc f) {p} r k = Runs-at TokenKind.ellipsis _ (
    Runs-if (kind_eq (cur p) TokenKind.ellipsis) _ _
      (λ e. Runs-here _ (
        Runs-advance _ r (other_kind (cur p) TokenKind.ellipsis TokenKind.eof e refl) (λ q m s.
          Runs-bind Any _ _
            (Runs-if is_extern done (error_at _) (λ _. Runs-pure m.ready tt)
              (λ _. error_at-Runs _ m.ready))
            (λ q1 u m1 _. Runs-pure m1.ready (λ _ _. tt)))))
      (λ _. Runs-here _ (
        Runs-bind Any _ _ (accept-Runs TokenKind.kw_mut refl r) (λ q is_mut m _.
          Runs-bind (WholeSome WholeTyped) _ _ (typed_name-Runs m.ready) (λ q1 o m1 w.
            Runs-option WholeTyped o _ _ w (λ x. Runs-pure m1.ready (λ e1 _. x e1))
              (λ c wc.
                Runs-accept TokenKind.comma _ refl m1.ready
                  (λ q2 m2 s.
                    Runs-bind (WholeSome WholeParams) _ _
                      (params_loop-Runs is_extern f m2.ready
                        (omega (arith, k, s, m.shorter, m1.shorter)))
                      (λ q3 rest m3 w3.
                        Runs-option WholeParams rest _ _ w3
                          (λ x. Runs-pure m3.ready (λ e3 _ _ _. x e3))
                          (λ ps wps. Runs-pure m3.ready (λ e3 _ e1 _. (wc e1, wps e3)))))
                  (Runs-pure m1.ready (λ e1 _. (wc e1, tt)))))))))

parse_params-Runs :
    (is_extern : Bool) {p : Parser}
    → IsReady p
    → Runs (WholeSome WholeParams) p (parse_params is_extern p)
unfolding parse_params
parse_params-Runs is_extern {p} r = Runs-at TokenKind.rparen _ (
    Runs-if (kind_eq (cur p) TokenKind.rparen) _ _ (λ _. Runs-pure r tt)
      (λ _. Runs-left _ (params_loop-Runs is_extern (length p.toks) r (omega arith))))

parse_ret-Runs : (pos : SrcPos) {p : Parser} → IsReady p → Runs WholeType p (parse_ret pos p)
unfolding parse_ret
parse_ret-Runs pos r =
    Runs-accept TokenKind.arrow _ refl r (λ q m s. Runs-map (λ t w _. w) (parse_type-Runs m.ready))
      (Runs-pure r tt)

parse_fn_end-Runs :
    {W : FnDecl → Type 0} (is_extern : Bool) (decl : Bool → Stmts → FnDecl) {p : Parser}
    → IsReady p
    → Runs
        (WholeSome (λ d. ((b : Bool) (ss : Stmts) → WholeStmts ss → W (decl b ss)) → W d))
        p
        (parse_fn_end is_extern decl p)
unfolding parse_fn_end
parse_fn_end-Runs is_extern decl {p} r =
    Runs-if is_extern _ _
      (λ _.
        Runs-expect TokenKind.semi _ refl r
          (λ q m s. Runs-pure m.ready (λ _ k. k false Stmts.stop tt))
          (λ q m up. Runs-pure m.ready tt))
      (λ _.
        Runs-bind WholeStmts _ _
          (parse_block-Runs {n = length p.toks} parse_stmt (λ q r' _. parse_stmt-Runs r') r
            (omega arith))
          (λ q ss m w. Runs-pure m.ready (λ e k. k true ss (w e))))

-- The declaration that is built from its parts.
abbrev decl_with : SrcPos → StrView → List Param → Bool → Syntax → Bool → Stmts → FnDecl
decl_with pos name params is_variadic ret has_body body = record {
  pos = pos;
  name = name;
  params = params;
  is_variadic = is_variadic;
  ret = ret;
  body = body;
  has_body = has_body;
}

parse_fn_tail-Runs :
    (is_extern : Bool) (pos : SrcPos) (name : StrView) (params : List Param) (is_variadic : Bool)
    {p : Parser}
    → IsReady p
    → Runs
        (WholeSome (λ d. Each WholeParam params → WholeFn d))
        p
        (parse_fn_tail is_extern pos name params is_variadic p)
unfolding parse_fn_tail
parse_fn_tail-Runs is_extern pos name params is_variadic r =
    Runs-expect TokenKind.rparen _ refl r
      (λ q m s. Runs-bind WholeType _ _ (parse_ret-Runs pos m.ready) (λ q1 t m1 w.
        Runs-if (is_null_type t) _ _
          (λ x. Runs-pure m1.ready (λ e1 _. null_type-not_whole t x (w e1)))
          (λ _.
            Runs-map (λ o k e1 _. decl_whole t o (w e1) k)
              (parse_fn_end-Runs {W = WholeFn} is_extern (decl_with pos name params is_variadic t)
                m1.ready))))
      (λ q m up. Runs-pure m.ready tt)
  where
    decl_whole :
        (t : Syntax) (o : Option FnDecl)
        → WholeType t
        → WholeSome
            (λ d.
              ((b : Bool) (ss : Stmts)
                → WholeStmts ss
                → WholeFn (decl_with pos name params is_variadic t b ss))
              → WholeFn d)
            o
        → WholeSome (λ d. Each WholeParam params → WholeFn d) o
    decl_whole t none w k = k
    decl_whole t (some d) w k = λ ps. k (λ b ss ws. (ps, (w, ws)))

pub parse_fn_decl-Runs :
    (is_extern : Bool) {p : Parser}
    → IsReady p
    → Runs (WholeSome WholeFn) p (parse_fn_decl is_extern p)
unfolding parse_fn_decl
parse_fn_decl-Runs is_extern r = Runs-here _ (
    Runs-expect TokenKind.kw_fn _ refl r
      (λ q m s.
        Runs-ident _ m.ready
          (λ q1 name m1 s1.
            Runs-expect TokenKind.lparen _ refl m1.ready
              (λ q2 m2 s2.
                Runs-bind (WholeSome WholeParams) _ _ (parse_params-Runs is_extern m2.ready)
                  (λ q3 o m3 w.
                    Runs-option WholeParams o _ _ w (λ x. Runs-pure m3.ready (λ e3 _ _ _. x e3))
                      (λ ps wps.
                        Runs-map (λ d k e3 _ _ _. params_whole ps.0 d (wps e3) k)
                          (parse_fn_tail-Runs is_extern _ name ps.0 ps.1 m3.ready))))
              (λ q2 m2 up. Runs-pure m2.ready tt))
          (λ q1 m1 up. Runs-pure m1.ready tt))
      (λ q m up. Runs-pure m.ready tt))
  where
    params_whole :
        (ps : List Param) (o : Option FnDecl)
        → Each WholeParam ps
        → WholeSome (λ d. Each WholeParam ps → WholeFn d) o
        → WholeSome WholeFn o
    params_whole ps none w k = k
    params_whole ps (some d) w k = k w
