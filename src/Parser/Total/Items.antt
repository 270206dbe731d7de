-- ===== src/Parser/Total/Items.antt =====
-- Items and the whole file (src/parser/parser.c).
use slop.Base.{
  ℕ, zero, suc, ◌≤◌, ◌≡◌, refl, true, false, ◌||◌, inl, inr, if_both, arith, length, none,
}
use slop.Ast.{Item, fn_item, struct_item, enum_item, global_item, extern_item, Field}
use slop.Lexer.Kind.{TokenKind, kind_eq, token_is_core_type}
use slop.Parser.State.{Parser, cur}
use slop.Parser.Recover.{sync_item}
use slop.Parser.Exprs.{is_missing}
use slop.Parser.Stmts.{is_none}
use slop.Parser.Items.{
  parse_field, parse_struct, parse_enum_value, enum_loop, parse_enum_base, parse_enum,
  parse_global_init, parse_global, parse_extern, parse_fn, parse_fn_decl, parse_item, items_loop,
}
use slop.Parser.Runs.{IsReady, Runs, Any, Runs-pure, Runs-map, Runs-bind, some_token, two_tokens}
use slop.Parser.Rules.{
  WholeSome, Runs-peek, Runs-here, Runs-left, Runs-at, Runs-if, Runs-option, Runs-advance,
  Runs-accept, Runs-expect, Runs-expect_any, Runs-ident, Runs-fail, accept-Runs, other_kind,
}
use slop.Parser.Total.Types.{WholeType, core_type-not_eof}
use slop.Parser.Total.Exprs.{WholeExpr, is_missing-not_whole, parse_literal-Runs}
use slop.Parser.Total.Recover.{sync_member-Runs, sync_item-Runs}
use slop.Parser.Total.Progress.{Runs-round, Runs-progress}
use slop.Parser.Total.Stmts.{WholeInit}
use slop.Parser.Total.Functions.{
  Each, WholeFn, WholeTyped, kept-Whole, members-Runs, typed_name-Runs, parse_fn_decl-Runs,
}

abbrev pub WholeField : Field → Type 0
WholeField f = WholeType f.type

-- An item with no child missing that the grammar asks for.
abbrev pub WholeItem : Item → Type 0
WholeItem (fn_item pos d) = WholeFn d
WholeItem (struct_item pos n fs) = Each WholeField fs
WholeItem (enum_item pos n b ms) = Unit {0}
WholeItem (global_item pos m t n e) = WholeType t × WholeInit e
WholeItem (extern_item pos n ds) = Each WholeFn ds

parse_field-Runs : (p : Parser) → IsReady p → Runs (WholeSome WholeField) p (parse_field p)
unfolding parse_field
parse_field-Runs p r = Runs-here _ (
    Runs-bind (WholeSome WholeTyped) _ _ (typed_name-Runs r) (λ q o m w.
      Runs-option WholeTyped o _ _ w (λ x. Runs-pure m.ready (λ e. x e))
        (λ c wc.
          Runs-expect TokenKind.semi _ refl m.ready (λ q1 m1 s. Runs-pure m1.ready (λ _ e0. wc e0))
            (λ q1 m1 up. Runs-pure m1.ready tt))))

module _ {p : Parser} (r : IsReady p) (h : kind_eq (cur p) TokenKind.eof ≡ false) where
  parse_struct-Runs : Runs (WholeSome WholeItem) p (parse_struct p)
  unfolding parse_struct
  parse_struct-Runs = Runs-here _ (
      Runs-advance _ r h (λ q m s.
        Runs-ident _ m.ready
          (λ q1 name m1 s1.
            Runs-expect TokenKind.lbrace _ refl m1.ready
              (λ q2 m2 s2.
                Runs-bind (Each WholeField) _ _
                  (members-Runs WholeField parse_field parse_field-Runs m2.ready)
                  (λ q3 fs m3 w. Runs-pure m3.ready (λ e3 _ _ _. w e3)))
              (λ q2 m2 up. Runs-pure m2.ready tt))
          (λ q1 m1 up. Runs-pure m1.ready tt)))

  parse_extern-Runs : Runs (WholeSome WholeItem) p (parse_extern p)
  unfolding parse_extern
  parse_extern-Runs = Runs-here _ (
      Runs-advance _ r h (λ q m s. Runs-at TokenKind.string _ (
        Runs-if (kind_eq (cur q) TokenKind.string) _ _
          (λ e.
            Runs-advance _ m.ready (other_kind (cur q) TokenKind.string TokenKind.eof e refl)
              (λ q1 m1 s1.
                Runs-expect TokenKind.lbrace _ refl m1.ready
                  (λ q2 m2 s2.
                    Runs-bind (Each WholeFn) _ _
                      (members-Runs WholeFn (parse_fn_decl true)
                        (λ q3 r'. parse_fn_decl-Runs true r') m2.ready)
                      (λ q3 fs m3 w. Runs-pure m3.ready (λ e3 _ _ _. w e3)))
                  (λ q2 m2 up. Runs-pure m2.ready tt)))
          (λ _. Runs-map (λ o w _. w) (Runs-fail none m.ready)))))

parse_enum_value-Runs : {p : Parser} → IsReady p → Runs Any p (parse_enum_value p)
unfolding parse_enum_value
parse_enum_value-Runs r =
    Runs-accept TokenKind.eq _ refl r
      (λ q m s. Runs-at TokenKind.int _ (
        Runs-if (kind_eq (cur q) TokenKind.int) _ _
          (λ e.
            Runs-advance _ m.ready (other_kind (cur q) TokenKind.int TokenKind.eof e refl)
              (λ q1 m1 s1. Runs-pure m1.ready (λ _ _. tt)))
          (λ _. Runs-map (λ a w _. w) (Runs-fail (false, 0) m.ready))))
      (Runs-pure r tt)

enum_loop-Runs : (f : ℕ) {p : Parser} → IsReady p → length p.toks ≤ f → Runs Any p (enum_loop f p)
unfolding enum_loop
enum_loop-Runs zero r k = absurd (omega (arith, k, some_token r))
enum_loop-Runs (suc f) {p} r k = Runs-peek _ (
    Runs-if (kind_eq (cur p) TokenKind.rbrace || kind_eq (cur p) TokenKind.eof) _ _
      (λ _. Runs-pure r tt)
      (λ e.
        let two = two_tokens r (ground (arith, e)) in
        Runs-left _ (
          Runs-here _ (
            Runs-ident _ r
              (λ q name m s. Runs-bind Any _ _ (parse_enum_value-Runs m.ready) (λ q1 v m1 _.
                Runs-accept TokenKind.comma _ refl m1.ready
                  (λ q2 m2 s2.
                    Runs-progress (length p.toks) _ m2.ready (omega (arith, s, m1.shorter, s2)) two
                      (λ q3 m3 l.
                        Runs-bind Any _ _ (enum_loop-Runs f m3.ready (omega (arith, k, l)))
                          (λ q4 ms m4 _. Runs-pure m4.ready (λ _ _ _ _ _. tt))))
                  (Runs-pure m1.ready (λ _ _. tt))))
              (λ q m up. Runs-bind Any _ _ (sync_member-Runs m.ready) (λ q1 u m1 _.
                Runs-progress (length p.toks) _ m1.ready (omega (arith, m.shorter, m1.shorter)) two
                  (λ q2 m2 l.
                    Runs-map (λ a _ _ _. tt)
                      (enum_loop-Runs f m2.ready (omega (arith, k, l))))))))))

parse_enum_base-Runs : {p : Parser} → IsReady p → Runs Any p (parse_enum_base p)
unfolding parse_enum_base
parse_enum_base-Runs r =
    Runs-accept TokenKind.colon _ refl r
      (λ q m s. Runs-peek _ (
        Runs-if (token_is_core_type (cur q)) _ _
          (λ e.
            Runs-advance _ m.ready (core_type-not_eof (cur q) e)
              (λ q1 m1 s1. Runs-pure m1.ready (λ _ _. tt)))
          (λ _. Runs-map (λ a w _. w) (Runs-fail TokenKind.kw_i32 m.ready))))
      (Runs-pure r tt)

parse_global_init-Runs :
    {p : Parser} → IsReady p → Runs (WholeSome WholeInit) p (parse_global_init p)
unfolding parse_global_init
parse_global_init-Runs r =
    Runs-accept TokenKind.eq _ refl r
      (λ q m s. Runs-bind WholeExpr _ _ (parse_literal-Runs m.ready) (λ q1 x m1 w.
        Runs-pure m1.ready (λ e1 _.
          if_both (WholeSome WholeInit) (is_missing x) (λ y. is_missing-not_whole x y (w e1))
            (λ _. inr (w e1)))))
      (Runs-pure r (inl refl))

module _ {p : Parser} (r : IsReady p) (h : kind_eq (cur p) TokenKind.eof ≡ false) where
  parse_enum-Runs : Runs (WholeSome WholeItem) p (parse_enum p)
  unfolding parse_enum
  parse_enum-Runs = Runs-here _ (
      Runs-advance _ r h (λ q m s.
        Runs-ident _ m.ready
          (λ q1 name m1 s1. Runs-bind Any _ _ (parse_enum_base-Runs m1.ready) (λ q2 b m2 _.
            Runs-expect TokenKind.lbrace _ refl m2.ready
              (λ q3 m3 s3. Runs-left _ (
                Runs-bind Any _ _ (enum_loop-Runs (length q3.toks) m3.ready (omega arith))
                  (λ q4 ms m4 _.
                    Runs-expect_any TokenKind.rbrace _ refl m4.ready
                      (λ q5 m5. Runs-pure m5.ready (λ _ _ _ _ _ _. tt)))))
              (λ q3 m3 up. Runs-pure m3.ready tt)))
          (λ q1 m1 up. Runs-pure m1.ready tt)))

  parse_global-Runs : Runs (WholeSome WholeItem) p (parse_global p)
  unfolding parse_global
  parse_global-Runs = Runs-here _ (
      Runs-advance _ r h (λ q m s.
        Runs-bind Any _ _ (accept-Runs TokenKind.kw_mut refl m.ready) (λ q1 is_mut m1 _.
          Runs-bind (WholeSome WholeTyped) _ _ (typed_name-Runs m1.ready) (λ q2 o m2 w.
            Runs-option WholeTyped o _ _ w (λ x. Runs-pure m2.ready (λ e2 _ _. x e2))
              (λ c wc.
                Runs-bind (WholeSome WholeInit) _ _ (parse_global_init-Runs m2.ready)
                  (λ q3 init m3 w3.
                    Runs-option WholeInit init _ _ w3 (λ x. Runs-pure m3.ready (λ e3 _ _ _. x e3))
                      (λ e we.
                        Runs-expect_any TokenKind.semi _ refl m3.ready
                          (λ q4 m4. Runs-pure m4.ready (λ _ e3 e2 _ _. (wc e2, we e3))))))))))

parse_fn-Runs : {p : Parser} → IsReady p → Runs (WholeSome WholeItem) p (parse_fn p)
unfolding parse_fn
parse_fn-Runs r = Runs-here _ (
    Runs-bind (WholeSome WholeFn) _ _ (parse_fn_decl-Runs false r) (λ q o m w.
      Runs-option WholeFn o _ _ w (λ x. Runs-pure m.ready (λ e. x e))
        (λ d wd. Runs-pure m.ready (λ e. wd e))))

parse_item-Runs : {p : Parser} → IsReady p → Runs (WholeSome WholeItem) p (parse_item p)
unfolding parse_item
parse_item-Runs {p} r = Runs-peek _ (
    Runs-if (kind_eq (cur p) TokenKind.kw_fn) _ _ (λ _. parse_fn-Runs r)
      (λ _.
        Runs-if (kind_eq (cur p) TokenKind.kw_struct) _ _
          (λ e. parse_struct-Runs r (not_eof TokenKind.kw_struct e refl))
          (λ _.
            Runs-if (kind_eq (cur p) TokenKind.kw_enum) _ _
              (λ e. parse_enum-Runs r (not_eof TokenKind.kw_enum e refl))
              (λ _.
                Runs-if (kind_eq (cur p) TokenKind.kw_let) _ _
                  (λ e. parse_global-Runs r (not_eof TokenKind.kw_let e refl))
                  (λ _.
                    Runs-if (kind_eq (cur p) TokenKind.kw_extern) _ _
                      (λ e. parse_extern-Runs r (not_eof TokenKind.kw_extern e refl))
                      (λ _. Runs-fail none r))))))
  where
    not_eof :
        (k : TokenKind)
        → kind_eq (cur p) k ≡ true
        → kind_eq k TokenKind.eof ≡ false
        → kind_eq (cur p) TokenKind.eof ≡ false
    not_eof k e x = other_kind (cur p) k TokenKind.eof e x

pub items_loop-Runs :
    (f : ℕ) {p : Parser} → IsReady p → length p.toks ≤ f → Runs (Each WholeItem) p (items_loop f p)
unfolding items_loop
items_loop-Runs zero r k = absurd (omega (arith, k, some_token r))
items_loop-Runs (suc f) {p} r k = Runs-peek _ (
    Runs-if (kind_eq (cur p) TokenKind.eof) _ _ (λ _. Runs-pure r tt)
      (λ e.
        Runs-round (WholeSome WholeItem) parse_item is_none sync_item _ (two_tokens r e)
          (parse_item-Runs r) (λ q r'. sync_item-Runs r')
          (λ q o m u w.
            Runs-bind (Each WholeItem) _ _ (items_loop-Runs f m.ready (omega (arith, k, u)))
              (λ q1 xs m1 w1.
                Runs-pure m1.ready (λ e1 e0. kept-Whole WholeItem o xs (w e0) (w1 e1))))))
