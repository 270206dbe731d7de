-- ===== src/Parser/Total/Types.antt =====
-- Types (src/parser/parser.c, `parse_type`).
use slop.Base.{ℕ, zero, suc, ◌≤◌, ◌≡◌, refl, true, false, arith, length}
use slop.Ast.{Syntax, core_type, named_type, pointer_type, array_type}
use slop.Lexer.Kind.{TokenKind, kind_eq, token_is_core_type}
use slop.Support.Diag.{SrcPos}
use slop.Parser.State.{Parser, cur}
use slop.Parser.Types.{array_length, type_suffixes, suffixed, parse_type}
use slop.Parser.Stmts.{is_null_type}
use slop.Parser.Runs.{IsReady, Runs, Any, Runs-pure, Runs-map, Runs-bind, some_token}
use slop.Parser.Rules.{
  other_kind, Runs-peek, Runs-here, Runs-left, Runs-at, Runs-if, Runs-advance, Runs-accept,
  Runs-expect_any, Runs-fail,
}

-- A type with no child missing.
abbrev pub WholeType : Syntax → Type 0
WholeType Syntax.missing = ⊥
WholeType (core_type pos k) = Unit {0}
WholeType (named_type pos n) = Unit {0}
WholeType (pointer_type pos t) = WholeType t
WholeType (array_type pos t n) = WholeType t

pub null_type-not_whole : (t : Syntax) → is_null_type t ≡ true → WholeType t → ⊥
null_type-not_whole Syntax.missing e w = w
null_type-not_whole (core_type pos k) e w = cc
null_type-not_whole (named_type pos n) e w = cc
null_type-not_whole (pointer_type pos t) e w = cc
null_type-not_whole (array_type pos t n) e w = cc

pub core_type-not_eof :
    (k : TokenKind) → token_is_core_type k ≡ true → kind_eq k TokenKind.eof ≡ false
unfolding token_is_core_type
core_type-not_eof k e = ground (arith, e)

array_length-Runs : {p : Parser} → IsReady p → Runs Any p (array_length p)
unfolding array_length
array_length-Runs {p} r = Runs-at TokenKind.int _ (
    Runs-if (kind_eq (cur p) TokenKind.int) _ _
      (λ e.
        Runs-advance _ r (other_kind (cur p) TokenKind.int TokenKind.eof e refl)
          (λ q m s. Runs-pure m.ready (λ _. tt)))
      (λ _. Runs-fail 0 r))

type_suffixes-Runs :
    (f : ℕ) (pos : SrcPos) (t : Syntax) {p : Parser}
    → IsReady p
    → length p.toks ≤ f
    → Runs (λ u. WholeType t → WholeType u) p (type_suffixes f pos t p)
unfolding type_suffixes
type_suffixes-Runs zero pos t r n = absurd (omega (arith, n, some_token r))
type_suffixes-Runs (suc f) pos t {p} r n =
    Runs-accept TokenKind.star _ refl r
      (λ q m s.
        Runs-map (λ u w _. w)
          (type_suffixes-Runs f pos (pointer_type pos t) m.ready (omega (arith, n, s))))
      (Runs-accept TokenKind.lbracket _ refl r
        (λ q m s. Runs-bind Any _ _ (array_length-Runs m.ready) (λ q1 k m1 _.
          Runs-expect_any TokenKind.rbracket _ refl m1.ready (λ q2 m2.
            Runs-map (λ u w _ _ _. w)
              (type_suffixes-Runs f pos (array_type pos t k) m2.ready
                (omega (arith, n, s, m1.shorter, m2.shorter))))))
        (Runs-pure r (λ w. w)))

suffixed-Runs :
    (pos : SrcPos) (t : Syntax) {p : Parser}
    → IsReady p
    → WholeType t
    → Runs WholeType p (suffixed pos t p)
unfolding suffixed
suffixed-Runs pos t {p} r w =
    Runs-left _ (Runs-map (λ u k. k w) (type_suffixes-Runs (length p.toks) pos t r (omega arith)))

pub parse_type-Runs : {p : Parser} → IsReady p → Runs WholeType p (parse_type p)
unfolding parse_type
parse_type-Runs {p} r = Runs-here _ (
    Runs-peek _ (
      Runs-if (token_is_core_type (cur p)) _ _
        (λ e.
          Runs-advance _ r (core_type-not_eof (cur p) e)
            (λ q m s. Runs-map (λ u w _. w) (suffixed-Runs _ (core_type _ _) m.ready tt)))
        (λ _.
          Runs-if (kind_eq (cur p) TokenKind.ident) _ _
            (λ e.
              Runs-advance _ r (other_kind (cur p) TokenKind.ident TokenKind.eof e refl)
                (λ q m s. Runs-map (λ u w _. w) (suffixed-Runs _ (named_type _ _) m.ready tt)))
            (λ _. Runs-fail Syntax.missing r))))
