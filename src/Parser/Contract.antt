-- ===== src/Parser/Contract.antt =====
-- The contract of `parse_program` (src/parser/parser.h), and of the lexer with the parser.
use slop.Base.{
  ℕ, suc, ◌+◌, ◌≤◌, ◌≡◌, refl, sym, ap, ◌∙◌, List, [], ◌∷◌, true, inl, inr, arith, if_both, length,
  Option, some, some_injective, zero, ◌<◌, ◌⊎◌,
}
use slop.Ast.{Item}
use slop.Support.Diag.{diag_init, diag_error_count}
use slop.Lexer.Kind.{TokenKind, kind_eq}
use mathlib.Core.Path.{subst}
use slop.Lexer.State.{Lexer, Token, lexer_init}
use slop.Lexer.Next.{lexer_lex_all}
use slop.Lexer.Stream.{Tiles, error_count, lexer_lex_all-Tiles}
use slop.Parser.State.{Parser, Parse, cur, head, left}
use slop.Parser.Invert.{bind-some, peek-some}
use slop.Parser.Items.{parse_item, items_loop, started, parse_program}
use slop.Parser.Runs.{Closed, IsReady, skip_error_tokens-Skipped}
use slop.Parser.Total.Functions.{Each}
use slop.Parser.Total.Items.{WholeItem, items_loop-Runs}

-- The loop over the items ends at the end of file only.
items_loop-end :
    (f : ℕ) (p : Parser) (r : Parser × List Item)
    → items_loop f p ≡ some r
    → kind_eq (cur r.0) TokenKind.eof ≡ true
unfolding items_loop
items_loop-end zero p r h = cc
items_loop-end (suc f) p r h =
    if_both (λ (m : Parse (List Item)). m p ≡ some r → kind_eq (cur r.0) TokenKind.eof ≡ true)
      (kind_eq (cur p) TokenKind.eof)
      (λ e x.
        subst (λ (q : Parser). kind_eq (cur q) TokenKind.eof ≡ true)
          (ap (λ y. y.0) (some_injective x)) e)
      (λ e x.
        let (s0, _, x0) = bind-some left _ p r x in
        let (s1, _, x1) = bind-some parse_item _ s0.0 r x0 in
        let (s2, _, x2) = bind-some _ _ s1.0 r x1 in
        let (s3, _, x3) = bind-some _ _ s2.0 r x2 in
        let (s4, run, x4) = bind-some (items_loop f) _ s3.0 r x3 in
        subst (λ (q : Parser). kind_eq (cur q) TokenKind.eof ≡ true)
          (ap (λ y. y.0) (some_injective x4)) (items_loop-end f s3.0 s4 run))
      (peek-some _ p r h)

-- At the end of file no error token is left.
last-error_count :
    (ts : List Token) → Closed ts → kind_eq (head ts).kind TokenKind.eof ≡ true → error_count ts ≡ 0
unfolding error_count
last-error_count [] c h = elim c [ ]
last-error_count (t ∷ []) c h = ground (arith, h)
last-error_count (t ∷ u ∷ ts) c h = cc

-- What a caller may rely on.
pub record Parsed (tokens : List Token) (o : Option (List Item × ℕ)) : Type 0 where
  pub items : List Item
  pub errors : ℕ
  pub run : o ≡ some (items, errors)
  pub reports : error_count tokens ≤ errors
  pub whole : errors ≡ 0 → Each WholeItem items

pub parse_program-Parsed :
    (tokens : List Token) → Closed tokens → Parsed tokens (parse_program tokens)
unfolding parse_program diag_init diag_error_count
parse_program-Parsed [] c = elim c [ ]
parse_program-Parsed (t ∷ ts) c =
    let s = skip_error_tokens-Skipped (t ∷ ts) diag_init c in
    let r : IsReady (started (t ∷ ts)) = record {
      closed = s.closed;
      clean = s.clean;
      depth = omega arith;
    } in
    let p = items_loop-Runs (length (started (t ∷ ts)).toks) r (omega arith) in
    let at_end = items_loop-end _ _ (p.next, p.result) p.run in
    let none_left = last-error_count p.next.toks p.moves.ready.closed at_end in
    record {
      items = p.result;
      errors = p.next.diag.count;
      run = rw (p.run, parse_program) refl;
      reports = omega (arith, s.reports, p.moves.reports, none_left);
      whole = λ e. p.whole (omega (arith, e, p.moves.count));
    }

-- From every list of tokens whose last one, and no other, is the end of file, the parser returns
-- items and an error count: no loop and no recursion of it goes on for ever.
pub parse_program-terminates :
    (tokens : List Token) → Closed tokens → (r : List Item × ℕ) × (parse_program tokens ≡ some r)
parse_program-terminates tokens c =
    let p = parse_program-Parsed tokens c in ((p.items, p.errors), p.run)

-- The error count of a parse is at least the number of error tokens in its list, which ends with
-- the end of file: recovery drops none of them unreported.
pub parse_program-error_count :
    (tokens : List Token) (items : List Item) (errors : ℕ)
    → Closed tokens
    → parse_program tokens ≡ some (items, errors)
    → error_count tokens ≤ errors
parse_program-error_count tokens items errors c e =
    let p = parse_program-Parsed tokens c in
    let same = ap (λ r. r.1) (some_injective (sym p.run ∙ e)) in omega (arith, p.reports, same)

-- Where the parse of a list that ends with the end of file counts no error, no item has a missing
-- child: every type, operand, argument, statement, block and arm that the grammar asks for is
-- there. Only an initializer, a value behind `return`, an `else` and the value of a wildcard label
-- may be left out.
pub parse_program-Whole :
    (tokens : List Token) (items : List Item)
    → Closed tokens
    → parse_program tokens ≡ some (items, 0)
    → Each WholeItem items
parse_program-Whole tokens items c e =
    let p = parse_program-Parsed tokens c in
    let same = some_injective (sym p.run ∙ e) in
    subst (Each WholeItem) (ap (λ r. r.0) same) (p.whole (ap (λ r. r.1) same))

counted_or : {X : Type 0} (n : ℕ) → (n ≡ 0 → X) → (0 < n) ⊎ X
counted_or zero f = inr (f refl)
counted_or (suc n) f = inl (omega arith)

Tiles-Closed : (src cur : List ℕ) (ts : List Token) → Tiles src cur ts → Closed ts
Tiles-Closed src cur [] w = elim w [ ]
Tiles-Closed src cur (t ∷ []) (a, b, inl (e, f, g)) = e
Tiles-Closed src cur (t ∷ []) (a, b, inr (e, f)) = elim f [ ]
Tiles-Closed src cur (t ∷ u ∷ ts) (a, b, inl (e, f, g)) = absurd (omega (arith, ap length g))
Tiles-Closed src cur (t ∷ u ∷ ts) (a, b, inr (e, f)) = (e, Tiles-Closed src _ (u ∷ ts) f)

-- Every source gets through the lexer and the parser: `lexer_lex_all` returns, `parse_program`
-- returns on its tokens, the parser counts at least the lexer's errors, and it counts some or no
-- item has a missing child.
pub lexer_lex_all-parse_program :
    (src : List ℕ)
    → (r : Lexer × List Token) × (lexer_lex_all (length src + 1) (lexer_init src) ≡ some r)
      × (q : List Item × ℕ) × (parse_program r.1 ≡ some q)
      × (r.0.errors ≤ q.1)
      × ((0 < q.1) ⊎ Each WholeItem q.0)
lexer_lex_all-parse_program src =
    let (r, run, tiles, count) = lexer_lex_all-Tiles src in
    let p = parse_program-Parsed r.1 (Tiles-Closed src src r.1 tiles) in
    (
      r,
      run,
      (p.items, p.errors),
      p.run,
      omega (arith, count, p.reports),
      counted_or p.errors p.whole,
    )
