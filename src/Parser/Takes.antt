-- ===== src/Parser/Takes.antt =====
-- One step over a token that is known (src/parser/parser.c).
use slop.Base.{ℕ, ◌≡◌, refl, ap, Bool, true, false, if_both, Option}
use slop.Lexer.Kind.{TokenKind, kind_eq}
use slop.Lexer.State.{ival}
use slop.Parser.State.{Parser, Parse, ◌>>=◌, accept, expect, cur, head, moved, ival_of}
use slop.Parser.Rules.{carry}
use slop.Parser.Types.{array_length}

pub accept-skips :
    {A : Type 0} (k : TokenKind) (f : Bool → Parse A) (p : Parser)
    → kind_eq (cur p) k ≡ false
    → (accept k >>= f) p ≡ f false p
unfolding accept ◌>>=◌
accept-skips k f p h =
    if_both (λ (o : Option (Parser × Bool)). carry o f ≡ f false p) (kind_eq (cur p) k) (λ e. cc)
      (λ _. refl)

pub accept-takes :
    {A : Type 0} (k : TokenKind) (f : Bool → Parse A) (p : Parser)
    → kind_eq (cur p) k ≡ true
    → (accept k >>= f) p ≡ f true (moved p)
unfolding accept ◌>>=◌
accept-takes k f p h =
    if_both (λ (o : Option (Parser × Bool)). carry o f ≡ f true (moved p)) (kind_eq (cur p) k)
      (λ _. refl) (λ e. cc)

pub expect-takes :
    {A : Type 0} (k : TokenKind) (f : Bool → Parse A) (p : Parser)
    → kind_eq (cur p) k ≡ true
    → (expect k >>= f) p ≡ f true (moved p)
unfolding expect ◌>>=◌
expect-takes k f p h =
    if_both (λ (o : Option (Parser × Bool)). carry o f ≡ f true (moved p)) (kind_eq (cur p) k)
      (λ _. refl) (λ e. cc)

pub array_length-takes :
    {A : Type 0} (n : ℕ) (f : ℕ → Parse A) (p : Parser)
    → kind_eq (cur p) TokenKind.int ≡ true
    → (head p.toks).val ≡ ival n
    → (array_length >>= f) p ≡ f n (moved p)
unfolding array_length ◌>>=◌
array_length-takes n f p h v =
    if_both (λ (m : Parse ℕ). carry (m p) f ≡ f n (moved p)) (kind_eq (cur p) TokenKind.int)
      (λ _. ap (λ x. f (ival_of x) (moved p)) v) (λ e. cc)
