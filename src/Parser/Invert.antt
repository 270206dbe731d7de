-- ===== src/Parser/Invert.antt =====
-- What a parse that returned did (src/parser/parser.c): the steps of a chain, read backwards.
use slop.Base.{◌≡◌, refl, Option, none, some}
use slop.Lexer.Kind.{TokenKind}
use slop.Parser.State.{Parser, Parse, ◌>>=◌, cur, peek}
use slop.Parser.Rules.{carry}

-- A chain that returns: its first step did, and so did the rest.
pub bind-some :
    {A C : Type 0} (m : Parse C) (f : C → Parse A) (p : Parser) (r : Parser × A)
    → (m >>= f) p ≡ some r
    → (s : Parser × C) × (m p ≡ some s) × (f s.1 s.0 ≡ some r)
unfolding ◌>>=◌
bind-some {A} {C} m f p r h = by_result (m p) refl h
  where
    by_result :
        (o : Option (Parser × C))
        → m p ≡ o
        → carry o f ≡ some r
        → (s : Parser × C) × (m p ≡ some s) × (f s.1 s.0 ≡ some r)
    by_result none e x = cc
    by_result (some s) e x = (s, e, x)

pub peek-some :
    {A : Type 0} (f : TokenKind → Parse A) (p : Parser) (r : Parser × A)
    → (peek >>= f) p ≡ some r
    → f (cur p) p ≡ some r
unfolding ◌>>=◌
peek-some f p r h = h
