-- ===== src/Sema/Scope/Shadow.antt =====
-- Blocks open and close over the stack of local symbols (src/sema/scope.c).
use slop.Base.{
  ℕ, zero, suc, ◌+◌, ◌-◌, ◌<◌, ◌≤◌, ◌≡◌, refl, sym, ap, ◌∙◌, List, [], ◌∷◌, ◌++◌, Bool, true, false,
  arith, ◌==◌, if◌then◌else◌, length, get_or, get_elem?, take, Option, none, some, length-append,
  append_assoc, append_nil,
}
use slop.Sema.Scope.{
  Sym, Scopes, current_mark, scope_push, scope_pop, scope_find, scope_find_current, scope_declare,
  find_down,
}
use slop.Support.StrView.{StrView, strview_eq_view}

-- What happens inside a block: a declaration, or a block within it, and the rest.
pub data Body : Type 0 where
  done : Body
  declare : Sym → Body → Body
  block : Body → Body → Body

unfoldable pub exec : Body → Scopes → Scopes
exec done sc = sc
exec (declare s b) sc = exec b (scope_declare sc s)
exec (block c b) sc = exec b (scope_pop (exec c (scope_push sc)))

-- The symbols that are declared by the block itself, in order.
abbrev pub declared : Body → List Sym
declared done = []
declared (declare s b) = s ∷ declared b
declared (block c b) = declared b

abbrev pub or_else : Option Sym → Option Sym → Option Sym
or_else none o = o
or_else (some s) o = some s

-- The newest symbol of the name.
abbrev pub newest : List Sym → StrView → Option Sym
newest [] name = none
newest (s ∷ ss) name =
    or_else (newest ss name) (if strview_eq_view s.name name then some s else none)

module _ {ℓ} {A : Type ℓ} where
  take_all : (xs ys : List A) → take (length xs) (xs ++ ys) ≡ xs
  take_all [] ys = refl
  take_all (x ∷ xs) ys = ap (λ (l : List A). x ∷ l) (take_all xs ys)

  length-snoc : (xs : List A) (x : A) → length (xs ++ (x ∷ [])) ≡ suc (length xs)
  length-snoc [] x = refl
  length-snoc (y ∷ xs) x = ap suc (length-snoc xs x)

get_or-snoc : (ms : List ℕ) (m : ℕ) → get_or (ms ++ (m ∷ [])) (length ms) 0 ≡ m
get_or-snoc [] m = refl
get_or-snoc (n ∷ ms) m = get_or-snoc ms m

last_mark : (ms : List ℕ) (m : ℕ) → length (ms ++ (m ∷ [])) - 1 ≡ length ms
last_mark ms m = omega (arith, length-snoc ms m)

some_marks : (ms : List ℕ) (m : ℕ) → (length (ms ++ (m ∷ [])) == 0) ≡ false
some_marks ms m = rw (length-snoc ms m) (ground arith)

-- The state inside a block that has declared `ys`.
abbrev pub inside : Scopes → List Sym → Scopes
inside sc ys = record { syms = sc.syms ++ ys; marks = sc.marks ++ (length sc.syms ∷ []) }

current_mark-inside : (sc : Scopes) (ys : List Sym) → current_mark (inside sc ys) ≡ length sc.syms
unfolding current_mark
current_mark-inside sc ys =
    let n = length sc.syms in
    let ms = sc.marks in rw (some_marks ms n, last_mark ms n, get_or-snoc ms n) refl

pub scope_pop-inside : (sc : Scopes) (ys : List Sym) → scope_pop (inside sc ys) ≡ sc
unfolding scope_pop
scope_pop-inside sc ys =
    let n = length sc.syms in
    let ms = sc.marks in
    rw
      (some_marks ms n, last_mark ms n, get_or-snoc ms n, take_all sc.syms ys, take_all ms (n ∷ []))
      refl

exec-declared : (b : Body) (sc : Scopes) → exec b sc ≡ record sc { syms = sc.syms ++ declared b }
unfolding exec scope_declare scope_push
exec-declared done sc = rw (append_nil sc.syms) refl
exec-declared (declare s b) sc =
    rw (exec-declared b (scope_declare sc s), append_assoc sc.syms (s ∷ []) (declared b)) refl
exec-declared (block c b) sc =
    rw
      (
        exec-declared c (scope_push sc),
        scope_pop-inside (record sc { syms = sc.syms }) (declared c),
        exec-declared b sc,
      )
      refl

block-inside : (b : Body) (sc : Scopes) → exec b (scope_push sc) ≡ inside sc (declared b)
unfolding scope_push
block-inside b sc = exec-declared b (scope_push sc)

-- Closing a block restores the scopes it was opened in, whatever it declared and whatever blocks
-- it held.
pub block-restores : (b : Body) (sc : Scopes) → scope_pop (exec b (scope_push sc)) ≡ sc
block-restores b sc = rw (block-inside b sc) (scope_pop-inside sc (declared b))

snoc_view :
    (ys : List Sym) (n : ℕ)
    → n < length ys
    → (s : Sym) × (get_elem? ys n ≡ some s) × (take (suc n) ys ≡ take n ys ++ (s ∷ []))
snoc_view [] n h = elim h [ ]
snoc_view (y ∷ ys) zero h = (y, refl, refl)
snoc_view (y ∷ ys) (suc n) h =
    let (s, found, split) = snoc_view ys n (omega arith) in
    (s, found, ap (λ (l : List Sym). y ∷ l) split)

get_elem?-append :
    (xs ys : List Sym) (n : ℕ) → get_elem? (xs ++ ys) (length xs + n) ≡ get_elem? ys n
get_elem?-append [] ys n = ap (get_elem? ys) (omega arith)
get_elem?-append (x ∷ xs) ys n =
    let e : suc (length xs) + n ≡ suc (length xs + n) = omega arith in
    ap (get_elem? (x ∷ (xs ++ ys))) e ∙ get_elem?-append xs ys n

or_else_assoc : (a b c : Option Sym) → or_else a (or_else b c) ≡ or_else (or_else a b) c
or_else_assoc none b c = refl
or_else_assoc (some s) b c = refl

newest-append :
    (xs ys : List Sym) (name : StrView)
    → newest (xs ++ ys) name ≡ or_else (newest ys name) (newest xs name)
newest-append [] ys name = or_else_none (newest ys name)
  where
    or_else_none : (o : Option Sym) → o ≡ or_else o none
    or_else_none none = refl
    or_else_none (some s) = refl
newest-append (x ∷ xs) ys name =
    rw (newest-append xs ys name) (sym (or_else_assoc (newest ys name) (newest xs name) _))

newest-snoc :
    (xs : List Sym) (s : Sym) (name : StrView)
    → newest (xs ++ (s ∷ [])) name
      ≡ (if strview_eq_view s.name name then some s else newest xs name)
newest-snoc xs s name = newest-append xs (s ∷ []) name ∙ either (strview_eq_view s.name name)
  where
    either :
        (b : Bool)
        → or_else (or_else none (if b then some s else none)) (newest xs name)
          ≡ (if b then some s else newest xs name)
    either true = refl
    either false = refl

find_down_step :
    (syms : List Sym) (start n : ℕ) (name : StrView) (s : Sym)
    → get_elem? syms (start + n) ≡ some s
    → find_down syms start (suc n) name
      ≡ (if strview_eq_view s.name name then some s else find_down syms start n name)
unfolding find_down
find_down_step syms start n name s e = rw (e, find_down) refl

find_down-newest :
    (xs ys : List Sym) (n : ℕ) (name : StrView)
    → n ≤ length ys
    → find_down (xs ++ ys) (length xs) n name ≡ newest (take n ys) name
unfolding find_down
find_down-newest xs ys zero name h = refl
find_down-newest xs ys (suc n) name h =
    let (s, found, split) = snoc_view ys n (omega arith) in
    find_down_step (xs ++ ys) (length xs) n name s (get_elem?-append xs ys n ∙ found)
    ∙ (ap (λ (o : Option Sym). if strview_eq_view s.name name then some s else o)
          (find_down-newest xs ys n name (omega arith))
        ∙ (sym (newest-snoc (take n ys) s name) ∙ ap (λ (l : List Sym). newest l name) (sym split)))

take_length : (ys : List Sym) → take (length ys) ys ≡ ys
take_length [] = refl
take_length (y ∷ ys) = ap (λ (l : List Sym). y ∷ l) (take_length ys)

scope_find-newest : (sc : Scopes) (name : StrView) → scope_find sc name ≡ newest sc.syms name
unfolding scope_find
scope_find-newest sc name =
    find_down-newest [] sc.syms (length sc.syms) name (omega arith)
    ∙ ap (λ (l : List Sym). newest l name) (take_length sc.syms)

-- Inside a block a name means the block's own newest declaration of it; where the block declares
-- none, it means what it meant outside.
pub scope_find-shadows :
    (b : Body) (sc : Scopes) (name : StrView)
    → scope_find (exec b (scope_push sc)) name
      ≡ or_else (newest (declared b) name) (scope_find sc name)
scope_find-shadows b sc name =
    rw
      (
        block-inside b sc,
        scope_find-newest (inside sc (declared b)) name,
        scope_find-newest sc name,
      )
      (newest-append sc.syms (declared b) name)

scope_find_current-inside :
    (sc : Scopes) (ys : List Sym) (name : StrView)
    → scope_find_current (inside sc ys) name ≡ newest ys name
unfolding scope_find_current
scope_find_current-inside sc ys name =
    let n = length sc.syms in
    let ms = sc.marks in
    rw (some_marks ms n, last_mark ms n, get_or-snoc ms n, count)
      (find_down-newest sc.syms ys (length ys) name (omega arith)
        ∙ ap (λ (l : List Sym). newest l name) (take_length ys))
  where
    count : length (sc.syms ++ ys) - length sc.syms ≡ length ys
    count = omega (arith, length-append sc.syms ys)

-- The lookup that a redeclaration is checked against sees what the innermost block itself has
-- declared and nothing else.
pub scope_find_current-declared :
    (b : Body) (sc : Scopes) (name : StrView)
    → scope_find_current (exec b (scope_push sc)) name ≡ newest (declared b) name
scope_find_current-declared b sc name =
    rw (block-inside b sc) (scope_find_current-inside sc (declared b) name)
