-- ===== src/Sema/Check/Total/Names.antt =====
-- The names are looked up in a good state (src/sema/sema.c, scope.c).
use slop.Base.{
  ℕ, zero, suc, ◌<◌, ◌≡◌, refl, List, [], ◌∷◌, arith, length, get_elem?, Option, none, some,
}
use slop.Support.StrView.{StrView}
use slop.Sema.Types.{TyRef}
use slop.Sema.Scope.{Sym, globals_find_type, globals_find_value, scope_find}
use slop.Sema.Check.State.{
  Sema, Check, ◌>>=◌, pure, follow, find_type, find_global, sym_at, find_sym,
}
use slop.Sema.Check.Ready.{IsSome, There, Member, Good, Runs, Any}
use slop.Sema.Check.Rules.{Runs-pure, Runs-gets}

-- The names are looked up in a good state.
pub find_type-Runs : (name : StrView) {s : Sema} → Good s → Runs Any Any s (find_type name s)
unfolding find_type
find_type-Runs name {s} g = found (globals_find_type s.globals name) (g.names.types name)
  where
    found :
        (o : Option (Option TyRef))
        → IsSome o
        → Runs Any Any s (elim o as (λ (_ : Option (Option TyRef)). Option (Sema × Option TyRef)) [
          | none ↦ none
          | some t ↦ some (s, t)
        ])
    found none h = elim h [ ]
    found (some t) h = Runs-pure g tt tt

-- The symbol's number is that of a record.
abbrev pub Within : ℕ → Option ℕ → Type 0
Within n none = Unit {0}
Within n (some i) = i < n

module _ {A : Type 0} {V W : A → Type 0} {s : Sema} where
  pub Runs-find_global :
      (name : StrView) (f : Option ℕ → Check A)
      → Good s
      → ((o : Option ℕ) → Within (length s.syms) o → Runs V W s (f o s))
      → Runs V W s ((find_global name >>= f) s)
  unfolding ◌>>=◌ find_global
  Runs-find_global name f g k = found (globals_find_value s.globals name) (g.names.values name)
    where
      found :
          (o : Option (Option ℕ))
          → There o (length s.syms)
          → Runs V W s
              (elim (elim o as (λ (_ : Option (Option ℕ)). Option (Sema × Option ℕ)) [
                | none ↦ none
                | some t ↦ some (s, t)
              ])
                as (λ (_ : Option (Sema × Option ℕ)). Option (Sema × A)) [
                  | none ↦ none
                  | some r ↦ f r.1 r.0
                ])
      found none h = elim h [ ]
      found (some none) h = k none tt
      found (some (some i)) h = k (some i) h

  pub Runs-sym_at :
      (n : ℕ) (f : Sym → Check A)
      → Good s
      → n < length s.syms
      → ((sym : Sym) → Member sym → Runs V W s (f sym s))
      → Runs V W s ((sym_at n >>= f) s)
  unfolding ◌>>=◌
  Runs-sym_at n f g h k = found (get_elem? s.syms n) refl
    where
      in_range : (xs : List Sym) (i : ℕ) → i < length xs → get_elem? xs i ≡ none → ⊥
      in_range [] i h e = elim h [ ]
      in_range (x ∷ xs) zero h e = cc
      in_range (x ∷ xs) (suc i) h e = in_range xs i (omega arith) e

      found :
          (o : Option Sym)
          → get_elem? s.syms n ≡ o
          → Runs V W s (elim (follow o s) as (λ (_ : Option (Sema × Sym)). Option (Sema × A)) [
            | none ↦ none
            | some r ↦ f r.1 r.0
          ])
      found none e = absurd (in_range s.syms n h e)
      found (some sym) e = k sym (g.names.members n sym e)

pub find_sym-Runs : (name : StrView) {s : Sema} → Good s → Runs Any Any s (find_sym name s)
unfolding find_sym
find_sym-Runs name {s} g = Runs-gets _ _ (local (scope_find s.scopes name))
  where
    local :
        (o : Option Sym)
        → Runs Any Any s (
            (elim o as (λ (_ : Option Sym). Check (Option Sym)) [
              | some sym ↦ pure (some sym)
              | none ↦ do
                outer ← find_global name
                elim outer [ none ↦ pure none | some n ↦ do sym ← sym_at n; pure (some sym) ]
            ])
              s)
    local (some sym) = Runs-pure g tt tt
    local none = Runs-find_global name _ g (λ o. global o)
      where
        global :
            (o : Option ℕ)
            → Within (length s.syms) o
            → Runs Any Any s (
                (elim o as (λ (_ : Option ℕ). Check (Option Sym)) [
                  | none ↦ pure none
                  | some n ↦ do sym ← sym_at n; pure (some sym)
                ])
                  s)
        global none h = Runs-pure g tt tt
        global (some n) h = Runs-sym_at n _ g h (λ sym m. Runs-pure g tt tt)
