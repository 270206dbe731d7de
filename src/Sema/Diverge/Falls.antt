-- ===== src/Sema/Diverge/Falls.antt =====
-- `stmt_diverges` is exact (src/sema/sema.c): it holds of the statements that cannot fall through.
use slop.Base.{
  ◌≡◌, refl, ◌↔◌, ◌⊎◌, List, [], ◌∷◌, inl, inr, Bool, true, false, ◌&&◌, ◌||◌, if_split, and_split,
  Bool-cases, sym,
}
use slop.Ast.{Stmt, Stmts, Arms, MatchLabel}
use slop.Sema.Diverge.{
  stmt_diverges, block_diverges, arms_diverge, any_wildcard, NoWildcard, MayMiss, falls, Ends,
  BlockEnds, ArmsEnd,
}

or_split : (a b : Bool) → (a || b) ≡ false → (a ≡ false) × (b ≡ false)
or_split true b h = cc
or_split false b h = (refl, h)

or_join : (a b : Bool) → a ≡ false → b ≡ false → (a || b) ≡ false
or_join true b h g = h
or_join false b h g = g

and_false : (a b : Bool) → (a && b) ≡ false → (a ≡ false) ⊎ (b ≡ false)
and_false true b h = inr h
and_false false b h = inl refl

no : {P : Type 0} → false ≡ true → P
no h = cc

wildcard-none : (ls : List MatchLabel) → NoWildcard ls → any_wildcard ls ≡ false
unfolding any_wildcard
wildcard-none [] h = refl
wildcard-none (l ∷ ls) h = rw (h.0) (wildcard-none ls h.1)

none-wildcard : (ls : List MatchLabel) → any_wildcard ls ≡ false → NoWildcard ls
unfolding any_wildcard
none-wildcard [] h = tt
none-wildcard (l ∷ ls) h = elim (if_split l.is_wildcard h) [
  | inl (_, d) ↦ no (sym d)
  | inr (e, rest) ↦ (e, none-wildcard ls rest)
]

mutual
  unfolding stmt_diverges any_wildcard

  stmt_stays : (s : Stmt) → stmt_diverges s ≡ true → Ends s falls → ⊥
  stmt_stays Stmt.missing h e = no h
  stmt_stays (Stmt.block p b) h e = block_stays b h e
  stmt_stays (Stmt.var p m t n i) h e = no h
  stmt_stays (Stmt.if_stmt p c b s) h (inl e) = block_stays b (and_split _ _ h).0 e
  stmt_stays (Stmt.if_stmt p c b s) h (inr e) =
      stmt_stays s (and_split (block_diverges b) (stmt_diverges s) h).1 e
  stmt_stays (Stmt.while_stmt p c b) h e = no h
  stmt_stays (Stmt.match_stmt p x arms) h (inl e) = arms_stay arms false h e
  stmt_stays (Stmt.match_stmt p x arms) h (inr (_, g)) = arms_catch arms false h refl g
  stmt_stays (Stmt.ret p x) h e = cc
  stmt_stays (Stmt.break_stmt p) h e = cc
  stmt_stays (Stmt.continue_stmt p) h e = cc
  stmt_stays (Stmt.expr_stmt p x) h e = no h
  stmt_stays (Stmt.assign p x o y) h e = no h
  stmt_stays (Stmt.empty p) h e = no h

  block_stays : (b : Stmts) → block_diverges b ≡ true → BlockEnds b falls → ⊥
  block_stays Stmts.stop h e = no h
  block_stays (Stmts.first s ss) h (inl (e, rest)) = elim (if_split (stmt_diverges s) h) [
    | inl (d, _) ↦ stmt_stays s d e
    | inr (_, d) ↦ block_stays ss d rest
  ]
  block_stays (Stmts.first s ss) h (inr (_, other)) = other refl

  arms_stay : (arms : Arms) (seen : Bool) → arms_diverge arms seen ≡ true → ArmsEnd arms falls → ⊥
  arms_stay Arms.no_arms seen h e = e
  arms_stay (Arms.arm p ls body others) seen h (inl e) = elim (if_split (stmt_diverges body) h) [
    | inl (d, _) ↦ stmt_stays body d e
    | inr (_, d) ↦ no d
  ]
  arms_stay (Arms.arm p ls body others) seen h (inr e) = elim (if_split (stmt_diverges body) h) [
    | inl (_, rest) ↦ arms_stay others (any_wildcard ls || seen) rest e
    | inr (_, d) ↦ no d
  ]

  arms_catch :
      (arms : Arms) (seen : Bool) → arms_diverge arms seen ≡ true → seen ≡ false → MayMiss arms → ⊥
  arms_catch Arms.no_arms seen h s g = cc
  arms_catch (Arms.arm p ls body others) seen h s g =
      let a = wildcard-none ls (g.0) in
      elim (if_split (stmt_diverges body) h) [
        | inl (_, rest) ↦
            arms_catch others (any_wildcard ls || seen) rest (or_join (any_wildcard ls) seen a s)
              (g.1)
        | inr (_, d) ↦ no d
      ]

mutual
  unfolding stmt_diverges any_wildcard

  stmt_falls : (s : Stmt) → stmt_diverges s ≡ false → Ends s falls
  stmt_falls Stmt.missing h = refl
  stmt_falls (Stmt.block p b) h = block_falls b h
  stmt_falls (Stmt.var p m t n i) h = refl
  stmt_falls (Stmt.if_stmt p c b s) h = elim (and_false (block_diverges b) (stmt_diverges s) h) [
    | inl d ↦ inl (block_falls b d)
    | inr d ↦ inr (stmt_falls s d)
  ]
  stmt_falls (Stmt.while_stmt p c b) h = inl refl
  stmt_falls (Stmt.match_stmt p x arms) h = elim (arms_fall arms false h) [
    | inl e ↦ inl e
    | inr (_, g) ↦ inr (refl, g)
  ]
  stmt_falls (Stmt.ret p x) h = cc
  stmt_falls (Stmt.break_stmt p) h = cc
  stmt_falls (Stmt.continue_stmt p) h = cc
  stmt_falls (Stmt.expr_stmt p x) h = refl
  stmt_falls (Stmt.assign p x o y) h = refl
  stmt_falls (Stmt.empty p) h = refl

  block_falls : (b : Stmts) → block_diverges b ≡ false → BlockEnds b falls
  block_falls Stmts.stop h = refl
  block_falls (Stmts.first s ss) h = elim (if_split (stmt_diverges s) h) [
    | inl (_, d) ↦ cc
    | inr (d, rest) ↦ inl (stmt_falls s d, block_falls ss rest)
  ]

  arms_fall :
      (arms : Arms) (seen : Bool)
      → arms_diverge arms seen ≡ false
      → ArmsEnd arms falls ⊎ ((seen ≡ false) × MayMiss arms)
  arms_fall Arms.no_arms seen h = inr (h, tt)
  arms_fall (Arms.arm p ls body others) seen h = elim (if_split (stmt_diverges body) h) [
    | inl (_, rest) ↦ elim (arms_fall others (any_wildcard ls || seen) rest) [
      | inl e ↦ inl (inr e)
      | inr (s, g) ↦
          let (a, b) = or_split (any_wildcard ls) seen s in inr (b, (none-wildcard ls a, g))
    ]
    | inr (d, _) ↦ inl (inl (stmt_falls body d))
  ]

-- A statement is found to diverge exactly when no execution of it falls through, whatever the
-- conditions are.
pub stmt_diverges_iff : (s : Stmt) → (stmt_diverges s ≡ true) ↔ ¬ Ends s falls
stmt_diverges_iff s = (
  stmt_stays s,
  λ never. elim (Bool-cases (stmt_diverges s)) [
    | inl h ↦ h
    | inr h ↦ absurd (never (stmt_falls s h))
  ],
)

-- The body of a function is found to diverge exactly when no execution falls off its end.
pub block_diverges_iff : (b : Stmts) → (block_diverges b ≡ true) ↔ ¬ BlockEnds b falls
block_diverges_iff b = (
  block_stays b,
  λ never. elim (Bool-cases (block_diverges b)) [
    | inl h ↦ h
    | inr h ↦ absurd (never (block_falls b h))
  ],
)
