-- ===== src/Sema/Diverge.antt =====
-- Whether a statement can fall through to the next one (src/sema/sema.c): a function that returns
-- a value must not fall off its end.
pub mod Falls
use slop.Base.{Bool, true, false, ◌&&◌, ◌||◌, List, [], ◌∷◌, if◌then◌else◌, ◌⊎◌, ◌≡◌, ◌≢◌}
use slop.Ast.{Stmt, Stmts, Arms, MatchLabel}

-- The loop over the labels of an arm.
unfoldable pub any_wildcard : List MatchLabel → Bool
any_wildcard [] = false
any_wildcard (l ∷ ls) = if l.is_wildcard then true else any_wildcard ls

unfoldable mutual
  pub stmt_diverges : Stmt → Bool
  stmt_diverges (Stmt.ret p e) = true
  stmt_diverges (Stmt.break_stmt p) = true
  stmt_diverges (Stmt.continue_stmt p) = true
  stmt_diverges (Stmt.block p b) = block_diverges b
  stmt_diverges (Stmt.if_stmt p c b e) = block_diverges b && stmt_diverges e
  stmt_diverges (Stmt.match_stmt p e arms) = arms_diverge arms false
  stmt_diverges _ = false

  pub block_diverges : Stmts → Bool
  block_diverges Stmts.stop = false
  block_diverges (Stmts.first s ss) =
      let rest = block_diverges ss in if stmt_diverges s then true else rest

  -- The loop over the arms; `seen` is `has_wildcard`.
  pub arms_diverge : Arms → Bool → Bool
  arms_diverge Arms.no_arms seen = seen
  arms_diverge (Arms.arm p ls body rest_arms) seen =
      let rest = arms_diverge rest_arms (any_wildcard ls || seen) in
      if stmt_diverges body then rest else false

-- How a statement ends: by falling through to the next one, or by a jump.
pub data Outcome : Type 0 where
  falls returns breaks continues : Outcome

-- None of the labels is `_`.
abbrev pub NoWildcard : List MatchLabel → Type 0
NoWildcard [] = Unit {0}
NoWildcard (l ∷ ls) = (l.is_wildcard ≡ false) × NoWildcard ls

-- No arm has the label `_`, so that a value may match none.
abbrev pub MayMiss : Arms → Type 0
MayMiss Arms.no_arms = Unit {0}
MayMiss (Arms.arm p ls body rest_arms) = NoWildcard ls × MayMiss rest_arms

-- What an execution can end in, whatever the values of the conditions are: an independent
-- description by the shape of the statement. A loop may run no round; a match without `_` may take
-- no arm.
abbrev mutual
  pub Ends : Stmt → Outcome → Type 0
  Ends (Stmt.block p b) o = BlockEnds b o
  Ends (Stmt.if_stmt p c b e) o = BlockEnds b o ⊎ Ends e o
  Ends (Stmt.while_stmt p c b) o = (o ≡ falls) ⊎ ((o ≡ returns) × BlockEnds b returns)
  Ends (Stmt.match_stmt p e arms) o = ArmsEnd arms o ⊎ ((o ≡ falls) × MayMiss arms)
  Ends (Stmt.ret p e) o = o ≡ returns
  Ends (Stmt.break_stmt p) o = o ≡ breaks
  Ends (Stmt.continue_stmt p) o = o ≡ continues
  Ends _ o = o ≡ falls

  pub BlockEnds : Stmts → Outcome → Type 0
  BlockEnds Stmts.stop o = o ≡ falls
  BlockEnds (Stmts.first s ss) o = (Ends s falls × BlockEnds ss o) ⊎ (Ends s o × (o ≢ falls))

  pub ArmsEnd : Arms → Outcome → Type 0
  ArmsEnd Arms.no_arms o = ⊥
  ArmsEnd (Arms.arm p ls body rest_arms) o = Ends body o ⊎ ArmsEnd rest_arms o
