-- ===== src/Support/Diag.antt =====
-- Error reporting for one pass (src/support/diag.h, diag.c). What is printed is kept as a list of
-- lines, the newest first; the wording of a message is left out.
-- The two counts are `int`s in C and have no bound here.
pub mod Report
use slop.Base.{ℕ, ◌+◌, List, [], ◌∷◌, Bool, true, false, ltb, leb, ◌==◌, if◌then◌else◌}

-- A position in the source (src/support/srcpos.h).
pub record SrcPos : Type 0 where
  pub line : ℕ
  pub col : ℕ

pub data Line : Type 0 where
  error note : SrcPos → Line
  too_many : Line

pub record Diag : Type 0 where
  pub count : ℕ
  pub reported : ℕ
  pub last_printed : Bool
  pub printed : List Line

abbrev pub diag_max_reported : ℕ
diag_max_reported = 20

unfoldable pub diag_init : Diag
diag_init = record { count = 0; reported = 0; last_printed = false; printed = [] }

unfoldable pub diag_error : Diag → SrcPos → Diag
diag_error d pos =
    if leb diag_max_reported d.reported
    then (if d.reported == diag_max_reported
        then record {
          count = d.count + 1;
          reported = d.reported + 1;
          last_printed = false;
          printed = too_many ∷ d.printed;
        }
        else record d { count = d.count + 1; last_printed = false })
    else record {
      count = d.count + 1;
      reported = d.reported + 1;
      last_printed = true;
      printed = error pos ∷ d.printed;
    }

unfoldable pub diag_note : Diag → SrcPos → Diag
diag_note d pos = if d.last_printed then record d { printed = note pos ∷ d.printed } else d

unfoldable pub diag_error_count : Diag → ℕ
diag_error_count d = d.count
