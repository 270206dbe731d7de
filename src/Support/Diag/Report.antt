-- ===== src/Support/Diag/Report.antt =====
-- How many errors are counted and how many are printed (src/support/diag.c).
use slop.Base.{
  ℕ, ◌+◌, ◌≡◌, List, [], ◌∷◌, Bool, true, false, arith, min, ltb, leb, ◌==◌, ◌&&◌, if◌then◌else◌,
  refl, sym, ◌∙◌,
}
use slop.Support.Diag.{Diag, SrcPos, Line, error, note, too_many, diag_init, diag_error, diag_note}

-- The calls that a pass makes, oldest first.
pub data Call : Type 0 where
  report follow_up : SrcPos → Call

pub run : List Call → Diag → Diag
run [] d = d
run (report p ∷ cs) d = run cs (diag_error d p)
run (follow_up p ∷ cs) d = run cs (diag_note d p)

pub reports : List Call → ℕ
reports [] = 0
reports (report p ∷ cs) = reports cs + 1
reports (follow_up p ∷ cs) = reports cs

pub errors_printed : List Line → ℕ
errors_printed [] = 0
errors_printed (error p ∷ ls) = errors_printed ls + 1
errors_printed (note p ∷ ls) = errors_printed ls
errors_printed (too_many ∷ ls) = errors_printed ls

pub cutoffs_printed : List Line → ℕ
cutoffs_printed [] = 0
cutoffs_printed (error p ∷ ls) = cutoffs_printed ls
cutoffs_printed (note p ∷ ls) = cutoffs_printed ls
cutoffs_printed (too_many ∷ ls) = cutoffs_printed ls + 1

-- Is the newest line, notes aside, an error?
pub on_error : List Line → Bool
on_error [] = false
on_error (note p ∷ ls) = on_error ls
on_error (error p ∷ ls) = true
on_error (too_many ∷ ls) = false

-- Each note belongs to an error that was printed.
abbrev pub NotesAttached : List Line → Type 0
NotesAttached [] = Unit {0}
NotesAttached (note p ∷ ls) = (on_error ls ≡ true) × NotesAttached ls
NotesAttached (error p ∷ ls) = NotesAttached ls
NotesAttached (too_many ∷ ls) = NotesAttached ls

-- The state after `n` errors.
pub record Reports (n : ℕ) (d : Diag) : Type 0 where
  pub count : d.count ≡ n
  pub reported : d.reported ≡ min n 21
  pub errors : errors_printed d.printed ≡ min n 20
  pub cutoffs : cutoffs_printed d.printed ≡ (if ltb 20 n then 1 else 0)
  pub on : d.last_printed ≡ true → on_error d.printed ≡ true
  pub notes : NotesAttached d.printed

-- What is printed for the calls, oldest first, behind `n` errors: the first twenty errors, one line
-- in place of the next one, and the notes of an error that is printed.
pub transcript : ℕ → List Call → List Line
transcript n [] = []
transcript n (report p ∷ cs) =
    let rest = transcript (n + 1) cs in
    if ltb n 20 then error p ∷ rest else if n == 20 then too_many ∷ rest else rest
transcript n (follow_up p ∷ cs) =
    let rest = transcript n cs in if leb 1 n && leb n 20 then note p ∷ rest else rest

-- The lines, oldest first, onto those of before.
pub onto : List Line → List Line → List Line
onto [] acc = acc
onto (l ∷ ls) acc = onto ls (l ∷ acc)

-- The state that the number of errors determines.
record Follows (n : ℕ) (d : Diag) : Type 0 where
  reported : d.reported ≡ min n 21
  last : d.last_printed ≡ (leb 1 n && leb n 20)

diag_error-Follows :
    (d : Diag) (p : SrcPos) (n : ℕ) → Follows n d → Follows (n + 1) (diag_error d p)
unfolding diag_error
diag_error-Follows d p n h = ground arith

diag_error-printed :
    (d : Diag) (p : SrcPos) (n : ℕ)
    → Follows n d
    → (ls : List Line)
    → onto (if ltb n 20 then error p ∷ ls else if n == 20 then too_many ∷ ls else ls) d.printed
      ≡ onto ls (diag_error d p).printed
unfolding diag_error onto
diag_error-printed d p n h ls = ground arith

diag_note-printed :
    (d : Diag) (p : SrcPos) (n : ℕ)
    → Follows n d
    → (ls : List Line)
    → onto (if leb 1 n && leb n 20 then note p ∷ ls else ls) d.printed
      ≡ onto ls (diag_note d p).printed
unfolding diag_note onto
diag_note-printed d p n h ls = ground (arith, h.last)

diag_note-Follows : (d : Diag) (p : SrcPos) (n : ℕ) → Follows n d → Follows n (diag_note d p)
unfolding diag_note
diag_note-Follows d p n h = ground arith

run-transcript :
    (cs : List Call) (d : Diag) (n : ℕ)
    → Follows n d
    → (run cs d).printed ≡ onto (transcript n cs) d.printed
unfolding run transcript onto
run-transcript [] d n h = refl
run-transcript (report p ∷ cs) d n h =
    run-transcript cs (diag_error d p) (n + 1) (diag_error-Follows d p n h)
    ∙ sym (diag_error-printed d p n h (transcript (n + 1) cs))
run-transcript (follow_up p ∷ cs) d n h =
    run-transcript cs (diag_note d p) n (diag_note-Follows d p n h)
    ∙ sym (diag_note-printed d p n h (transcript n cs))

diag_error-Reports :
    (d : Diag) (p : SrcPos) (n : ℕ) → Reports n d → Reports (n + 1) (diag_error d p)
unfolding diag_error errors_printed cutoffs_printed on_error
diag_error-Reports d p n h = ground arith

diag_note-Reports : (d : Diag) (p : SrcPos) (n : ℕ) → Reports n d → Reports n (diag_note d p)
unfolding diag_note errors_printed cutoffs_printed on_error
diag_note-Reports d p n h = ground arith

run-Reports :
    (cs : List Call) (d : Diag) (n m : ℕ) → n + reports cs ≡ m → Reports n d → Reports m (run cs d)
unfolding run reports
run-Reports [] d n m e h = let e' : n ≡ m = omega arith in rw (← e') h
run-Reports (report p ∷ cs) d n m e h =
    run-Reports cs (diag_error d p) (n + 1) m (omega arith) (diag_error-Reports d p n h)
run-Reports (follow_up p ∷ cs) d n m e h =
    run-Reports cs (diag_note d p) n m e (diag_note-Reports d p n h)

-- A pass that makes `cs` calls counts every error, and prints, each at its position and in the order
-- of the calls, the first twenty errors, one cutoff line if there are more, and the notes that follow
-- an error that was printed, and nothing else.
pub run-init :
    (cs : List Call)
    → Reports (reports cs) (run cs diag_init)
      × ((run cs diag_init).printed ≡ onto (transcript 0 cs) [])
unfolding diag_init errors_printed cutoffs_printed
run-init cs = (
  run-Reports cs diag_init 0 (reports cs) (omega arith) (ground arith),
  run-transcript cs diag_init 0 (ground arith),
)
