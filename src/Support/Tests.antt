-- ===== src/Support/Tests.antt =====
-- Runs of the support modules, and their theorems at concrete inputs.
use slop.Base.{ℕ, ◌^◌, ◌<◌, ◌≤◌, ◌≡◌, refl, inl, List, [], ◌∷◌, ◌++◌, arith, some, Bool}
use slop.Lexer.Kind.{codes}
use slop.Support.Map.{Map, map_init, map_get, map_put}
use slop.Support.Map.Linear.{occupied}
use slop.Support.Map.Put
use slop.Support.Map.Put.{view, Puts, map_put-Puts, map_get-view}
use slop.Support.Vec.{Vec, contents, vec_push_ptr}
use slop.Support.Vec.Contents
use slop.Support.Vec.Contents.{vec_push_ptr-append}
use slop.Support.Diag.{SrcPos, diag_init}
use slop.Support.Diag.Report.{
  Call, report, follow_up, Reports, reports, run, onto, transcript, run-init,
}
use slop.Support.Arena.{Arena, arena_new, arena_alloc}
use slop.Support.Arena.Layout
use slop.Support.Arena.Layout.{Allocates, arena_alloc-Allocates}
use slop.Support.Arena.Apart.{AllApart, AllSmall, allocations, allocations-AllApart}

empty_IsValid : Put.IsValid (map_init {V = ℕ})
unfolding map_init occupied
empty_IsValid = record { shape = inl (refl, refl, refl); count = refl; load = omega arith }

small_map : (map_init {V = ℕ}).cap ≤ 2 ^ 29
unfolding map_init
small_map = omega arith

map_put-Puts_example :
    (r : Map ℕ × Bool) × (map_put map_init (codes "main") 7 ≡ some r)
    × Puts map_init (codes "main") 7 r
map_put-Puts_example = map_put-Puts map_init (codes "main") 7 empty_IsValid small_map

entered :
    (r : Map ℕ × Bool) × (map_put map_init (codes "main") 7 ≡ some r)
    × Puts map_init (codes "main") 7 r
entered = map_put-Puts map_init (codes "main") 7 empty_IsValid small_map

-- The map that the first entry gives.
one_entry : Map ℕ
one_entry = entered.0.0

one_entry-IsValid : Put.IsValid one_entry
unfolding one_entry
one_entry-IsValid = entered.2.valid

map_get-view_example : map_get one_entry (codes "main") ≡ some (view one_entry (codes "main"))
map_get-view_example = map_get-view one_entry (codes "main") one_entry-IsValid

full : Vec ℕ
full = record { slots = 4 ∷ 5 ∷ []; len = 2; cap = 2 }

full-IsValid : Contents.IsValid full
unfolding full
full-IsValid = record { sized = refl; within = omega arith }

full_small : full.cap < 2 ^ 31
unfolding full
full_small = omega arith

vec_push_ptr-append_example :
    Contents.IsValid (vec_push_ptr 9 0 full 6)
    × (contents (vec_push_ptr 9 0 full 6) ≡ contents full ++ 6 ∷ [])
vec_push_ptr-append_example = vec_push_ptr-append 9 0 full 6 full-IsValid full_small

at_line : ℕ → SrcPos
at_line n = record { line = n; col = 1 }

calls : List Call
calls = report (at_line 1) ∷ follow_up (at_line 2) ∷ report (at_line 3) ∷ []

run-init_example :
    Reports (reports calls) (run calls diag_init)
    × ((run calls diag_init).printed ≡ onto (transcript 0 calls) [])
run-init_example = run-init calls

arena : Arena
arena = arena_new 64

arena-IsValid : Layout.IsValid arena
unfolding arena arena_new
arena-IsValid = record {
  size = omega arith;
  within = omega arith;
  cap = omega arith;
  aligned = refl;
}

arena_alloc-Allocates_example : Allocates arena 24 (arena_alloc arena 24)
arena_alloc-Allocates_example = arena_alloc-Allocates arena 24 arena-IsValid (omega arith)

sizes : List ℕ
sizes = 24 ∷ 40 ∷ 100 ∷ []

sizes-AllSmall : AllSmall sizes
unfolding sizes
sizes-AllSmall = (omega arith, (omega arith, (omega arith, tt)))

allocations-AllApart_example : AllApart (allocations arena sizes)
allocations-AllApart_example = allocations-AllApart arena sizes arena-IsValid sizes-AllSmall
