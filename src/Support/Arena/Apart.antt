-- ===== src/Support/Arena/Apart.antt =====
-- No two allocations from one arena overlap (src/support/arena.c).
use slop.Support.Arena.{Arena, Address, arena_alloc}
use slop.Support.Arena.Layout.{IsValid, arena_alloc-Allocates, taken}
use slop.Base.{ℕ, ◌+◌, ◌^◌, ◌≤◌, ◌≡◌, ◌⊎◌, inl, List, [], ◌∷◌, arith}

-- The allocations of a run: each address with its size.
pub allocations : Arena → List ℕ → List (Address × ℕ)
allocations a [] = []
allocations a (n ∷ ns) = let (r, p) = arena_alloc a n in (p, n) ∷ allocations r ns

abbrev pub Apart : Address × ℕ → Address × ℕ → Type 0
Apart x y =
    x.0.block ≡ y.0.block → (x.0.offset + x.1 ≤ y.0.offset) ⊎ (y.0.offset + y.1 ≤ x.0.offset)

abbrev pub ApartFromAll : Address × ℕ → List (Address × ℕ) → Type 0
ApartFromAll x [] = Unit {0}
ApartFromAll x (y ∷ ys) = Apart x y × ApartFromAll x ys

abbrev pub AllApart : List (Address × ℕ) → Type 0
AllApart [] = Unit {0}
AllApart (x ∷ xs) = ApartFromAll x xs × AllApart xs

abbrev pub AllSmall : List ℕ → Type 0
AllSmall [] = Unit {0}
AllSmall (n ∷ ns) = (n ≤ 2 ^ 62) × AllSmall ns

later_apart :
    (a : Arena) (ns : List ℕ) (x : Address × ℕ)
    → IsValid a
    → AllSmall ns
    → x.0.offset + x.1 ≤ taken a x.0.block
    → ApartFromAll x (allocations a ns)
unfolding allocations
later_apart a [] x v s h = tt
later_apart a (n ∷ ns) x v s h =
    let g = arena_alloc-Allocates a n v s.0 in
    (
      λ same. inl (ground (arith, g.start, same)),
      later_apart (arena_alloc a n).0 ns x g.valid s.1 (omega (arith, g.grows x.0.block)),
    )

-- Whatever sizes of at most 2 ^ 62 bytes are asked for from a valid arena, the byte ranges handed
-- out are pairwise disjoint.
pub allocations-AllApart :
    (a : Arena) (ns : List ℕ) → IsValid a → AllSmall ns → AllApart (allocations a ns)
unfolding allocations
allocations-AllApart a [] v s = tt
allocations-AllApart a (n ∷ ns) v s =
    let g = arena_alloc-Allocates a n v s.0 in
    (
      later_apart (arena_alloc a n).0 ns ((arena_alloc a n).1, n) g.valid s.1 g.past,
      allocations-AllApart (arena_alloc a n).0 ns g.valid s.1,
    )
