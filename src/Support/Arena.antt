-- ===== src/Support/Arena.antt =====
-- The bump allocator (src/support/arena.h, arena.c). A block is its capacity and the bytes used;
-- an address is a block's number, counted from the oldest, with an offset into its payload. What
-- stands in the payload is not modelled. `size_t` is 64 bits and wraps. Running out of memory
-- exits the program.
pub mod Layout
pub mod Apart
use Prim.Native.Nat.{bit_and}
use slop.Base.{ℕ, ◌+◌, ◌-◌, ◌%◌, ◌^◌, List, [], ◌∷◌, ltb, ◌==◌, if◌then◌else◌, length, ◌*◌}

pub record Block : Type 0 where
  pub used : ℕ
  pub cap : ℕ

-- `head` is the block in use, `next` the older ones, the newest first.
pub record Arena : Type 0 where
  pub head : Block
  pub next : List Block
  pub block_size : ℕ
  pub used : ℕ

pub record Address : Type 0 where
  pub block : ℕ
  pub offset : ℕ

abbrev pub arena_align : ℕ
arena_align = 16

abbrev pub arena_default_block : ℕ
arena_default_block = 64 * 1024

-- `(n + align - 1) & ~(align - 1)`
pub align_up : ℕ → ℕ → ℕ
align_up n align = bit_and ((n + align - 1) % 2 ^ 64) (2 ^ 64 - 1 - (align - 1))

pub block_new : ℕ → Block
block_new cap' = record { used = 0; cap = cap' }

unfoldable pub arena_new : ℕ → Arena
unfolding block_new
arena_new size =
    let block_size' = if size == 0 then arena_default_block else size in
    record { head = block_new block_size'; next = []; block_size = block_size'; used = 0 }

-- The bytes that an allocation takes.
pub need_of : ℕ → ℕ
need_of size = let need = align_up size arena_align in if need == 0 then arena_align else need

-- A new block in front, if the allocation does not fit the block in use.
pub make_room : Arena → ℕ → Arena
make_room a need =
    if ltb a.head.cap ((a.head.used + need) % 2 ^ 64)
    then record a {
      head = block_new (if ltb a.block_size need then need else a.block_size);
      next = a.head ∷ a.next;
    }
    else a

unfoldable pub arena_alloc : Arena → ℕ → Arena × Address
arena_alloc a size =
    let need = need_of size in
    let r = make_room a need in
    (
      record r {
        head = record { used = (r.head.used + need) % 2 ^ 64; cap = r.head.cap };
        used = (r.used + need) % 2 ^ 64;
      },
      record { block = length r.next; offset = r.head.used },
    )

unfoldable pub arena_used : Arena → ℕ
arena_used a = a.used
