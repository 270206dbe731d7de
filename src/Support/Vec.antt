-- ===== src/Support/Vec.antt =====
-- The growable array (src/support/vec.h, vec.c). `data` holds the `cap` slots of the buffer; the
-- slots that `realloc` adds hold `junk`, and `memset` clears a slot to `zeroed`. `uint32_t`
-- arithmetic wraps. Running out of memory exits the program and is not modelled.
pub mod Contents
use slop.Base.{
  ℕ, ◌+◌, ◌*◌, ◌-◌, ◌%◌, ◌^◌, List, [], ◌++◌, ◌==◌, if◌then◌else◌, set, take, replicate,
}

pub record Vec {ℓ} (A : Type ℓ) : Type ℓ where
  pub slots : List A
  pub len : ℕ
  pub cap : ℕ

module _ {ℓ} {A : Type ℓ} where
  unfoldable pub vec_init : Vec A
  vec_init = record { slots = []; len = 0; cap = 0 }

  -- The elements in use.
  abbrev pub contents : Vec A → List A
  contents v = take v.len v.slots

  -- The buffer is extended when it is full: to 8 slots, then to twice as many.
  unfoldable pub vec_reserve : A → Vec A → Vec A
  vec_reserve junk v =
      if v.len == v.cap
      then (let cap' = if v.cap == 0 then 8 else (v.cap * 2) % 2 ^ 32 in
          record v { slots = v.slots ++ replicate (cap' - v.cap) junk; cap = cap' })
      else v

  -- A cleared slot at the end; the pointer that is returned is its index.
  unfoldable pub vec_push : A → A → Vec A → Vec A × ℕ
  vec_push junk zeroed v =
      let r = vec_reserve junk v in
      (record r { slots = set r.slots r.len zeroed; len = (r.len + 1) % 2 ^ 32 }, r.len)

  unfoldable pub vec_push_ptr : A → A → Vec A → A → Vec A
  unfolding vec_push
  vec_push_ptr junk zeroed v item =
      let (r, slot) = vec_push junk zeroed v in record r { slots = set r.slots slot item }

  -- The elements are copied out and the array is empty again.
  unfoldable pub vec_take : Vec A → Vec A × List A
  unfolding vec_init
  vec_take v = (vec_init, contents v)

  unfoldable pub vec_drop : Vec A → Vec A
  unfolding vec_init
  vec_drop v = vec_init
