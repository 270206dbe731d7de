-- ===== src/Support/Map.antt =====
-- The hash map from names to pointers (src/support/map.h, map.c): open addressing with linear
-- probing. An empty slot is `none` in `keys`; a slot of `vals` that `calloc` zeroed is `none` too.
-- The probe loop runs on fuel and `none` means that it would never end. Running out of memory
-- exits the program and is not modelled. `uint32_t` arithmetic wraps as written.
pub mod Linear
pub mod Probe
pub mod Insert
pub mod Grow
pub mod Put
use Prim.Native.Nat.{bit_and, bit_xor}
use slop.Base.{
  ℕ, zero, suc, ◌+◌, ◌-◌, ◌*◌, ◌%◌, ◌^◌, Bool, true, false, ◌&&◌, ◌||◌, length, Option, none, some,
  List, [], ◌∷◌, ltb, ◌==◌, if◌then◌else◌, get_or, set, replicate,
}
use slop.Support.StrView.{StrView, memcmp_eq}

pub record Map {ℓ} (V : Type ℓ) : Type ℓ where
  pub keys : List (Option StrView)
  pub vals : List (Option V)
  pub cap : ℕ
  pub len : ℕ

abbrev pub u32 : ℕ → ℕ
u32 n = n % 2 ^ 32

abbrev pub u64 : ℕ → ℕ
u64 n = n % 2 ^ 64

abbrev pub map_initial_cap : ℕ
map_initial_cap = 64

-- The FNV-1a loop over the bytes that are left.
hash_from : ℕ → StrView → ℕ
hash_from h [] = h
hash_from h (c ∷ k) = hash_from (u64 (bit_xor h c * 0x100000001B3)) k

unfoldable pub hash_key : StrView → ℕ
unfolding hash_from
hash_key k = hash_from 0xCBF29CE484222325 k

unfoldable pub map_init {ℓ} : {V : Type ℓ} → Map V
map_init = record { keys = []; vals = []; cap = 0; len = 0 }

-- `map_free` gives the arrays back and makes the map empty again.
unfoldable pub map_free {ℓ} : {V : Type ℓ} → Map V → Map V
unfolding map_init
map_free m = map_init

pub key_eq : StrView → StrView → Bool
key_eq a b = (length a == length b) && memcmp_eq (length a) a b

-- `(i + 1) & mask`
pub next : ℕ → ℕ → ℕ
next mask i = bit_and (u32 (i + 1)) mask

-- The loop of `slot_of` from slot `i`.
pub probe : ℕ → List (Option StrView) → ℕ → StrView → ℕ → Option ℕ
probe zero keys mask key i = none
probe (suc fuel) keys mask key i = elim (get_or keys i none) [
  | none ↦ some i
  | some k ↦ elim (key_eq k key) [ true ↦ some i | false ↦ probe fuel keys mask key (next mask i) ]
]

pub slot_of : List (Option StrView) → ℕ → StrView → Option ℕ
slot_of keys cap key =
    let mask = u32 (cap + 2 ^ 32 - 1) in probe cap keys mask key (bit_and (u32 (hash_key key)) mask)

abbrev pub Table {ℓ} : Type ℓ → Type ℓ
Table V = List (Option StrView) × List (Option V)

module _ {ℓ} {V : Type ℓ} where
  -- The loop of `map_grow` over the slots of the old table.
  pub rehash : List (Option StrView) → List (Option V) → ℕ → Table V → Option (Table V)
  rehash (none ∷ ks) (v ∷ vs) new_cap t = rehash ks vs new_cap t
  rehash (some k ∷ ks) (v ∷ vs) new_cap t = elim (slot_of t.0 new_cap k) [
    | none ↦ none
    | some j ↦ rehash ks vs new_cap (set t.0 j (some k), set t.1 j v)
  ]
  rehash _ _ new_cap t = some t

  -- The part of `map_grow` after `new_cap` is known.
  pub grow_to : ℕ → Map V → Option (Map V)
  grow_to new_cap m =
      elim (rehash m.keys m.vals new_cap (replicate new_cap none, replicate new_cap none)) [
        | none ↦ none
        | some t ↦ some (record m { keys = t.0; vals = t.1; cap = new_cap })
      ]

  unfoldable pub map_grow : Map V → Option (Map V)
  unfolding grow_to
  map_grow m = grow_to (if m.cap == 0 then map_initial_cap else u32 (m.cap * 2)) m

  -- The part of `map_get` after the test of the length; `some none` is a returned NULL.
  pub get_slot : Map V → StrView → Option (Option V)
  get_slot m key = elim (slot_of m.keys m.cap key) [
    | none ↦ none
    | some i ↦ elim (get_or m.keys i none) [
      | none ↦ some none
      | some k ↦ some (get_or m.vals i none)
    ]
  ]

  unfoldable pub map_get : Map V → StrView → Option (Option V)
  unfolding get_slot
  map_get m key = if m.len == 0 then some none else get_slot m key

  -- The part of `map_put` after the growth check.
  unfoldable pub put_slot : Map V → StrView → V → Option (Map V × Bool)
  put_slot m key val = elim (slot_of m.keys m.cap key) [
    | none ↦ none
    | some i ↦ elim (get_or m.keys i none) [
      | some k ↦ some (m, false)
      | none ↦ some (
        record m {
          keys = set m.keys i (some key);
          vals = set m.vals i (some val);
          len = u32 (m.len + 1);
        },
        true,
      )
    ]
  ]

  -- The growth check: unused, or one more entry would pass three quarters.
  abbrev pub is_full : Map V → Bool
  is_full m = (m.cap == 0) || ltb (u32 (m.cap * 3)) (u32 ((m.len + 1) * 4))

  unfoldable pub map_put : Map V → StrView → V → Option (Map V × Bool)
  map_put m key val =
      if is_full m
      then elim (map_grow m) [ none ↦ none | some g ↦ put_slot g key val ]
      else put_slot m key val

  unfoldable pub map_len : Map V → ℕ
  map_len m = m.len
