-- ===== src/Support/Map/Insert.antt =====
-- A table of `2 ^ k` slots that probing reads right, and an insertion into it (the part of
-- `map_put` after the growth check, and one round of `map_grow`, of src/support/map.c).
use Prim.Native.Nat.{bit_and}
use native.Mathlib.Nat.{one-le-pow, mod-lt}
use slop.Base.{
  ℕ, ◌+◌, ◌-◌, ◌^◌, ◌<◌, ◌≤◌, ◌≡◌, true, false, Option, none, some, List, arith, length, get_or,
  set, Bool-cases, some_injective, inl, inr, get_or-set_ne, get_or-set_self, ◌∙◌, sym, ap, ◌⊎◌,
  length-set, ℕ_discrete,
}
use slop.Base.Bits.{bit_and_mask}
use slop.Support.StrView.{StrView}
use slop.Support.Map.Linear.{
  Slots, has, occupied, lookup, IsInjective, has→index, lookup_at, empty_slot,
}
use slop.Support.Map.Probe.{probe_reaches, probe_stops, probe-set_other, probe-set_self}
use slop.Support.Map.{u32, hash_key, probe, slot_of}

-- The slot where the probe for a key begins.
pub home : ℕ → StrView → ℕ
home k q = bit_and (u32 (hash_key q)) (2 ^ k - 1)

home-lt : (k : ℕ) (q : StrView) → home k q < 2 ^ k
unfolding home
home-lt k q =
    rw (bit_and_mask k (u32 (hash_key q)))
      (mod-lt (u32 (hash_key q)) (one-le-pow k 2 (omega arith)))

pub slot_of_lem :
    (ks : Slots) (k : ℕ) (q : StrView)
    → 2 ^ k ≤ 2 ^ 30
    → slot_of ks (2 ^ k) q ≡ probe (2 ^ k) ks (2 ^ k - 1) q (home k q)
unfolding slot_of home
slot_of_lem ks k q b =
    let pos : 1 ≤ 2 ^ k = one-le-pow k 2 (omega arith) in
    let mask : u32 (2 ^ k + 2 ^ 32 - 1) ≡ 2 ^ k - 1 = omega arith in rw mask

slot_of-set_other :
    (ks : Slots) (k : ℕ) (q p : StrView) (i j : ℕ)
    → 2 ^ k ≤ 2 ^ 30
    → get_or ks i none ≡ none
    → slot_of ks (2 ^ k) p ≡ some j
    → get_or ks j none ≡ some p
    → slot_of (set ks i (some q)) (2 ^ k) p ≡ some j
slot_of-set_other ks k q p i j b free found at =
    slot_of_lem (set ks i (some q)) k p b
    ∙ probe-set_other (2 ^ k) ks _ q p (home k p) i j free (sym (slot_of_lem ks k p b) ∙ found) at

slot_of-set_self :
    (ks : Slots) (k : ℕ) (q : StrView) (i : ℕ)
    → 2 ^ k ≤ 2 ^ 30
    → i < length ks
    → get_or ks i none ≡ none
    → slot_of ks (2 ^ k) q ≡ some i
    → slot_of (set ks i (some q)) (2 ^ k) q ≡ some i
slot_of-set_self ks k q i b lt free found =
    slot_of_lem (set ks i (some q)) k q b
    ∙ probe-set_self (2 ^ k) ks _ q (home k q) i lt free (sym (slot_of_lem ks k q b) ∙ found)

module _ {ℓ} {V : Type ℓ} where
  -- Probing for a key that stands in slot `i` ends at `i`, and that slot has a value.
  pub record IsTable (k : ℕ) (ks : Slots) (vs : List (Option V)) : Type ℓ where
    pub bound : 2 ^ k ≤ 2 ^ 30
    pub keys_len : length ks ≡ 2 ^ k
    pub vals_len : length vs ≡ 2 ^ k
    pub placed : (i : ℕ) (q : StrView) → get_or ks i none ≡ some q → slot_of ks (2 ^ k) q ≡ some i
    pub filled :
        (i : ℕ) (q : StrView) → get_or ks i none ≡ some q → (v : V) × (get_or vs i none ≡ some v)

  module _ {k : ℕ} {ks : Slots} {vs : List (Option V)} (t : IsTable k ks vs) where
    pub IsTable-IsInjective : IsInjective ks
    IsTable-IsInjective i j q p r = some_injective (sym (t.placed i q p) ∙ t.placed j q r)

    -- While a slot is empty the probe ends: at the key, or at an empty slot if the key is absent.
    pub slot_of_stops :
        (q : StrView)
        → occupied ks < 2 ^ k
        → (i : ℕ) × (slot_of ks (2 ^ k) q ≡ some i)
          × (i < 2 ^ k)
          × (((get_or ks i none ≡ none) × (has q ks ≡ false)) ⊎ (get_or ks i none ≡ some q))
    slot_of_stops q room =
        let (e, lt, free) = empty_slot ks (omega (arith, t.keys_len)) in
        let (i, run, small) =
          probe_reaches (2 ^ k) ks k q (home k q) e t.bound (home-lt k q)
            (omega (arith, t.keys_len)) free (ground (arith, home-lt k q, t.keys_len)) in
        let found = slot_of_lem ks k q t.bound ∙ run in
        (i, found, small, split i found (probe_stops (2 ^ k) ks _ q (home k q) i run))
      where
        absent :
            (i : ℕ) → slot_of ks (2 ^ k) q ≡ some i → get_or ks i none ≡ none → has q ks ≡ true → ⊥
        absent i found free h =
            let (j, at) = has→index q ks h in
            let same : i ≡ j = some_injective (sym found ∙ t.placed j q at) in
            cc (at, free, ap (λ (x : ℕ). get_or ks x none) same)

        split :
            (i : ℕ)
            → slot_of ks (2 ^ k) q ≡ some i
            → (get_or ks i none ≡ none) ⊎ (get_or ks i none ≡ some q)
            → ((get_or ks i none ≡ none) × (has q ks ≡ false)) ⊎ (get_or ks i none ≡ some q)
        split i found (inr at) = inr at
        split i found (inl free) = elim (Bool-cases (has q ks)) [
          | inl h ↦ absurd (absent i found free h)
          | inr h ↦ inl (free, h)
        ]

    -- The linear scan and the probe read the same.
    pub lookup-slot :
        (q : StrView) (i : ℕ) → get_or ks i none ≡ some q → lookup q ks vs ≡ get_or vs i none
    lookup-slot q i at = lookup_at q ks vs i IsTable-IsInjective (t.vals_len ∙ sym t.keys_len) at

    pub IsTable-set :
        (q : StrView) (v : V) (i : ℕ)
        → i < 2 ^ k
        → get_or ks i none ≡ none
        → slot_of ks (2 ^ k) q ≡ some i
        → IsTable k (set ks i (some q)) (set vs i (some v))
    IsTable-set q v i lt free found = record {
      bound = t.bound;
      keys_len = length-set ks i (some q) ∙ t.keys_len;
      vals_len = length-set vs i (some v) ∙ t.vals_len;
      placed = λ j p at. elim (ℕ_discrete i j) [
        | yes same ↦
            let inside : i < length ks = omega (arith, t.keys_len) in
            let now : get_or (set ks i (some q)) i none ≡ some p =
              ap (λ (x : ℕ). get_or (set ks i (some q)) x none) same ∙ at in
            let e : q ≡ p =
              some_injective (sym (get_or-set_self ks i (some q) none inside) ∙ now) in
            rw (← e, ← same) (slot_of-set_self ks k q i t.bound inside free found)
        | no other ↦
            let old = sym (get_or-set_ne ks i j (some q) none other) ∙ at in
            slot_of-set_other ks k q p i j t.bound free (t.placed j p old) old
      ];
      filled = λ j p at. elim (ℕ_discrete i j) [
        | yes same ↦
            (v, rw (← same) (get_or-set_self vs i (some v) none (omega (arith, t.vals_len))))
        | no other ↦
            let (w, e) = t.filled j p (sym (get_or-set_ne ks i j (some q) none other) ∙ at) in
            (w, get_or-set_ne vs i j (some v) none other ∙ e)
      ];
    }
