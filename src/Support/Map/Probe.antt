-- ===== src/Support/Map/Probe.antt =====
-- The probe loop of `slot_of` (src/support/map.c): it ends if some slot is empty, and a write into
-- an empty slot leaves every key where it was.
use native.Mathlib.Nat.{mod_self, mod-eq_of_lt}
use slop.Base.{
  ℕ, zero, suc, ◌+◌, ◌-◌, ◌%◌, ◌^◌, ◌<◌, ◌≤◌, ◌≡◌, ◌≢◌, refl, true, false, none, some, arith,
  length, get_or, set, leb, ◌==◌, if◌then◌else◌, bytes_eq, bytes_eq_iff, Bool-cases, Option-cases,
  inl, inr, ◌∙◌, sym, ap, ◌⊎◌, ==_iff, get_or-set_ne, get_or-set_self, some_injective,
}
use slop.Base.Bits.{bit_and_mask}
use slop.Support.StrView.{StrView, memcmp_eq-bytes}
use slop.Support.Map.Linear.{Slots}
use slop.Support.Map.{key_eq, u32, next, probe}

pub key_eq-bytes : (a b : StrView) → key_eq a b ≡ bytes_eq a b
unfolding key_eq
key_eq-bytes a b = memcmp_eq-bytes a b

pub key_eq_iff : (a b : StrView) → ((key_eq a b ≡ true) → (a ≡ b)) × ((a ≡ b) → key_eq a b ≡ true)
key_eq_iff a b = rw (key_eq-bytes a b) (bytes_eq_iff a b)

wrap : (n m : ℕ) → n < m → (n + 1) % m ≡ (if n + 1 == m then 0 else n + 1)
wrap n m h = elim (Bool-cases (n + 1 == m)) [
  | inl e ↦ rw e (rw ((==_iff (n + 1) m).0 e) (mod_self m))
  | inr e ↦ rw e (mod-eq_of_lt (ground arith))
]

-- The next index is one more, around the end.
pub next_lem :
    (k i : ℕ)
    → i < 2 ^ k
    → 2 ^ k ≤ 2 ^ 30
    → next (2 ^ k - 1) i ≡ (if i + 1 == 2 ^ k then 0 else i + 1)
unfolding next
next_lem k i h c =
    let small : u32 (i + 1) ≡ i + 1 = omega arith in
    rw (small, bit_and_mask k (i + 1)) (wrap i (2 ^ k) h)

-- The three outcomes of one round.
module _ (f : ℕ) (ks : Slots) (m : ℕ) (q : StrView) (c : ℕ) where
  pub probe_free : get_or ks c none ≡ none → probe (suc f) ks m q c ≡ some c
  unfolding probe
  probe_free e = ground arith

  pub probe_hit :
      (j : StrView)
      → get_or ks c none ≡ some j
      → key_eq j q ≡ true
      → probe (suc f) ks m q c ≡ some c
  unfolding probe
  probe_hit j e h = ground arith

  pub probe_miss :
      (j : StrView)
      → get_or ks c none ≡ some j
      → key_eq j q ≡ false
      → probe (suc f) ks m q c ≡ probe f ks m q (next m c)
  unfolding probe
  probe_miss j e h = ground arith

-- How far ahead of `c` the slot `e` lies, around the end.
abbrev pub ahead : ℕ → ℕ → ℕ → ℕ
ahead cap c e = if leb c e then e - c else e + cap - c

-- Fuel above the distance to an empty slot is enough.
pub probe_reaches :
    (f : ℕ) (ks : Slots) (k : ℕ) (q : StrView) (c e : ℕ)
    → 2 ^ k ≤ 2 ^ 30
    → c < 2 ^ k
    → e < 2 ^ k
    → get_or ks e none ≡ none
    → ahead (2 ^ k) c e < f
    → (i : ℕ) × (probe f ks (2 ^ k - 1) q c ≡ some i) × (i < 2 ^ k)
probe_reaches zero ks k q c e p hc he free h = absurd (omega arith)
probe_reaches (suc f) ks k q c e p hc he free h = elim (Option-cases (get_or ks c none)) [
  | inl stop ↦ (c, probe_free f ks _ q c stop, hc)
  | inr (j, taken) ↦ elim (Bool-cases (key_eq j q)) [
    | inl same ↦ (c, probe_hit f ks _ q c j taken same, hc)
    | inr other ↦
        let n = next_lem k c hc p in
        let apart : c ≢ e = λ same. cc (taken, free, ap (λ (x : ℕ). get_or ks x none) same) in
        let (i, run, lt) =
          probe_reaches f ks k q (next (2 ^ k - 1) c) e p (rw n (ground arith)) he free
            (rw n (ground arith)) in
        (i, probe_miss f ks _ q c j taken other ∙ run, lt)
  ]
]

-- Where the loop stops: at an empty slot or at the key.
pub probe_stops :
    (f : ℕ) (ks : Slots) (m : ℕ) (q : StrView) (c i : ℕ)
    → probe f ks m q c ≡ some i
    → (get_or ks i none ≡ none) ⊎ (get_or ks i none ≡ some q)
probe_stops zero ks m q c i h = unfold probe in cc
probe_stops (suc f) ks m q c i h = elim (Option-cases (get_or ks c none)) [
  | inl stop ↦ inl (rw (some_injective (sym (probe_free f ks m q c stop) ∙ h)) at stop)
  | inr (j, taken) ↦ elim (Bool-cases (key_eq j q)) [
    | inl same ↦ inr (
        rw (some_injective (sym (probe_hit f ks m q c j taken same) ∙ h)) at
          (taken ∙ ap some ((key_eq_iff j q).0 same)))
    | inr other ↦ probe_stops f ks m q (next m c) i (sym (probe_miss f ks m q c j taken other) ∙ h)
  ]
]

-- A write into an empty slot `i` is not seen by a probe that ends elsewhere, at a key.
pub probe-set_other :
    (f : ℕ) (ks : Slots) (m : ℕ) (k q : StrView) (c i j : ℕ)
    → get_or ks i none ≡ none
    → probe f ks m q c ≡ some j
    → get_or ks j none ≡ some q
    → probe f (set ks i (some k)) m q c ≡ some j
probe-set_other zero ks m k q c i j free h at = unfold probe in cc
probe-set_other (suc f) ks m k q c i j free h at = elim (Option-cases (get_or ks c none)) [
  | inl stop ↦
      let e = some_injective (sym (probe_free f ks m q c stop) ∙ h) in
      cc (at, stop, ap (λ (x : ℕ). get_or ks x none) e)
  | inr (l, taken) ↦
      let apart : i ≢ c = λ same. cc (taken, free, ap (λ (x : ℕ). get_or ks x none) same) in
      let kept = get_or-set_ne ks i c (some k) none apart ∙ taken in
      elim (Bool-cases (key_eq l q)) [
        | inl same ↦ probe_hit f _ m q c l kept same ∙ (sym (probe_hit f ks m q c l taken same) ∙ h)
        | inr other ↦
            probe_miss f _ m q c l kept other
            ∙ probe-set_other f ks m k q (next m c) i j free
                (sym (probe_miss f ks m q c l taken other) ∙ h) at
      ]
]

-- The key that was written is found where it was written.
pub probe-set_self :
    (f : ℕ) (ks : Slots) (m : ℕ) (k : StrView) (c i : ℕ)
    → i < length ks
    → get_or ks i none ≡ none
    → probe f ks m k c ≡ some i
    → probe f (set ks i (some k)) m k c ≡ some i
probe-set_self zero ks m k c i lt free h = unfold probe in cc
probe-set_self (suc f) ks m k c i lt free h = elim (Option-cases (get_or ks c none)) [
  | inl stop ↦
      let e = some_injective (sym (probe_free f ks m k c stop) ∙ h) in
      rw e (probe_hit f _ m k i k (get_or-set_self ks i (some k) none lt) ((key_eq_iff k k).1 refl))
  | inr (l, taken) ↦
      let apart : i ≢ c = λ same. cc (taken, free, ap (λ (x : ℕ). get_or ks x none) same) in
      let kept = get_or-set_ne ks i c (some k) none apart ∙ taken in
      elim (Bool-cases (key_eq l k)) [
        | inl same ↦ probe_hit f _ m k c l kept same ∙ (sym (probe_hit f ks m k c l taken same) ∙ h)
        | inr other ↦
            probe_miss f _ m k c l kept other
            ∙ probe-set_self f ks m k (next m c) i lt free
                (sym (probe_miss f ks m k c l taken other) ∙ h)
      ]
]
