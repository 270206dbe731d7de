-- ===== src/Support/Map/Linear.antt =====
-- What the slots of a table hold, read by a linear scan: the abstract view of src/support/map.c.
use slop.Base.{
  ℕ, zero, suc, ◌<◌, ◌≡◌, refl, ap, Bool, true, false, ◌||◌, Option, none, some, List, [], ◌∷◌,
  arith, length, get_or, set, replicate, if◌then◌else◌, bytes_eq, bytes_eq_iff, Bool-cases, inl,
  inr,
}
use slop.Support.StrView.{StrView}

abbrev pub Slots : Type 0
Slots = List (Option StrView)

-- Is the key in some slot?
unfoldable pub has : StrView → Slots → Bool
has q [] = false
has q (none ∷ ks) = has q ks
has q (some k ∷ ks) = bytes_eq k q || has q ks

unfoldable pub occupied : Slots → ℕ
occupied [] = 0
occupied (none ∷ ks) = occupied ks
occupied (some k ∷ ks) = suc (occupied ks)

-- The value beside the first slot that holds the key.
unfoldable pub lookup {ℓ} : {V : Type ℓ} → StrView → Slots → List (Option V) → Option V
lookup q (none ∷ ks) (v ∷ vs) = lookup q ks vs
lookup q (some k ∷ ks) (v ∷ vs) = if bytes_eq k q then v else lookup q ks vs
lookup q _ _ = none

-- No key stands in two slots.
abbrev pub IsInjective : Slots → Type 0
IsInjective ks =
    (i j : ℕ) (k : StrView) → get_or ks i none ≡ some k → get_or ks j none ≡ some k → i ≡ j

pub IsInjective-tail : (k : Option StrView) (ks : Slots) → IsInjective (k ∷ ks) → IsInjective ks
IsInjective-tail k ks inj i j q p r = let e = inj (suc i) (suc j) q p r in omega arith

pub has→index : (q : StrView) (ks : Slots) → has q ks ≡ true → (i : ℕ) × (get_or ks i none ≡ some q)
unfolding has
has→index q [] h = cc
has→index q (none ∷ ks) h = let (i, e) = has→index q ks h in (suc i, e)
has→index q (some k ∷ ks) h = elim (Bool-cases (bytes_eq k q)) [
  | inl e ↦ (0, ap some ((bytes_eq_iff k q).0 e))
  | inr e ↦ let (i, f) = has→index q ks (ground arith) in (suc i, f)
]

pub index→has : (q : StrView) (ks : Slots) (i : ℕ) → get_or ks i none ≡ some q → has q ks ≡ true
unfolding has
index→has q [] i h = cc
index→has q (none ∷ ks) zero h = cc
index→has q (none ∷ ks) (suc i) h = index→has q ks i h
index→has q (some k ∷ ks) zero h = ground (arith, bytes_eq_iff k q)
index→has q (some k ∷ ks) (suc i) h = ground (arith, index→has q ks i h)

pub get_or-lt : (q : StrView) (ks : Slots) (i : ℕ) → get_or ks i none ≡ some q → i < length ks
get_or-lt q [] i h = cc
get_or-lt q (k ∷ ks) zero h = omega arith
get_or-lt q (k ∷ ks) (suc i) h = omega (arith, get_or-lt q ks i h)

-- Writing a key into an empty slot.
module _ (k : StrView) where
  pub has-set :
      (q : StrView) (ks : Slots) (i : ℕ)
      → i < length ks
      → get_or ks i none ≡ none
      → has q (set ks i (some k)) ≡ (bytes_eq k q || has q ks)
  unfolding has
  has-set q [] i h e = elim h [ ]
  has-set q (none ∷ ks) zero h e = refl
  has-set q (some j ∷ ks) zero h e = cc
  has-set q (none ∷ ks) (suc i) h e = has-set q ks i (omega arith) e
  has-set q (some j ∷ ks) (suc i) h e = ground (arith, has-set q ks i (omega arith) e)

  pub occupied-set :
      (ks : Slots) (i : ℕ)
      → i < length ks
      → get_or ks i none ≡ none
      → occupied (set ks i (some k)) ≡ suc (occupied ks)
  unfolding occupied
  occupied-set [] i h e = elim h [ ]
  occupied-set (none ∷ ks) zero h e = refl
  occupied-set (some j ∷ ks) zero h e = cc
  occupied-set (none ∷ ks) (suc i) h e = occupied-set ks i (omega arith) e
  occupied-set (some j ∷ ks) (suc i) h e = ap suc (occupied-set ks i (omega arith) e)

  pub lookup-set {ℓ} :
      {V : Type ℓ} (v : V) (q : StrView) (ks : Slots) (vs : List (Option V)) (i : ℕ)
      → i < length ks
      → length vs ≡ length ks
      → get_or ks i none ≡ none
      → has k ks ≡ false
      → lookup q (set ks i (some k)) (set vs i (some v))
        ≡ (if bytes_eq k q then some v else lookup q ks vs)
  unfolding has lookup
  lookup-set v q [] vs i h l e a = elim h [ ]
  lookup-set v q (k' ∷ ks) [] i h l e a = absurd (omega arith)
  lookup-set v q (none ∷ ks) (w ∷ vs) zero h l e a = refl
  lookup-set v q (some j ∷ ks) (w ∷ vs) zero h l e a = cc
  lookup-set v q (none ∷ ks) (w ∷ vs) (suc i) h l e a =
      lookup-set v q ks vs i (omega arith) (omega arith) e a
  lookup-set v q (some j ∷ ks) (w ∷ vs) (suc i) h l e a = ground (
    arith,
    lookup-set v q ks vs i (omega arith) (omega arith) e,
    bytes_eq_iff k q,
    bytes_eq_iff j q,
    bytes_eq_iff j k,
  )

module _ {ℓ} {V : Type ℓ} where
  pub lookup_absent :
      (q : StrView) (ks : Slots) (vs : List (Option V)) → has q ks ≡ false → lookup q ks vs ≡ none
  unfolding has lookup
  lookup_absent q [] vs h = refl
  lookup_absent q (none ∷ ks) [] h = refl
  lookup_absent q (some k ∷ ks) [] h = refl
  lookup_absent q (none ∷ ks) (v ∷ vs) h = lookup_absent q ks vs h
  lookup_absent q (some k ∷ ks) (v ∷ vs) h = ground (arith, lookup_absent q ks vs)

  -- Where keys are distinct the scan reads the slot that holds the key.
  pub lookup_at :
      (q : StrView) (ks : Slots) (vs : List (Option V)) (i : ℕ)
      → IsInjective ks
      → length vs ≡ length ks
      → get_or ks i none ≡ some q
      → lookup q ks vs ≡ get_or vs i none
  unfolding lookup
  lookup_at q [] vs i inj l e = cc
  lookup_at q (k ∷ ks) [] i inj l e = absurd (omega arith)
  lookup_at q (none ∷ ks) (v ∷ vs) zero inj l e = cc
  lookup_at q (none ∷ ks) (v ∷ vs) (suc i) inj l e =
      lookup_at q ks vs i (IsInjective-tail none ks inj) (omega arith) e
  lookup_at q (some k ∷ ks) (v ∷ vs) zero inj l e = ground (arith, bytes_eq_iff k q)
  lookup_at q (some k ∷ ks) (v ∷ vs) (suc i) inj l e = elim (Bool-cases (bytes_eq k q)) [
    | inl same ↦
        let clash = inj 0 (suc i) q (ap some ((bytes_eq_iff k q).0 same)) e in absurd (omega arith)
    | inr other ↦ rw other (lookup_at q ks vs i (IsInjective-tail (some k) ks inj) (omega arith) e)
  ]

-- A fresh table is empty.
pub has-replicate : (q : StrView) (n : ℕ) → has q (replicate n none) ≡ false
unfolding has
has-replicate q zero = refl
has-replicate q (suc n) = has-replicate q n

pub occupied-replicate : (n : ℕ) → occupied (replicate n none) ≡ 0
unfolding occupied
occupied-replicate zero = refl
occupied-replicate (suc n) = occupied-replicate n

-- A table that is not full has an empty slot.
pub empty_slot :
    (ks : Slots) → occupied ks < length ks → (e : ℕ) × (e < length ks) × (get_or ks e none ≡ none)
unfolding occupied
empty_slot [] h = elim h [ ]
empty_slot (none ∷ ks) h = (0, omega arith, refl)
empty_slot (some k ∷ ks) h =
    let (e, lt, free) = empty_slot ks (omega arith) in (suc e, omega arith, free)

pub has-unoccupied : (q : StrView) (ks : Slots) → occupied ks ≡ 0 → has q ks ≡ false
unfolding has occupied
has-unoccupied q [] h = refl
has-unoccupied q (none ∷ ks) h = has-unoccupied q ks h
has-unoccupied q (some k ∷ ks) h = absurd (omega arith)
