-- ===== src/Support/Map/Grow.antt =====
-- `map_grow` (src/support/map.c) moves every entry into a table twice as large.
use slop.Base.{
  ℕ, suc, ◌+◌, ◌^◌, ◌<◌, ◌≡◌, refl, ◌==◌, true, false, Option, none, some, List, [], ◌∷◌, arith,
  length, get_or, set, if◌then◌else◌, bytes_eq_iff, bytes_eq_refl, Bool-cases, inl, inr, ◌∙◌, sym,
  ◌⊎◌, ◌≤◌, replicate, length-replicate, get_or-replicate, ◌*◌, ap,
}
use slop.Support.StrView.{StrView}
use slop.Support.Map.Linear.{
  Slots, has, occupied, lookup, IsInjective, IsInjective-tail, has→index, has-set, occupied-set,
  lookup-set, index→has, has-replicate, occupied-replicate, lookup_absent,
}
use slop.Support.Map.Insert.{IsTable, slot_of_stops, IsTable-set}
use slop.Support.Map.{Table, slot_of, rehash, Map, map_grow, map_initial_cap, u32, grow_to}

head_fresh : (a : StrView) (ks : Slots) → IsInjective (some a ∷ ks) → has a ks ≡ false
head_fresh a ks inj = elim (Bool-cases (has a ks)) [
  | inl h ↦
      let (j, at) = has→index a ks h in let clash = inj 0 (suc j) a refl at in absurd (omega arith)
  | inr h ↦ h
]

module _ {ℓ} {V : Type ℓ} where
  -- Every occupied slot has a value.
  abbrev pub IsFilled : Slots → List (Option V) → Type ℓ
  IsFilled ks vs =
      (i : ℕ) (q : StrView) → get_or ks i none ≡ some q → (v : V) × (get_or vs i none ≡ some v)

  -- The table `t` has the old entries of `nk`, `nv` and those of `ks`, `vs`.
  pub record Merged (k : ℕ) (ks : Slots) (vs : List (Option V)) (nk : Slots) (nv : List (Option V))
      (t : Table V) : Type ℓ where
    pub table : IsTable k t.0 t.1
    pub count : occupied t.0 ≡ occupied ks + occupied nk
    pub keys : (q : StrView) → has q t.0 ≡ (if has q ks then true else has q nk)
    pub reads :
        (q : StrView) → lookup q t.0 t.1 ≡ (if has q ks then lookup q ks vs else lookup q nk nv)

  -- An absent key's probe ends at an empty slot.
  vacant :
      {k : ℕ} {nk : Slots} {nv : List (Option V)} (t : IsTable k nk nv) (q : StrView)
      → has q nk ≡ false
      → occupied nk < 2 ^ k
      → (i : ℕ) × (slot_of nk (2 ^ k) q ≡ some i) × (i < 2 ^ k) × (get_or nk i none ≡ none)
  vacant {nk = nk} t q absent room =
      let (i, found, lt, at) = slot_of_stops t q room in (i, found, lt, empty i at)
    where
      empty :
          (i : ℕ)
          → ((get_or nk i none ≡ none) × (has q nk ≡ false)) ⊎ (get_or nk i none ≡ some q)
          → get_or nk i none ≡ none
      empty i (inl e) = e.0
      empty i (inr e) = cc (index→has q nk i e)

  Merged-cons :
      (k : ℕ) (a : StrView) (ks : Slots) (v : Option V) (vs : List (Option V)) (nk : Slots)
      (nv : List (Option V)) (i : ℕ) (w : V) {r : Table V}
      → i < length nk
      → length nv ≡ length nk
      → get_or nk i none ≡ none
      → has a nk ≡ false
      → has a ks ≡ false
      → v ≡ some w
      → Merged k ks vs (set nk i (some a)) (set nv i (some w)) r
      → Merged k (some a ∷ ks) (v ∷ vs) nk nv r
  unfolding has occupied lookup
  Merged-cons k a ks v vs nk nv i w lt l free absent fresh now m = record {
    table = m.table;
    count = m.count ∙ omega (arith, occupied-set a nk i lt free);
    keys = λ q. ground (arith, m.keys q, has-set a q nk i lt free);
    reads = λ q. ground (
      arith,
      m.reads q,
      lookup-set a w q nk nv i lt l free absent,
      bytes_eq_iff a q,
      has-set a q nk i lt free,
    );
  }

  pub rehash-Merged :
      (k : ℕ) (ks : Slots) (vs : List (Option V)) (nk : Slots) (nv : List (Option V))
      → length vs ≡ length ks
      → IsTable k nk nv
      → IsInjective ks
      → IsFilled ks vs
      → ((q : StrView) → has q ks ≡ true → has q nk ≡ false)
      → occupied ks + occupied nk < 2 ^ k
      → (t : Table V) × (rehash ks vs (2 ^ k) (nk, nv) ≡ some t) × Merged k ks vs nk nv t
  unfolding rehash has occupied lookup
  rehash-Merged k [] vs nk nv l t inj full apart room = (
    (nk, nv),
    refl,
    record { table = t; count = omega arith; keys = λ q. refl; reads = λ q. refl },
  )
  rehash-Merged k (o ∷ ks) [] nk nv l t inj full apart room = absurd (omega arith)
  rehash-Merged k (none ∷ ks) (v ∷ vs) nk nv l t inj full apart room =
      let (r, run, m) =
        rehash-Merged k ks vs nk nv (omega arith) t (IsInjective-tail none ks inj)
          (λ i. full (suc i)) apart room in
      (r, run, record { table = m.table; count = m.count; keys = m.keys; reads = m.reads })
  rehash-Merged k (some a ∷ ks) (v ∷ vs) nk nv l t inj full apart room =
      let fresh = head_fresh a ks inj in
      let absent = apart a (rw (bytes_eq_refl a)) in
      let (w, now) = full 0 a refl in
      let (i, found, lt, free) = vacant t a absent (omega arith) in
      go i w found lt free absent fresh now (
        rehash-Merged k ks vs (set nk i (some a)) (set nv i (some w)) (omega arith)
          (IsTable-set t a w i lt free found) (IsInjective-tail (some a) ks inj) (λ j. full (suc j))
          (kept i lt free fresh)
          (rw (occupied-set a nk i (omega (arith, t.keys_len)) free) (omega arith)))
    where
      kept :
          (i : ℕ)
          → i < 2 ^ k
          → get_or nk i none ≡ none
          → has a ks ≡ false
          → (q : StrView) → has q ks ≡ true
          → has q (set nk i (some a)) ≡ false
      kept i lt free fresh q h =
          rw (has-set a q nk i (omega (arith, t.keys_len)) free)
            (ground (arith, apart q, bytes_eq_iff a q))

      go :
          (i : ℕ) (w : V)
          → slot_of nk (2 ^ k) a ≡ some i
          → i < 2 ^ k
          → get_or nk i none ≡ none
          → has a nk ≡ false
          → has a ks ≡ false
          → v ≡ some w
          → (t' : Table V) × (rehash ks vs (2 ^ k) (set nk i (some a), set nv i (some w)) ≡ some t')
            × Merged k ks vs (set nk i (some a)) (set nv i (some w)) t'
          → (t' : Table V) × (rehash (some a ∷ ks) (v ∷ vs) (2 ^ k) (nk, nv) ≡ some t')
            × Merged k (some a ∷ ks) (v ∷ vs) nk nv t'
      go i w found lt free absent fresh now (r, run, m) = (
        r,
        rw (found, rehash) (rw now run),
        Merged-cons k a ks v vs nk nv i w (omega (arith, t.keys_len)) (t.vals_len ∙ sym t.keys_len)
            free absent fresh now m,
      )

  -- An all-empty table of `2 ^ k` slots.
  replicate-IsTable :
      (k : ℕ) → 2 ^ k ≤ 2 ^ 30 → IsTable {V = V} k (replicate (2 ^ k) none) (replicate (2 ^ k) none)
  replicate-IsTable k b = record {
    bound = b;
    keys_len = length-replicate (2 ^ k) none;
    vals_len = length-replicate (2 ^ k) none;
    placed = λ i q at. cc (get_or-replicate {A = Option StrView} (2 ^ k) i none, at);
    filled = λ i q at. cc (get_or-replicate {A = Option StrView} (2 ^ k) i none, at);
  }

  -- `g` is `m` moved to `2 ^ k` slots: every lookup and the count of entries are the same.
  pub record Grown (m : Map V) (k : ℕ) (g : Map V) : Type ℓ where
    pub cap : g.cap ≡ 2 ^ k
    pub len : g.len ≡ m.len
    pub table : IsTable k g.keys g.vals
    pub count : occupied g.keys ≡ occupied m.keys
    pub keys : (q : StrView) → has q g.keys ≡ has q m.keys
    pub reads : (q : StrView) → lookup q g.keys g.vals ≡ lookup q m.keys m.vals

  abbrev pub new_cap_of : Map V → ℕ
  new_cap_of m = if m.cap == 0 then map_initial_cap else u32 (m.cap * 2)

  grow_to_run :
      (m : Map V) (n : ℕ) (t : Table V)
      → rehash m.keys m.vals n (replicate n none, replicate n none) ≡ some t
      → grow_to n m ≡ some (record m { keys = t.0; vals = t.1; cap = n })
  unfolding grow_to
  grow_to_run m n t run = rw (run, grow_to)

  map_grow_run :
      (m : Map V) (n : ℕ) {g : Option (Map V)} → new_cap_of m ≡ n → grow_to n m ≡ g → map_grow m ≡ g
  unfolding map_grow
  map_grow_run m n e run = ap (λ (c : ℕ). grow_to c m) e ∙ run

  pub map_grow-Grown :
      (m : Map V) (k : ℕ)
      → new_cap_of m ≡ 2 ^ k
      → 2 ^ k ≤ 2 ^ 30
      → length m.vals ≡ length m.keys
      → IsInjective m.keys
      → IsFilled m.keys m.vals
      → occupied m.keys < 2 ^ k
      → (g : Map V) × (map_grow m ≡ some g) × Grown m k g
  map_grow-Grown m k e b l inj full room =
      let (t, run, r) =
        rehash-Merged k m.keys m.vals (replicate (2 ^ k) none) (replicate (2 ^ k) none) l
          (replicate-IsTable k b) inj full (λ q h. has-replicate q (2 ^ k))
          (omega (arith, occupied-replicate (2 ^ k))) in
      (
        record m { keys = t.0; vals = t.1; cap = 2 ^ k },
        map_grow_run m (2 ^ k) e (grow_to_run m (2 ^ k) t run),
        record {
          cap = refl;
          len = refl;
          table = r.table;
          count = omega (arith, r.count, occupied-replicate (2 ^ k));
          keys = λ q. ground (arith, r.keys q, has-replicate q (2 ^ k));
          reads = λ q. ground (
            arith,
            r.reads q,
            lookup_absent {V = V} q (replicate (2 ^ k) none) (replicate (2 ^ k) none)
                (has-replicate q (2 ^ k)),
            lookup_absent q m.keys m.vals,
          );
        },
      )
