-- ===== src/Support/Map/Put.antt =====
use native.Mathlib.Nat.{pow-suc}
-- `map_get` and `map_put` (src/support/map.c) implement a finite map from names to values.
use slop.Base.{
  ℕ, suc, ◌+◌, ◌*◌, ◌^◌, ◌<◌, ◌≤◌, ◌≡◌, refl, Bool, true, false, Option, none, some, [], arith,
  length, get_or, set, ◌==◌, if◌then◌else◌, ◌&&◌, bytes_eq, Bool-cases, inl, inr, ◌⊎◌, ◌∙◌, sym, ap,
  ◌≢◌, ==_iff,
}
use slop.Support.StrView.{StrView}
use slop.Support.Map.Linear.{
  Slots, has, occupied, lookup, lookup_absent, occupied-set, lookup-set, has-unoccupied,
}
use slop.Support.Map.Insert.{IsTable, slot_of_stops, lookup-slot, IsTable-set, IsTable-IsInjective}
use slop.Support.Map.Grow.{Grown, map_grow-Grown}
use slop.Support.Map.{Map, u32, slot_of, map_grow, map_get, put_slot, map_put, is_full, get_slot}

module _ {ℓ} {V : Type ℓ} where
  -- What the table maps the name to.
  pub view : Map V → StrView → Option V
  view m q = lookup q m.keys m.vals

  -- The table is unused, or a probed table of a power of two slots, at most three quarters full.
  pub record IsValid (m : Map V) : Type ℓ where
    pub shape :
        ((m.cap ≡ 0) × (m.keys ≡ []) × (m.vals ≡ []))
        ⊎ ((k : ℕ) × (m.cap ≡ 2 ^ k) × (4 ≤ 2 ^ k) × IsTable k m.keys m.vals)
    pub count : occupied m.keys ≡ m.len
    pub load : m.len * 4 ≤ m.cap * 3

  -- A table that has room for one more entry.
  pub record HasRoom (m : Map V) (k : ℕ) : Type ℓ where
    pub cap : m.cap ≡ 2 ^ k
    pub least : 4 ≤ 2 ^ k
    pub table : IsTable k m.keys m.vals
    pub count : occupied m.keys ≡ m.len
    pub load : (m.len + 1) * 4 ≤ 2 ^ k * 3

  -- Adding `key` with `val` to `m` gave the map `r.0` and the answer `r.1`.
  pub record Puts (m : Map V) (key : StrView) (val : V) (r : Map V × Bool) : Type ℓ where
    pub valid : IsValid r.0
    pub fresh : (r.1 ≡ true → view m key ≡ none) × (r.1 ≡ false → view m key ≢ none)
    pub len : r.0.len ≡ (if r.1 then m.len + 1 else m.len)
    pub reads : (q : StrView) → view r.0 q ≡ (if r.1 && bytes_eq key q then some val else view m q)

  pub put_slot-Puts :
      (m : Map V) (k : ℕ) (key : StrView) (val : V)
      → HasRoom m k
      → (r : Map V × Bool) × (put_slot m key val ≡ some r) × Puts m key val r
  unfolding put_slot view
  put_slot-Puts m k key val h =
      let (i, found, lt, at) = slot_of_stops h.table key (omega (arith, h.count, h.load)) in
      go i (rw h.cap found) lt at
    where
      t : IsTable k m.keys m.vals
      t = h.table

      go :
          (i : ℕ)
          → slot_of m.keys m.cap key ≡ some i
          → i < 2 ^ k
          → ((get_or m.keys i none ≡ none) × (has key m.keys ≡ false))
            ⊎ (get_or m.keys i none ≡ some key)
          → (r : Map V × Bool) × (put_slot m key val ≡ some r) × Puts m key val r
      go i found lt (inl (free, absent)) =
          let inside : i < length m.keys = omega (arith, t.keys_len) in
          (
            (
              record m {
                keys = set m.keys i (some key);
                vals = set m.vals i (some val);
                len = u32 (m.len + 1);
              },
              true,
            ),
            rw (found, put_slot) (rw (free, put_slot)),
            record {
              valid = record {
                shape =
                    inr (k, h.cap, h.least, IsTable-set t key val i lt free (rw h.cap at found));
                count =
                    omega (arith, occupied-set key m.keys i inside free, h.count, h.load, t.bound);
                load = omega (arith, h.load, h.cap, t.bound);
              };
              fresh = (λ e. lookup_absent key m.keys m.vals absent, λ e. cc);
              len = omega (arith, h.load, t.bound);
              reads = λ q.
                  lookup-set key val q m.keys m.vals i inside (t.vals_len ∙ sym t.keys_len) free
                    absent;
            },
          )
      go i found lt (inr at) =
          let (v, stored) = t.filled i key at in
          (
            (m, false),
            rw (found, put_slot) (rw (at, put_slot)),
            record {
              valid = record {
                shape = inr (k, h.cap, h.least, t);
                count = h.count;
                load = omega arith;
              };
              fresh = (λ e. cc, λ e. λ z. cc (lookup-slot t key i at, stored, z));
              len = refl;
              reads = λ q. refl;
            },
          )

  -- A grown table has room for one more entry.
  HasRoom-Grown :
      (m : Map V) (k : ℕ) {g : Map V}
      → Grown m k g
      → occupied m.keys ≡ m.len
      → 4 ≤ 2 ^ k
      → (m.len + 1) * 4 ≤ 2 ^ k * 3
      → HasRoom g k
  HasRoom-Grown m k g count least load = record {
    cap = g.cap;
    least = least;
    table = g.table;
    count = g.count ∙ count ∙ sym g.len;
    load = omega (arith, g.len);
  }

  -- What is put into the grown table is put into the table.
  Puts-Grown :
      (m : Map V) (k : ℕ) {g : Map V} (key : StrView) (val : V) {r : Map V × Bool}
      → Grown m k g
      → Puts g key val r
      → Puts m key val r
  unfolding view
  Puts-Grown m k key val g p = record {
    valid = p.valid;
    fresh = rw (← g.reads key) p.fresh;
    len = rw (← g.len) p.len;
    reads = λ q. rw (← g.reads q) (p.reads q);
  }

  put-Grown :
      (m : Map V) (k : ℕ) (key : StrView) (val : V)
      → is_full m ≡ true
      → occupied m.keys ≡ m.len
      → 4 ≤ 2 ^ k
      → (m.len + 1) * 4 ≤ 2 ^ k * 3
      → (g : Map V) × (map_grow m ≡ some g) × Grown m k g
      → (r : Map V × Bool) × (map_put m key val ≡ some r) × Puts m key val r
  unfolding map_put
  put-Grown m k key val full count least load (g, grown, moved) =
      let (r, run, p) = put_slot-Puts g k key val (HasRoom-Grown m k moved count least load) in
      (r, rw (full, map_put) (rw (grown, map_put) run), Puts-Grown m k key val moved p)

  put_roomy :
      (m : Map V) (key : StrView) (val : V) {r : Option (Map V × Bool)}
      → is_full m ≡ false
      → put_slot m key val ≡ r
      → map_put m key val ≡ r
  unfolding map_put
  put_roomy m key val room run = rw (room, map_put) run

  -- The first insertion allocates 64 slots.
  grow_unused :
      (m : Map V)
      → m.cap ≡ 0
      → m.keys ≡ []
      → m.vals ≡ []
      → (g : Map V) × (map_grow m ≡ some g) × Grown m 6 g
  unfolding occupied
  grow_unused m c no_keys no_vals =
      map_grow-Grown m 6 (rw c) (omega arith) (rw (no_keys, no_vals))
        (λ i j q p. cc (ap (λ (ks : Slots). get_or ks i none) no_keys, p))
        (λ i q p. cc (ap (λ (ks : Slots). get_or ks i none) no_keys, p)) (rw no_keys (omega arith))

  grow_full :
      (m : Map V) (k : ℕ)
      → m.cap ≡ 2 ^ k
      → m.cap ≤ 2 ^ 29
      → 4 ≤ 2 ^ k
      → IsTable k m.keys m.vals
      → occupied m.keys < 2 ^ k
      → (g : Map V) × (map_grow m ≡ some g) × Grown m (suc k) g
  grow_full m k c small least t room =
      let double = pow-suc 2 k in
      map_grow-Grown m (suc k) (rw c (ground (arith, double))) (omega (arith, double))
        (t.vals_len ∙ sym t.keys_len) (IsTable-IsInjective t) t.filled (omega (arith, double))

  -- `map_put` on a valid table below the largest size always returns. It answers 1 exactly when
  -- the name was absent; then the name maps to the value, the count is one more, and no other
  -- lookup changes. On a name that is present nothing changes. The table stays valid.
  pub map_put-Puts :
      (m : Map V) (key : StrView) (val : V)
      → IsValid m
      → m.cap ≤ 2 ^ 29
      → (r : Map V × Bool) × (map_put m key val ≡ some r) × Puts m key val r
  map_put-Puts m key val v small = split v.shape
    where
      split :
          ((m.cap ≡ 0) × (m.keys ≡ []) × (m.vals ≡ []))
            ⊎ ((k : ℕ) × (m.cap ≡ 2 ^ k) × (4 ≤ 2 ^ k) × IsTable k m.keys m.vals)
          → (r : Map V × Bool) × (map_put m key val ≡ some r) × Puts m key val r
      split (inl (unused, no_keys, no_vals)) =
          put-Grown m 6 key val (rw unused) v.count (omega arith) (omega (arith, v.load))
            (grow_unused m unused no_keys no_vals)
      split (inr (k, size, least, t)) = elim (Bool-cases (is_full m)) [
        | inl full ↦
            put-Grown m (suc k) key val full v.count (omega (arith, pow-suc 2 k))
              (omega (arith, pow-suc 2 k, v.load, size))
              (grow_full m k size small least t (omega (arith, v.count, v.load, size)))
        | inr room ↦
            let (r, run, p) = put_slot-Puts m k key val (record {
              cap = size;
              least = least;
              table = t;
              count = v.count;
              load = (ground (arith, v.load, t.bound));
            }) in
            (r, put_roomy m key val room run, p)
      ]

  get_slot-view :
      (m : Map V) (k : ℕ) (key : StrView)
      → m.cap ≡ 2 ^ k
      → IsTable k m.keys m.vals
      → occupied m.keys < 2 ^ k
      → get_slot m key ≡ some (lookup key m.keys m.vals)
  unfolding get_slot
  get_slot-view m k key size t room =
      let (i, found, lt, at) = slot_of_stops t key room in go i (rw size found) at
    where
      go :
          (i : ℕ)
          → slot_of m.keys m.cap key ≡ some i
          → ((get_or m.keys i none ≡ none) × (has key m.keys ≡ false))
            ⊎ (get_or m.keys i none ≡ some key)
          → get_slot m key ≡ some (lookup key m.keys m.vals)
      go i found (inl (free, absent)) =
          rw (found, get_slot)
            (rw (free, get_slot) (ap some (sym (lookup_absent key m.keys m.vals absent))))
      go i found (inr at) =
          rw (found, get_slot) (rw (at, get_slot) (ap some (sym (lookup-slot t key i at))))

  -- On a valid table `map_get` returns, and what it returns is the value of the abstract map.
  pub map_get-view : (m : Map V) (key : StrView) → IsValid m → map_get m key ≡ some (view m key)
  unfolding map_get view
  map_get-view m key v = elim (Bool-cases (m.len == 0)) [
    | inl none_in ↦ rw none_in (
        ap some (
          sym (
            lookup_absent key m.keys m.vals
              (has-unoccupied key m.keys (v.count ∙ (==_iff m.len 0).0 none_in)))))
    | inr some_in ↦ rw some_in (split v.shape some_in)
  ]
    where
      split :
          ((m.cap ≡ 0) × (m.keys ≡ []) × (m.vals ≡ []))
            ⊎ ((k : ℕ) × (m.cap ≡ 2 ^ k) × (4 ≤ 2 ^ k) × IsTable k m.keys m.vals)
          → (m.len == 0) ≡ false
          → get_slot m key ≡ some (lookup key m.keys m.vals)
      split (inl (unused, _, _)) h = absurd (ground (arith, v.load))
      split (inr (k, size, least, t)) h =
          get_slot-view m k key size t (omega (arith, v.count, v.load, size))
