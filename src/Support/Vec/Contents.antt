-- ===== src/Support/Vec/Contents.antt =====
-- The growable array is a list: a push appends (src/support/vec.c).
use slop.Base.{
  ℕ, zero, suc, ◌+◌, ◌*◌, ◌-◌, ◌%◌, ◌^◌, ◌≤◌, ◌<◌, ◌≡◌, refl, ap, ◌∙◌, List, [], ◌∷◌, ◌++◌, arith,
  length, set, take, replicate, length-append, length-set, length-replicate, ◌==◌, if◌then◌else◌,
  Bool-cases, inl, inr, false, ==_iff, take-set-suc,
}
use slop.Support.Vec.{Vec, contents, vec_reserve, vec_push, vec_push_ptr}

module _ {ℓ} {A : Type ℓ} where
  -- The buffer has `cap` slots, and the elements in use lie in it.
  pub record IsValid (v : Vec A) : Type ℓ where
    pub sized : length v.slots ≡ v.cap
    pub within : v.len ≤ v.cap

  take-append_le : (n : ℕ) (xs ys : List A) → n ≤ length xs → take n (xs ++ ys) ≡ take n xs
  take-append_le zero xs ys h = refl
  take-append_le (suc n) [] ys h = elim h [ ]
  take-append_le (suc n) (x ∷ xs) ys h = ap (◌∷◌ x) (take-append_le n xs ys (omega arith))

  set-set_self : (xs : List A) (i : ℕ) (a b : A) → set (set xs i a) i b ≡ set xs i b
  set-set_self [] i a b = refl
  set-set_self (x ∷ xs) zero a b = refl
  set-set_self (x ∷ xs) (suc i) a b = ap (◌∷◌ x) (set-set_self xs i a b)

  reserve_full :
      (junk : A) (v : Vec A) (c : ℕ)
      → v.len ≡ v.cap
      → (if v.cap == 0 then 8 else (v.cap * 2) % 2 ^ 32) ≡ c
      → vec_reserve junk v ≡ record v { slots = v.slots ++ replicate (c - v.cap) junk; cap = c }
  unfolding vec_reserve
  reserve_full junk v c full e = ground (arith, ap (λ (n : ℕ). replicate (n - v.cap) junk) e)

  -- What growing keeps, and the room that it makes.
  pub record Reserved (v r : Vec A) : Type ℓ where
    pub sized : length r.slots ≡ r.cap
    pub room : r.len < r.cap
    pub len : r.len ≡ v.len
    pub kept : take v.len r.slots ≡ take v.len v.slots

  reserve-Reserved :
      (junk : A) (v : Vec A) → IsValid v → v.cap < 2 ^ 31 → Reserved v (vec_reserve junk v)
  reserve-Reserved junk v h small = elim (Bool-cases (v.len == v.cap)) [
    | inl full ↦ grown ((==_iff v.len v.cap).0 full)
    | inr part ↦
        rw (reserve_part part)
          (record { sized = h.sized; room = ground arith; len = refl; kept = refl })
  ]
    where
      reserve_part : (v.len == v.cap) ≡ false → vec_reserve junk v ≡ v
      reserve_part e = unfold vec_reserve in rw e

      c : ℕ
      c = if v.cap == 0 then 8 else (v.cap * 2) % 2 ^ 32

      larger : v.cap < c
      larger = ground arith

      grown : v.len ≡ v.cap → Reserved v (vec_reserve junk v)
      grown full = rw (reserve_full junk v c full refl) (record {
        sized = omega (
          arith,
          length-append v.slots (replicate (c - v.cap) junk),
          length-replicate (c - v.cap) junk,
          larger,
        );
        room = omega (arith, larger);
        len = refl;
        kept = take-append_le v.len v.slots (replicate (c - v.cap) junk) (omega (arith, h.sized));
      })

  -- A push appends the item to the contents, keeps the array valid and loses nothing, growing or
  -- not. Below 2 ^ 31 slots the doubling does not wrap.
  pub vec_push_ptr-append :
      (junk zeroed : A) (v : Vec A) (item : A)
      → IsValid v
      → v.cap < 2 ^ 31
      → IsValid (vec_push_ptr junk zeroed v item)
        × (contents (vec_push_ptr junk zeroed v item) ≡ contents v ++ item ∷ [])
  unfolding vec_push_ptr vec_push
  vec_push_ptr-append junk zeroed v item h small =
      let r = vec_reserve junk v in
      let g : Reserved v r = reserve-Reserved junk v h small in
      let next : (r.len + 1) % 2 ^ 32 ≡ suc r.len = omega (arith, g.len, h.within) in
      (
        record {
          sized =
              length-set (set r.slots r.len zeroed) r.len item
              ∙ (length-set r.slots r.len zeroed ∙ g.sized);
          within = omega (arith, g.room);
        },
        rw (next, set-set_self r.slots r.len zeroed item)
            (take-set-suc r.len r.slots item (omega (arith, g.room, g.sized))
              ∙ ap (λ (xs : List A). xs ++ item ∷ [])
                  (ap (λ (n : ℕ). take n r.slots) g.len ∙ g.kept)),
      )
