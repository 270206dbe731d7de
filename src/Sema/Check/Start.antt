-- ===== src/Sema/Check/Start.antt =====
-- The state that the check starts in (`sema_check` of src/sema/sema.c, `types_init` of
-- src/sema/types.c) is a good one.
use slop.Base.{inl, inr, ℕ, ◌≡◌, refl, List, [], ◌∷◌, true, false, length, replicate, Option, none}
use slop.Ast.{Item}
use slop.Sema.Types.{TyRef, TypeTable, blank, deref, core_from, core_layout, types_init, ty_core}
use slop.Sema.Types.Kind.{TyKind}
use slop.Sema.Scope.{globals_init, globals_find_type, globals_find_value}
use slop.Support.Map.{map_get, map_init}
use slop.Sema.Check.Program.{sema_init}
use slop.Sema.Check.Layout.Spread.{IsAlign}
use slop.Sema.Check.Ready.{is_core, IsSome, points, Sound, GoodTypes, Good}
use slop.Sema.Check.Total.Types.{get_or-append, blank-Sound}

-- No row of the table is a derived type.
abbrev Flat : List (TyKind × ℕ × ℕ) → Type 0
Flat [] = Unit {0}
Flat ((k, size, align) ∷ rows) = ((points k ≡ false) × IsAlign align) × Flat rows

core_from-Sound :
    (n : ℕ) (rows : List (TyKind × ℕ × ℕ)) (table : TypeTable)
    → Flat rows
    → ((r : TyRef) → Sound n (deref table r))
    → (r : TyRef) → Sound n (deref (core_from rows table) r)
unfolding core_from
core_from-Sound n [] table f h r = h r
core_from-Sound n ((k, size, align) ∷ rows) table f h r =
    core_from-Sound n rows _ f.1
      (λ q.
        get_or-append (Sound n) table.heap _ (blank TyKind.poison) q (h q)
          (record { align = f.0.1; elem = λ e. cc (e, f.0.0); decl = λ i e. cc }) (blank-Sound n))
      r

types_init-cores : (k : TyKind) → is_core k ≡ true → IsSome (ty_core types_init k)
unfolding types_init ty_core
types_init-cores TyKind.ptr c = cc
types_init-cores TyKind.array c = cc
types_init-cores TyKind.struct c = cc
types_init-cores TyKind.enum c = cc
types_init-cores _ c = tt

types_init-GoodTypes : (n : ℕ) → GoodTypes types_init n
unfolding types_init
types_init-GoodTypes n = record {
  cores = types_init-cores;
  sound =
      core_from-Sound n core_layout (record { heap = []; core = replicate 21 none; derived = [] })
        core_layout-Flat (λ r. blank-Sound n);
}
  where
    core_layout-Flat : Flat core_layout
    core_layout-Flat = (
      (refl, inl refl),
      (
        (refl, inl refl),
        (
          (refl, inl refl),
          (
            (refl, inr (inl refl)),
            (
              (refl, inr (inl refl)),
              (
                (refl, inr (inr refl)),
                (
                  (refl, inr (inr refl)),
                  (
                    (refl, inr (inl refl)),
                    (
                      (refl, inr (inr refl)),
                      (
                        (refl, inl refl),
                        (
                          (refl, inr (inl refl)),
                          (
                            (refl, inr (inr refl)),
                            (
                              (refl, inl refl),
                              (
                                (refl, inl refl),
                                (
                                  (refl, inl refl),
                                  ((refl, inr (inr refl)), ((refl, inl refl), tt)),
                                ),
                              ),
                            ),
                          ),
                        ),
                      ),
                    ),
                  ),
                ),
              ),
            ),
          ),
        ),
      ),
    )

pub sema_init-Good : (items : List (Option Item)) → Good (sema_init items)
unfolding globals_init globals_find_type map_get map_init globals_find_value
sema_init-Good items = record {
  types = types_init-GoodTypes (length items);
  names = record { types = λ name. tt; values = λ name. tt; members = λ i sym e. cc };
  fn = tt;
}
