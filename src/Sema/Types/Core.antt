-- ===== src/Sema/Types/Core.antt =====
-- The core types: their tokens, sizes and ranges (src/sema/types.c).
use slop.Base.{ℕ, ◌*◌, ◌-◌, ◌^◌, ◌<◌, ◌≡◌, refl, ◌↔◌, true, false, arith, if◌then◌else◌, none, some}
use slop.Lexer.Kind.{TokenKind, token_is_core_type, token_kind_name}
use slop.Sema.Types.Kind.{TyKind, ty_is_integer, ty_is_signed}
use slop.Sema.Types.{Ty, TyRef, TypeTable, deref, types_init, ty_core, ty_from_token, ty_int_fits}
use slop.Sema.Types.Spell.{core_name}

-- The greatest value of a core type has this many bits.
abbrev pub value_bits : Ty → ℕ
value_bits t = 8 * t.size - (if ty_is_signed t.kind then 1 else 0)

abbrev pub FitsRange : TyKind → ℕ → Type 0
FitsRange k v =
    (r : TyRef) × (ty_core types_init k ≡ some r)
    × ((deref types_init r).kind ≡ k)
    × ((ty_int_fits types_init (deref types_init r) v ≡ true)
        ↔ (v < 2 ^ value_bits (deref types_init r)))

-- A 64-bit value fits an integer core type exactly when it is below the power of two that the
-- type's size and sign give.
pub ty_int_fits-range : (k : TyKind) (v : ℕ) → ty_is_integer k ≡ true → v < 2 ^ 64 → FitsRange k v
unfolding ty_int_fits ty_core types_init
ty_int_fits-range TyKind.i8 v h small = (1, refl, refl, ground arith)
ty_int_fits-range TyKind.u8 v h small = (2, refl, refl, ground arith)
ty_int_fits-range TyKind.i32 v h small = (3, refl, refl, ground arith)
ty_int_fits-range TyKind.u32 v h small = (4, refl, refl, ground arith)
ty_int_fits-range TyKind.i64 v h small = (5, refl, refl, ground arith)
ty_int_fits-range TyKind.u64 v h small = (6, refl, refl, ground arith)
ty_int_fits-range _ v h small = cc

-- A core type and the token that names it.
abbrev pub Named : TokenKind → Type 0
Named k =
    (r : TyRef) × (ty_from_token types_init k ≡ some r)
    × (core_name (deref types_init r).kind ≡ token_kind_name k)

-- Every token that the lexer calls a core type has a type, and the type's name is the token's
-- spelling.
pub ty_from_token-Named : (k : TokenKind) → token_is_core_type k ≡ true → Named k
unfolding ty_from_token types_init token_is_core_type token_kind_name
ty_from_token-Named TokenKind.kw_i8 h = (1, refl, refl)
ty_from_token-Named TokenKind.kw_u8 h = (2, refl, refl)
ty_from_token-Named TokenKind.kw_i32 h = (3, refl, refl)
ty_from_token-Named TokenKind.kw_u32 h = (4, refl, refl)
ty_from_token-Named TokenKind.kw_i64 h = (5, refl, refl)
ty_from_token-Named TokenKind.kw_u64 h = (6, refl, refl)
ty_from_token-Named TokenKind.kw_f32 h = (7, refl, refl)
ty_from_token-Named TokenKind.kw_f64 h = (8, refl, refl)
ty_from_token-Named TokenKind.kw_b8 h = (9, refl, refl)
ty_from_token-Named TokenKind.kw_b32 h = (10, refl, refl)
ty_from_token-Named TokenKind.kw_b64 h = (11, refl, refl)
ty_from_token-Named TokenKind.kw_void h = (0, refl, refl)
ty_from_token-Named _ h = cc

-- No other token has a type, in any table.
pub ty_from_token-none :
    (table : TypeTable) (k : TokenKind)
    → token_is_core_type k ≡ false
    → ty_from_token table k ≡ none
unfolding ty_from_token token_is_core_type
ty_from_token-none table TokenKind.kw_void h = cc
ty_from_token-none table TokenKind.kw_i8 h = cc
ty_from_token-none table TokenKind.kw_u8 h = cc
ty_from_token-none table TokenKind.kw_i32 h = cc
ty_from_token-none table TokenKind.kw_u32 h = cc
ty_from_token-none table TokenKind.kw_i64 h = cc
ty_from_token-none table TokenKind.kw_u64 h = cc
ty_from_token-none table TokenKind.kw_f32 h = cc
ty_from_token-none table TokenKind.kw_f64 h = cc
ty_from_token-none table TokenKind.kw_b8 h = cc
ty_from_token-none table TokenKind.kw_b32 h = cc
ty_from_token-none table TokenKind.kw_b64 h = cc
ty_from_token-none table _ h = refl
