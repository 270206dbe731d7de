-- ===== src/Lexer/Number.antt =====
-- The value of an integer literal and its overflow flag (src/lexer/lexer.c, `lex_number`).
use slop.Lexer.Literal.{scan_digits, scan_dec, scan_hex}
use slop.Lexer.State.{is_digit, is_hex_digit, hex_val}
use native.Mathlib.Nat.{div-lt_iff_lt-mul}
use slop.Base.{
  ltb→lt, ℕ, ◌+◌, ◌-◌, ◌*◌, ◌/◌, ◌%◌, ◌^◌, ◌<◌, ◌≤◌, ◌≡◌, refl, List, [], ◌∷◌, Bool, true, false,
  ◌||◌, arith, ltb, if◌then◌else◌, inl, inr, Bool-cases, suc, sym, ◌&&◌, and_split, ◌∙◌, ◌==◌, zero,
  ap, ==_iff, leb, not, Option, none, some, ◌⊎◌,
}

-- The run of digits at the front, and the number that it stands for, without any bound.
pub run_value : (ℕ → Bool) → (ℕ → ℕ) → ℕ → ℕ → List ℕ → ℕ
run_value test digit base n [] = n
run_value test digit base n (c ∷ cs) =
    if test c then run_value test digit base (n * base + digit c) cs else n

-- While the flag is down the word is the number; once it is up the number is past 64 bits.
abbrev Agrees : ℕ → ℕ → Bool → Type 0
Agrees n v overflow =
    (v ≡ n % 2 ^ 64) × (overflow ≡ false → n < 2 ^ 64) × (overflow ≡ true → 2 ^ 64 ≤ n)

-- The test `v > (UINT64_MAX - d) / base` is exact.
overflow_test :
    (base d v : ℕ)
    → 0 < base
    → d < 2 ^ 64
    → (ltb ((2 ^ 64 - 1 - d) / base) v ≡ true → 2 ^ 64 ≤ v * base + d)
      × (ltb ((2 ^ 64 - 1 - d) / base) v ≡ false → v * base + d < 2 ^ 64)
overflow_test base d v p q =
    let iff = div-lt_iff_lt-mul {k = base} {x = 2 ^ 64 - 1 - d} {y = v} p in
    (λ h. omega (arith, iff.0 (ltb→lt _ _ h)), λ h. below h iff.1)
  where
    below :
        ltb ((2 ^ 64 - 1 - d) / base) v ≡ false
        → (2 ^ 64 - 1 - d < v * base → (2 ^ 64 - 1 - d) / base < v)
        → v * base + d < 2 ^ 64
    below h back = ground (arith, back)

-- What the loop needs of a base: it is positive, its digits are small, and a wrapped word may be
-- scaled in place of the number.
pub record IsBase (test : ℕ → Bool) (digit : ℕ → ℕ) (base : ℕ) : Type 0 where
  pub positive : 0 < base
  pub small : (c : ℕ) → test c ≡ true → digit c < 2 ^ 64
  pub wraps : (n d : ℕ) → (n % 2 ^ 64 * base + d) % 2 ^ 64 ≡ (n * base + d) % 2 ^ 64

module _ {test : ℕ → Bool} {digit : ℕ → ℕ} {base : ℕ} (b : IsBase test digit base) where
  Agrees-step :
      (n v : ℕ) (overflow : Bool) (d : ℕ)
      → d < 2 ^ 64
      → Agrees n v overflow
      → Agrees
          (n * base + d)
          ((v * base + d) % 2 ^ 64)
          (overflow || ltb ((2 ^ 64 - 1 - d) / base) v)
  Agrees-step n v true d small (e, under, over) =
      (rw e (b.wraps n d), λ h. cc, λ _. scaled (over refl) b.positive)
    where
      scaled : 2 ^ 64 ≤ n → 0 < base → 2 ^ 64 ≤ n * base + d
      scaled h p = grind arith
  Agrees-step n v false d small (e, under, over) =
      let t = overflow_test base d v b.positive small in
      let same : v ≡ n = omega (arith, under refl) in
      (rw e (b.wraps n d), rw (← same) t.1, rw (← same) t.0)

  scan_digits-Agrees :
      (cs : List ℕ) (n v : ℕ) (overflow : Bool)
      → Agrees n v overflow
      → Agrees
          (run_value test digit base n cs)
          (scan_digits test digit base cs v overflow).value
          (scan_digits test digit base cs v overflow).overflow
  unfolding run_value scan_digits
  scan_digits-Agrees [] n v o a = a
  scan_digits-Agrees (c ∷ cs) n v o a = elim (Bool-cases (test c)) [
    | inl h ↦ rw h (
        scan_digits-Agrees cs (n * base + digit c) _ _
          (Agrees-step n v o (digit c) (b.small c h) a))
    | inr h ↦ rw h a
  ]

dec-IsBase : IsBase is_digit (λ c. c - b'0') 10
unfolding is_digit
dec-IsBase = record {
  positive = omega arith;
  small = λ c h. ground arith;
  wraps = λ n d. omega arith;
}

-- The digits of each base at the front of the text, as a number without any bound.
pub dec_value : List ℕ → ℕ
dec_value cs = run_value is_digit (λ c. c - b'0') 10 0 cs

-- What a hexadecimal digit stands for.
pub hex_digit : ℕ → Option ℕ
hex_digit c =
    if leb 48 c && leb c 57
    then some (c - 48)
    else if leb 97 c && leb c 102
    then some (c - 87)
    else if leb 65 c && leb c 70
    then some (c - 55)
    else none

pub hex_run : ℕ → List ℕ → ℕ
hex_run n [] = n
hex_run n (c ∷ cs) = elim (hex_digit c) [ none ↦ n | some d ↦ hex_run (n * 16 + d) cs ]

-- The number that the hexadecimal digits at the front stand for, in either case of the letters.
pub hex_value : List ℕ → ℕ
hex_value cs = hex_run 0 cs

-- A decimal literal's word is its value modulo 2 ^ 64, and the flag is up exactly when the value
-- does not fit.
pub scan_dec-value :
    (cs : List ℕ)
    → ((scan_dec cs).value ≡ dec_value cs % 2 ^ 64)
      × ((scan_dec cs).overflow ≡ false → dec_value cs < 2 ^ 64)
      × ((scan_dec cs).overflow ≡ true → 2 ^ 64 ≤ dec_value cs)
unfolding scan_dec dec_value
scan_dec-value cs =
    scan_digits-Agrees dec-IsBase cs 0 0 false (omega arith, λ h. omega arith, λ h. cc)

-- The digit of a byte and the code's reading of it are the same.
agree : Option ℕ → Bool → ℕ → Bool
agree none b v = not b
agree (some d) b v = b && (v == d) && ltb d 16

agrees : ℕ → Bool
agrees c = agree (hex_digit c) (is_hex_digit c) (hex_val c)

all_small : ℕ → Bool
all_small zero = true
all_small (suc n) = agrees n && all_small n

all_small-digits : all_small 103 ≡ true
unfolding all_small agrees agree hex_digit is_hex_digit hex_val
all_small-digits = refl

all_small-below : (n c : ℕ) → all_small n ≡ true → c < n → agrees c ≡ true
unfolding all_small
all_small-below zero c h i = elim i [ ]
all_small-below (suc n) c h i =
    let (a, b) = and_split (agrees n) (all_small n) h in
    elim (Bool-cases (c == n)) [
      | inl same ↦ ap agrees ((==_iff c n).0 same) ∙ a
      | inr other ↦ all_small-below n c b (ground (arith, i, other))
    ]

agrees-past : (c : ℕ) → ltb c 103 ≡ false → agrees c ≡ true
unfolding agrees agree hex_digit is_hex_digit is_digit
agrees-past c high = ground arith

agrees-all : (c : ℕ) → agrees c ≡ true
agrees-all c = elim (Bool-cases (ltb c 103)) [
  | inl low ↦ all_small-below 103 c all_small-digits (ltb→lt c 103 low)
  | inr high ↦ agrees-past c high
]

-- A byte that is no digit ends the run; a digit has its value.
agree-cases :
    (o : Option ℕ) (b : Bool) (v : ℕ)
    → agree o b v ≡ true
    → ((o ≡ none) × (b ≡ false)) ⊎ ((b ≡ true) × (o ≡ some v) × (v < 16))
unfolding agree
agree-cases none true v h = cc
agree-cases none false v h = inl (refl, refl)
agree-cases (some d) false v h = cc
agree-cases (some d) true v h =
    let (x, y) = and_split (v == d) (ltb d 16) h in
    let same = (==_iff v d).0 x in inr (refl, ap some (sym same), rw same (ltb→lt d 16 y))

hex_digit-cases :
    (c : ℕ)
    → ((hex_digit c ≡ none) × (is_hex_digit c ≡ false))
      ⊎ ((is_hex_digit c ≡ true) × (hex_digit c ≡ some (hex_val c)) × (hex_val c < 16))
hex_digit-cases c =
    agree-cases (hex_digit c) (is_hex_digit c) (hex_val c) (unfold agrees in agrees-all c)

hex_val-small : (c : ℕ) → is_hex_digit c ≡ true → hex_val c < 16
hex_val-small c h = elim (hex_digit-cases c) [
  | inl (_, other) ↦ cc (other, h)
  | inr (_, _, small) ↦ small
]

hex_run-run_value : (cs : List ℕ) (n : ℕ) → run_value is_hex_digit hex_val 16 n cs ≡ hex_run n cs
unfolding run_value hex_run
hex_run-run_value [] n = refl
hex_run-run_value (c ∷ cs) n = elim (hex_digit-cases c) [
  | inl (e, other) ↦ rw other (rw (e, hex_run) refl)
  | inr (hit, e, _) ↦ rw hit (rw (e, hex_run) (hex_run-run_value cs (n * 16 + hex_val c)))
]

hex-IsBase : IsBase is_hex_digit hex_val 16
hex-IsBase = record {
  positive = omega arith;
  small = λ c h. omega (arith, hex_val-small c h);
  wraps = λ n d. omega arith;
}

-- A hexadecimal literal's word is its value modulo 2 ^ 64, and the flag is up exactly when the
-- value does not fit.
pub scan_hex-value :
    (cs : List ℕ)
    → ((scan_hex cs).value ≡ hex_value cs % 2 ^ 64)
      × ((scan_hex cs).overflow ≡ false → hex_value cs < 2 ^ 64)
      × ((scan_hex cs).overflow ≡ true → 2 ^ 64 ≤ hex_value cs)
unfolding scan_hex hex_value
scan_hex-value cs =
    rw (← hex_run-run_value cs 0)
      (scan_digits-Agrees hex-IsBase cs 0 0 false (omega arith, λ h. omega arith, λ h. cc))
