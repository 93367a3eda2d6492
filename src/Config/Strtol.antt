-- ===== src/Config/Strtol.antt =====
-- config.c, the number of a track line: strtol on decimal digits.
use udprelayd.Base.{
  ℕ, zero, suc, ◌+◌, ◌*◌, ◌/◌, ◌%◌, ◌≤◌, ◌<◌, ◌≡◌, refl, ◌∙◌, ap, sym, true, false, List, [], ◌∷◌,
  ◌++◌, length, length-append, arith,
}
use udprelayd.Base.Int.{pos}
use udprelayd.Config.Bytes.{
  is_delim, skip_spaces, sign, digit, digits, prefix, to_long, to_int, strtol,
}
use udprelayd.Config.Words.{all_plain}
use udprelayd.Config.Decimal.{
  decimal, decimal_from, decimal-induction, AllDigits, decimal-AllDigits, digits-decimal,
}

-- The first digit of a positive number is not 0.
Leads : ℕ → List ℕ → Type 0
Leads n bs = 0 < n → (a : ℕ) × (rest : List ℕ) × (bs ≡ a ∷ rest) × (49 ≤ a) × (a < 58)

decimal-Leads : (n : ℕ) → Leads n (decimal n)
unfolding Leads
decimal-Leads =
    decimal-induction Leads (λ n h positive. (48 + n, [], refl, omega arith, omega arith))
      (λ n bs h ih positive.
        let (a, rest, e, low, high) = ih (omega arith) in
        (a, rest ++ (48 + n % 10) ∷ [], rw e refl, low, high))

AllDigits-all_plain : (bs : List ℕ) → AllDigits bs → all_plain bs ≡ true
unfolding is_delim
AllDigits-all_plain [] h = refl
AllDigits-all_plain (b ∷ bs) h = let low = h.0 in ground (arith, AllDigits-all_plain bs h.2)

pub decimal-all_plain : (n : ℕ) → all_plain (decimal n) ≡ true
decimal-all_plain n = AllDigits-all_plain (decimal n) (decimal-AllDigits n)

abbrev pub pow10 : ℕ → ℕ
pow10 zero = 1
pow10 (suc e) = 10 * pow10 e

Short : ℕ → List ℕ → Type 0
Short n bs = (0 < length bs) × ((e : ℕ) → n < 10 * pow10 e → length bs ≤ suc e)

Short-snoc :
    (n : ℕ) (bs : List ℕ) (b e : ℕ)
    → 10 ≤ n
    → ((e : ℕ) → n / 10 < 10 * pow10 e → length bs ≤ suc e)
    → n < 10 * pow10 e
    → length (bs ++ b ∷ []) ≤ suc e
Short-snoc n bs b zero tens ih h = absurd (omega arith)
Short-snoc n bs b (suc e) tens ih h = omega (arith, ih e (omega arith), length-append bs (b ∷ []))

decimal-Short : (n : ℕ) → Short n (decimal n)
unfolding Short
decimal-Short =
    decimal-induction Short (λ n h. (omega arith, λ e h'. omega arith))
      (λ n bs h ih. (
        omega (arith, length-append bs ((48 + n % 10) ∷ [])),
        λ e h'. Short-snoc n bs (48 + n % 10) e h ih.1 h',
      ))

-- A number that fits an `int` has at most ten digits, and at least one.
pub decimal-length : (n : ℕ) → n < 2147483648 → (0 < length (decimal n)) × (length (decimal n) ≤ 10)
unfolding Short
decimal-length n h =
    let (some_digit, short) = decimal-Short n in (some_digit, short 9 (omega arith))

prefix-decimal : (a : ℕ) (rest : List ℕ) → 49 ≤ a → prefix (a ∷ rest) ≡ (10, a ∷ rest)
unfolding prefix
prefix-decimal a [] h = ground arith
prefix-decimal a (b ∷ []) h = ground arith
prefix-decimal a (b ∷ c ∷ rest) h = ground arith

skip_spaces-digit : (a : ℕ) (rest : List ℕ) → 48 ≤ a → skip_spaces (a ∷ rest) ≡ a ∷ rest
unfolding skip_spaces
skip_spaces-digit a rest h = ground arith

sign-digit : (a : ℕ) (rest : List ℕ) → 48 ≤ a → sign (a ∷ rest) ≡ (false, a ∷ rest)
unfolding sign
sign-digit a rest h = ground arith

to_int-small : (n : ℕ) → n < 2147483648 → to_int false (to_long false n) ≡ pos n
unfolding to_int to_long
to_int-small n h = ground arith

strtol-digits :
    (n : ℕ) (a : ℕ) (rest : List ℕ)
    → 49 ≤ a
    → digits 10 0 (a ∷ rest) ≡ n
    → n < 2147483648
    → strtol (a ∷ rest) ≡ pos n
unfolding strtol
strtol-digits n a rest h value fits =
    rw
      (
        skip_spaces-digit a rest (omega arith),
        sign-digit a rest (omega arith),
        prefix-decimal a rest h,
        value,
      )
      (to_int-small n fits)

strtol_zero : strtol (decimal 0) ≡ pos 0
unfolding strtol to_int sign skip_spaces to_long digits prefix digit decimal decimal_from
strtol_zero = refl

-- strtol reads back the digits of a number that fits an `int`.
pub strtol-decimal : (n : ℕ) → n < 2147483648 → strtol (decimal n) ≡ pos n
unfolding Leads
strtol-decimal zero fits = strtol_zero
strtol-decimal (suc n) fits =
    let (a, rest, e, low, high) = decimal-Leads (suc n) (omega arith) in
    ap strtol e
    ∙ strtol-digits (suc n) a rest low (ap (digits 10 0) (sym e) ∙ (digits-decimal (suc n)).1) fits
