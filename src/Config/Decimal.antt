-- ===== src/Config/Decimal.antt =====
-- config.c, the number of a track line: numbers in decimal digits and their value.
use udprelayd.Base.{
  ℕ, zero, suc, ◌+◌, ◌*◌, ◌/◌, ◌%◌, ◌≤◌, ◌<◌, ◌≡◌, ◌∙◌, true, List, [], ◌∷◌, ◌++◌, ltb,
  if◌then◌else◌, arith, Bool-cases, inl, inr,
}
use udprelayd.Config.Bytes.{digit, digits}

-- The digits of a number, with fuel.
unfoldable pub decimal_from : ℕ → ℕ → List ℕ
decimal_from zero n = []
decimal_from (suc k) n =
    let rest = decimal_from k (n / 10) in
    if ltb n 10 then (48 + n) ∷ [] else rest ++ (48 + n % 10) ∷ []

-- One more than the number is fuel enough.
unfoldable pub decimal : ℕ → List ℕ
decimal n = decimal_from (suc n) n

abbrev pub AllDigits : List ℕ → Type 0
AllDigits [] = Unit
AllDigits (b ∷ bs) = (48 ≤ b) × (b < 58) × AllDigits bs

AllDigits-snoc : (bs : List ℕ) (b : ℕ) → AllDigits bs → 48 ≤ b → b < 58 → AllDigits (bs ++ b ∷ [])
AllDigits-snoc [] b h low high = (low, high, tt)
AllDigits-snoc (a ∷ bs) b h low high = (h.0, h.1, AllDigits-snoc bs b h.2 low high)

decimal_from-small : (k n : ℕ) → n < 10 → decimal_from (suc k) n ≡ (48 + n) ∷ []
unfolding decimal_from
decimal_from-small k n h = ground arith

decimal_from-large :
    (k n : ℕ) → 10 ≤ n → decimal_from (suc k) n ≡ decimal_from k (n / 10) ++ (48 + n % 10) ∷ []
unfolding decimal_from
decimal_from-large k n h = ground arith

-- A property of the digits of all numbers, from the one-digit numbers on.
decimal_from-induction :
    (P : ℕ → List ℕ → Type 0)
    → ((n : ℕ) → n < 10 → P n ((48 + n) ∷ []))
    → ((n : ℕ) (bs : List ℕ) → 10 ≤ n → P (n / 10) bs → P n (bs ++ (48 + n % 10) ∷ []))
    → (k n : ℕ) → n < k
    → P n (decimal_from k n)
decimal_from-induction P small large zero n h = absurd (omega arith)
decimal_from-induction P small large (suc k) n h = elim (Bool-cases (ltb n 10)) [
  | inl low ↦ rw (decimal_from-small k n (ground arith)) (small n (ground arith))
  | inr high ↦
      let tens : 10 ≤ n = ground arith in
      rw (decimal_from-large k n tens) (
        large n (decimal_from k (n / 10)) tens
          (decimal_from-induction P small large k (n / 10) (omega arith)))
]

pub decimal-induction :
    (P : ℕ → List ℕ → Type 0)
    → ((n : ℕ) → n < 10 → P n ((48 + n) ∷ []))
    → ((n : ℕ) (bs : List ℕ) → 10 ≤ n → P (n / 10) bs → P n (bs ++ (48 + n % 10) ∷ []))
    → (n : ℕ) → P n (decimal n)
unfolding decimal
decimal-induction P small large n = decimal_from-induction P small large (suc n) n (omega arith)

pub decimal-AllDigits : (n : ℕ) → AllDigits (decimal n)
decimal-AllDigits =
    decimal-induction (λ n bs. AllDigits bs) (λ n h. (omega arith, omega arith, tt))
      (λ n bs h ih. AllDigits-snoc bs (48 + n % 10) ih (omega arith) (omega arith))

digit-value : (d : ℕ) → d < 10 → digit (48 + d) ≡ d
unfolding digit
digit-value d h = ground arith

is_digit : (b : ℕ) → 48 ≤ b → b < 58 → ltb (digit b) 10 ≡ true
unfolding digit
is_digit b low high = ground arith

digits-append :
    (acc : ℕ) (bs : List ℕ) (d : ℕ)
    → AllDigits bs
    → d < 10
    → digits 10 acc (bs ++ (48 + d) ∷ []) ≡ digits 10 acc bs * 10 + d
unfolding digits
digits-append acc [] d h low = rw (digit-value d low) (ground arith)
digits-append acc (b ∷ bs) d h low =
    rw (is_digit b h.0 h.1) (digits-append (acc * 10 + digit b) bs d h.2 low)

pub digits-decimal : (n : ℕ) → AllDigits (decimal n) × (digits 10 0 (decimal n) ≡ n)
unfolding digits
digits-decimal =
    decimal-induction (λ n bs. AllDigits bs × (digits 10 0 bs ≡ n))
      (λ n h. ((omega arith, omega arith, tt), rw (digit-value n h) (ground arith)))
      (λ n bs h ih. (
        AllDigits-snoc bs (48 + n % 10) ih.0 (omega arith) (omega arith),
        digits-append 0 bs (n % 10) ih.0 (omega arith) ∙ rw ih.1 (omega arith),
      ))
