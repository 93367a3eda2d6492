-- ===== src/Base/Lists.antt =====
-- Lists measured by native numbers, membership as a Boolean test, and lists without repetition.
use Prim.Native.Nat.{ℕ, zero, suc, ◌+◌, ◌-◌, ◌≤◌}
use mathlib.Core.Path.{◌≡◌, refl}
use mathlib.Core.Logic.{inl, inr}
use mathlib.Core.Bool.{Bool, true, false, ◌||◌}
use mathlib.Core.List.{List, [], ◌∷◌, ◌++◌, append_assoc, append-nil}
use native.Mathlib.Omega.{arith}
use native.Mathlib.Decide.{dec_le}
use udprelayd.Base.Tests.{◌==◌, ==_iff, Bool-cases}

module _ {ℓ} {A : Type ℓ} where
  abbrev pub length : List A → ℕ
  length [] = 0
  length (x ∷ xs) = suc (length xs)

  abbrev pub take : ℕ → List A → List A
  take zero xs = []
  take (suc n) [] = []
  take (suc n) (x ∷ xs) = x ∷ take n xs

  abbrev pub drop : ℕ → List A → List A
  drop zero xs = xs
  drop (suc n) [] = []
  drop (suc n) (x ∷ xs) = drop n xs

  pub length-append : (xs ys : List A) → length (xs ++ ys) ≡ length xs + length ys
  length-append [] ys = omega arith
  length-append (x ∷ xs) ys = omega (arith, length-append xs ys)

  pub drop_of_length-le : (n : ℕ) (xs : List A) → length xs ≤ n → drop n xs ≡ []
  drop_of_length-le zero [] h = refl
  drop_of_length-le zero (x ∷ xs) h = absurd (omega arith)
  drop_of_length-le (suc n) [] h = refl
  drop_of_length-le (suc n) (x ∷ xs) h = drop_of_length-le n xs (omega arith)

-- Lists brought together to the right.
pub ruleset list_laws = (append-nil, append_assoc)

-- `a` occurs in the list.
abbrev pub has : ℕ → List ℕ → Bool
has a [] = false
has a (x ∷ xs) = (a == x) || has a xs

pub has-append : (a : ℕ) (xs ys : List ℕ) → has a (xs ++ ys) ≡ (has a xs || has a ys)
has-append a [] ys = refl
has-append a (x ∷ xs) ys = ground (arith, has-append a xs ys)

pub not-has-append :
    (a : ℕ) (xs ys : List ℕ) → has a (xs ++ ys) ≡ false → (has a xs ≡ false) × (has a ys ≡ false)
not-has-append a [] ys h = (refl, h)
not-has-append a (x ∷ xs) ys h = ground (arith, not-has-append a xs ys)

pub has-ne : (a b : ℕ) (xs : List ℕ) → has a xs ≡ false → has b xs ≡ true → (a == b) ≡ false
has-ne a b xs o i = elim (Bool-cases (a == b)) [
  | inl e ↦ absurd (differ (rw ((==_iff a b).0 e) at o))
  | inr ne ↦ ne
]
  where
    differ : has b xs ≡ false → ⊥
    differ o' = cc

-- No element occurs twice.
abbrev pub IsDistinct : List ℕ → Type 0
IsDistinct [] = Unit
IsDistinct (x ∷ xs) = (has x xs ≡ false) × IsDistinct xs

pub IsDistinct-snoc :
    (x : ℕ) (xs : List ℕ) → has x xs ≡ false → IsDistinct xs → IsDistinct (xs ++ x ∷ [])
IsDistinct-snoc x [] o d = (refl, tt)
IsDistinct-snoc x (y ∷ xs) o d =
    (ground (arith, has-append y xs (x ∷ [])), IsDistinct-snoc x xs (ground arith) d.1)

pub IsDistinct-rotate : (xs ys : List ℕ) → IsDistinct (xs ++ ys) → IsDistinct (ys ++ xs)
IsDistinct-rotate [] ys d = rw append-nil d
IsDistinct-rotate (x ∷ xs) ys d = rw (← append_assoc ys (x ∷ []) xs) (
    IsDistinct-rotate xs (ys ++ x ∷ [])
      (rw (← append_assoc xs ys (x ∷ [])) (IsDistinct-snoc x (xs ++ ys) d.0 d.1)))

pub not-has-middle :
    (a x : ℕ) (kept rest : List ℕ) → has a (kept ++ x ∷ rest) ≡ false → has a (kept ++ rest) ≡ false
not-has-middle a x [] rest o = ground arith
not-has-middle a x (k ∷ kept) rest o = ground (arith, not-has-middle a x kept rest)

pub distinct-middle :
    (x : ℕ) (kept rest : List ℕ) → IsDistinct (kept ++ x ∷ rest) → has x (kept ++ rest) ≡ false
distinct-middle x [] rest d = d.0
distinct-middle x (k ∷ kept) rest d =
    ne (not-has-append k kept (x ∷ rest) d.0).1 (distinct-middle x kept rest d.1)
  where
    ne : has k (x ∷ rest) ≡ false → has x (kept ++ rest) ≡ false → has x (k ∷ kept ++ rest) ≡ false
    ne o o' = ground arith

pub IsDistinct-insert :
    (x : ℕ) (xs ys : List ℕ)
    → has x (xs ++ ys) ≡ false
    → IsDistinct (xs ++ ys)
    → IsDistinct (xs ++ x ∷ ys)
IsDistinct-insert x [] ys o d = (o, d)
IsDistinct-insert x (y ∷ xs) ys o d = (
  apart (not-has-append y xs ys d.0) (ground arith),
  IsDistinct-insert x xs ys (ground arith) d.1,
)
  where
    apart :
        (has y xs ≡ false) × (has y ys ≡ false) → (x == y) ≡ false → has y (xs ++ x ∷ ys) ≡ false
    apart o ne = ground (arith, has-append y xs (x ∷ ys))

pub IsDistinct-prefix : (xs ys : List ℕ) → IsDistinct (xs ++ ys) → IsDistinct xs
IsDistinct-prefix [] ys d = tt
IsDistinct-prefix (x ∷ xs) ys d = ((not-has-append x xs ys d.0).0, IsDistinct-prefix xs ys d.1)

module _ {ℓ} {A : Type ℓ} where
  -- The last `n` elements.
  unfoldable pub last_n : ℕ → List A → List A
  last_n n xs = drop (length xs - n) xs

  pub last_n-short : (n : ℕ) (xs : List A) → length xs ≤ n → last_n n xs ≡ xs
  unfolding last_n
  last_n-short n xs h = rw (sub_of_le (length xs) n h)
    where
      sub_of_le : (a b : ℕ) → a ≤ b → a - b ≡ 0
      sub_of_le a b h = omega arith

  pub last_n-drop : (n : ℕ) (x : A) (xs : List A) → n ≤ length xs → last_n n (x ∷ xs) ≡ last_n n xs
  unfolding last_n
  last_n-drop n x xs h = rw (step (length xs) n h)
    where
      step : (a b : ℕ) → b ≤ a → suc a - b ≡ suc (a - b)
      step a b h = omega arith

  pub length-last_n-le : (n : ℕ) (xs : List A) → length (last_n n xs) ≤ n
  length-last_n-le n [] = rw (last_n-short n [] (omega arith)) (omega arith)
  length-last_n-le n (x ∷ xs) = elim (dec_le n (length xs)) [
    | yes p ↦ rw (last_n-drop n x xs p) (length-last_n-le n xs)
    | no p ↦ rw (last_n-short n (x ∷ xs) (omega arith)) (omega arith)
  ]

  -- What is appended to a list and to its last `n` elements leaves the same last `n` elements.
  pub last_n-last_n-append :
      (n : ℕ) (xs ys : List A) → last_n n (last_n n xs ++ ys) ≡ last_n n (xs ++ ys)
  last_n-last_n-append n [] ys = rw (last_n-short n [] (omega arith))
  last_n-last_n-append n (x ∷ xs) ys = elim (dec_le n (length xs)) [
    | yes p ↦
        rw (last_n-drop n x xs p, last_n-drop n x (xs ++ ys) (omega (arith, length-append xs ys)))
          (last_n-last_n-append n xs ys)
    | no p ↦ rw (last_n-short n (x ∷ xs) (omega arith))
  ]

  pub last_n-snoc :
      (n : ℕ) (xs : List A) (x : A) → last_n (suc n) (xs ++ x ∷ []) ≡ last_n n xs ++ x ∷ []
  last_n-snoc n [] x =
      rw (last_n-short n [] (omega arith), last_n-short (suc n) (x ∷ []) (omega arith))
  last_n-snoc n (y ∷ xs) x = elim (dec_le n (length xs)) [
    | yes p ↦
        rw
          (
            last_n-drop n y xs p,
            last_n-drop (suc n) y (xs ++ x ∷ []) (omega (arith, length-append xs (x ∷ []))),
          )
          (last_n-snoc n xs x)
    | no p ↦ rw (
      last_n-short n (y ∷ xs) (omega arith),
      last_n-short (suc n) (y ∷ xs ++ x ∷ []) (omega (arith, length-append xs (x ∷ []))),
    )
  ]

  pub length-take-le : (n : ℕ) (xs : List A) → length (take n xs) ≤ n
  length-take-le zero xs = omega arith
  length-take-le (suc n) [] = omega arith
  length-take-le (suc n) (x ∷ xs) = omega (arith, length-take-le n xs)

  pub take-length-append : (xs ys : List A) → take (length xs) (xs ++ ys) ≡ xs
  take-length-append [] ys = refl
  take-length-append (x ∷ xs) ys = rw (take-length-append xs ys)

  pub take-length : (xs : List A) → take (length xs) xs ≡ xs
  take-length [] = refl
  take-length (x ∷ xs) = rw (take-length xs)

  pub take_of_length-le : (n : ℕ) (xs : List A) → length xs ≤ n → take n xs ≡ xs
  take_of_length-le zero [] h = refl
  take_of_length-le zero (x ∷ xs) h = absurd (omega arith)
  take_of_length-le (suc n) [] h = refl
  take_of_length-le (suc n) (x ∷ xs) h = rw (take_of_length-le n xs (omega arith))

  pub length-drop : (n : ℕ) (xs : List A) → length (drop n xs) ≡ length xs - n
  length-drop zero xs = omega arith
  length-drop (suc n) [] = omega arith
  length-drop (suc n) (x ∷ xs) = omega (arith, length-drop n xs)

  pub length-take_of_le : (n : ℕ) (xs : List A) → n ≤ length xs → length (take n xs) ≡ n
  length-take_of_le zero xs h = refl
  length-take_of_le (suc n) [] h = absurd (omega arith)
  length-take_of_le (suc n) (x ∷ xs) h = omega (arith, length-take_of_le n xs (omega arith))
