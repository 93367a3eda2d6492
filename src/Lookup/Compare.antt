-- ===== src/Lookup/Compare.antt =====
-- seen_lookup.c: the comparator of the red-black tree.
use udprelayd.Base.{ℕ, ◌-◌, ◌^◌, ◌<◌, ◌≡◌, arith, ltb, ◌==◌, if◌then◌else◌}
use udprelayd.Base.Int.{ℤ, pos, negsuc}

-- LU_COMPARATOR
unfoldable lu_comparator : (ℕ → ℕ) → ℕ → ℕ → ℤ
lu_comparator seq_of x y =
    if ltb (seq_of x) (seq_of y)
    then negsuc (seq_of y - seq_of x - 1)
    else pos (seq_of x - seq_of y)

-- The signs of an `int`, and those that fit.
abbrev sign : ℤ → ℕ
sign (negsuc n) = 0
sign (pos n) = if n == 0 then 1 else 2

abbrev Fits : ℤ → Type 0
Fits (pos n) = n < 2 ^ 31
Fits (negsuc n) = n < 2 ^ 31

-- On numbers of 16 bits the subtraction does not overflow, and its sign is their order.
lu_comparator-order :
    (seq_of : ℕ → ℕ) (x y : ℕ)
    → seq_of x < 2 ^ 16
    → seq_of y < 2 ^ 16
    → Fits (lu_comparator seq_of x y)
      × (sign (lu_comparator seq_of x y)
          ≡ (if ltb (seq_of x) (seq_of y) then 0 else if seq_of x == seq_of y then 1 else 2))
unfolding lu_comparator
lu_comparator-order seq_of x y hx hy = ground arith
