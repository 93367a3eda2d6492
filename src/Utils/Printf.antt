-- ===== src/Utils/Printf.antt =====
-- strdup_printf of utils.c: what it does with a long text.
use udprelayd.Base.{
  ℕ, zero, suc, ◌-◌, ◌≤◌, ◌≡◌, refl, ap, false, some, List, [], ◌∷◌, ◌++◌, has, length, take, drop,
  arith, append_assoc,
}
use udprelayd.Utils.{vsnprintf, end_at, print_into, strdup_printf}
use udprelayd.Utils.Index.{no-nul}
use udprelayd.Utils.Append.{text, xstrdup-text}

length-take-le : (n : ℕ) (xs : List ℕ) → length (take n xs) ≤ n
length-take-le zero xs = omega arith
length-take-le (suc n) [] = omega arith
length-take-le (suc n) (x ∷ xs) = omega (arith, length-take-le n xs)

has-take : (n : ℕ) (s : List ℕ) → has 0 s ≡ false → has 0 (take n s) ≡ false
has-take zero s h = refl
has-take (suc n) [] h = refl
has-take (suc n) (x ∷ s) h = let (not_nul, tail) = no-nul x s h in ground (arith, has-take n s tail)

-- A cut behind the end of a string leaves the string.
take-past :
    (n : ℕ) (s t : List ℕ) → length s ≤ n → (u : List ℕ) × (take (suc n) (text s t) ≡ text s u)
take-past n [] t h = (take n t, refl)
take-past zero (x ∷ s) t h = absurd (omega arith)
take-past (suc n) (x ∷ s) t h = let (u, e) = take-past n s t (omega arith) in (u, ap (λ l. x ∷ l) e)

vsnprintf-text :
    (n : ℕ) (buf output : List ℕ)
    → (t : List ℕ) × (vsnprintf (suc n) buf output ≡ text (take n output) t)
unfolding vsnprintf
vsnprintf-text n buf output =
    let minus : suc n - 1 ≡ n = omega arith in
    let rest = drop (length (take n output ++ 0 ∷ [])) buf in
    (rest, rw minus (append_assoc (take n output) (0 ∷ []) rest))

end_at-text :
    (n : ℕ) (s t : List ℕ) → length s ≤ n → (u : List ℕ) × (end_at (suc n) (text s t) ≡ text s u)
unfolding end_at
end_at-text n s t h =
    let (u, e) = take-past n s t h in
    let rest = 0 ∷ drop (suc (suc n)) (text s t) in (u ++ rest, rw e (append_assoc s (0 ∷ u) rest))

print_into-cut :
    (n : ℕ) (buf output : List ℕ)
    → has 0 output ≡ false
    → print_into (suc (suc n)) buf output ≡ some (take n output ++ 0 ∷ [])
unfolding print_into
print_into-cut n buf output h =
    let minus : suc (suc n) - 1 ≡ suc n = omega arith in
    let s = take n output in
    let (t, printed) = vsnprintf-text n buf output in
    let (u, ended) = end_at-text n s t (length-take-le n output) in
    rw (minus, printed) (rw ended (xstrdup-text s u (has-take n output h)))

-- The formatted text comes back in a block of its own, cut after 4094 bytes and always with its end,
-- whatever the buffer on the stack held before.
pub strdup_printf-cut :
    (buf output : List ℕ)
    → has 0 output ≡ false
    → strdup_printf buf output ≡ some (take 4094 output ++ 0 ∷ [])
unfolding strdup_printf
strdup_printf-cut buf output h = print_into-cut 4094 buf output h
