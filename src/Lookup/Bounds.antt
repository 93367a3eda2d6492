-- ===== src/Lookup/Bounds.antt =====
-- Limits of the lookup: a size of zero or less, and a size that covers all the numbers there are.
use udprelayd.Base.{
  ℕ, zero, suc, ◌+◌, ◌≤◌, ◌<◌, ◌≡◌, refl, ◌∙◌, ap, not, Bool, true, false, some, none, List, [],
  ◌∷◌, ◌++◌, arith, length, has, IsDistinct, IsDistinct-snoc, last_n-short, if◌then◌else◌,
  Bool-cases, inl, inr, ◌==◌, ==_iff,
}
use udprelayd.Base.Int.{ℤ, pos, negsuc, rounds}
use udprelayd.Lookup.{Lookup, new_lookup, fill_pool, claim, lookup_push}
use udprelayd.Lookup.Tree.{RbTree}
use udprelayd.Lookup.Runs.{push_all, dedup, push_all-dedup}

-- Where `track` is zero or negative, the first push into the new lookup reads through `NULL`.
pub lookup_push-fault :
    (t : RbTree) (size : ℤ) (seq : ℕ)
    → rounds size ≡ 0
    → lookup_push t (new_lookup t size) seq ≡ none
unfolding lookup_push new_lookup claim fill_pool
lookup_push-fault t (pos zero) seq e =
    rw (t.find_member-Holds (λ i. 0) t.empty [] seq (t.empty-Holds (λ i. 0)))
lookup_push-fault t (pos (suc n)) seq e = absurd (omega arith)
lookup_push-fault t (negsuc n) seq e =
    rw (t.find_member-Holds (λ i. 0) t.empty [] seq (t.empty-Holds (λ i. 0)))

abbrev pub AllBelow : ℕ → List ℕ → Type 0
AllBelow n [] = Unit
AllBelow n (x ∷ xs) = (x < n) × AllBelow n xs

without : ℕ → List ℕ → List ℕ
without a [] = []
without a (x ∷ xs) = if x == a then without a xs else x ∷ without a xs

has-without : (b a : ℕ) (xs : List ℕ) → has b xs ≡ false → has b (without a xs) ≡ false
unfolding without
has-without b a [] o = refl
has-without b a (x ∷ xs) o = ground (arith, has-without b a xs)

without-IsDistinct : (a : ℕ) (xs : List ℕ) → IsDistinct xs → IsDistinct (without a xs)
unfolding without
without-IsDistinct a [] d = tt
without-IsDistinct a (x ∷ xs) d =
    ground (arith, without-IsDistinct a xs d.1, has-without x a xs d.0)

without-AllBelow : (n : ℕ) (xs : List ℕ) → AllBelow (suc n) xs → AllBelow n (without n xs)
unfolding without
without-AllBelow n [] h = tt
without-AllBelow n (x ∷ xs) h = elim (Bool-cases (x == n)) [
  | inl e ↦ rw e (without-AllBelow n xs h.1)
  | inr ne ↦ rw ne (below x n h.0 ne, without-AllBelow n xs h.1)
]
  where
    below : (x n : ℕ) → x < suc n → (x == n) ≡ false → x < n
    below x n h ne = ground arith

without-absent : (a : ℕ) (xs : List ℕ) → has a xs ≡ false → without a xs ≡ xs
unfolding without
without-absent a [] o = refl
without-absent a (x ∷ xs) o = ground (arith, without-absent a xs)

length-without : (a : ℕ) (xs : List ℕ) → IsDistinct xs → length xs ≤ length (without a xs) + 1
unfolding without
length-without a [] d = omega arith
length-without a (x ∷ xs) d = elim (Bool-cases (x == a)) [
  | inl e ↦ rw e (rw (without-absent a xs (rw ((==_iff x a).0 e) at d.0)) (omega arith))
  | inr ne ↦ rw ne (omega (arith, length-without a xs d.1))
]

-- Distinct numbers below `n` are at most `n`.
pub length-le : (n : ℕ) (xs : List ℕ) → IsDistinct xs → AllBelow n xs → length xs ≤ n
length-le zero [] d h = omega arith
length-le zero (x ∷ xs) d h = absurd (omega arith)
length-le (suc n) xs d h = omega (
  arith,
  length-without n xs d,
  length-le n (without n xs) (without-IsDistinct n xs d) (without-AllBelow n xs h),
)

AllBelow-snoc : (n : ℕ) (xs : List ℕ) (x : ℕ) → AllBelow n xs → x < n → AllBelow n (xs ++ x ∷ [])
AllBelow-snoc n [] x h lt = (lt, tt)
AllBelow-snoc n (y ∷ xs) x h lt = (h.0, AllBelow-snoc n xs x h.1 lt)

-- The specification: a number counts where it has not come before.
unfoldable pub firsts : List ℕ → List ℕ → List Bool
firsts before [] = []
firsts before (s ∷ seqs) =
    let seen = has s before in not seen ∷ firsts (if seen then before else before ++ s ∷ []) seqs

dedup-firsts :
    (n size : ℕ) (seqs taken : List ℕ)
    → n ≤ size
    → AllBelow n seqs
    → IsDistinct taken
    → AllBelow n taken
    → (dedup size taken seqs).0 ≡ firsts taken seqs
unfolding dedup firsts
dedup-firsts n size [] taken le h d b = refl
dedup-firsts n size (s ∷ seqs) taken le h d b =
    let whole = last_n-short {A = ℕ} size taken (omega (arith, length-le n taken d b)) in
    rw whole (elim (Bool-cases (has s taken)) [
      | inl seen ↦ rw seen (ap (λ l. false ∷ l) (dedup-firsts n size seqs taken le h.1 d b))
      | inr fresh ↦ rw fresh (
          ap (λ l. true ∷ l)
            (dedup-firsts n size seqs (taken ++ s ∷ []) le h.1 (IsDistinct-snoc s taken fresh d)
              (AllBelow-snoc n taken s b h.0)))
    ])

-- A new lookup with at least `n` items, and at least one, never forgets a number below `n`: over any
-- run of numbers below `n` it takes each where it comes for the first time, and nowhere else.
pub push_all-firsts :
    (t : RbTree) (n size : ℕ) (seqs : List ℕ)
    → 0 < size
    → n ≤ size
    → AllBelow n seqs
    → (lu : Lookup t.T) × (push_all t (new_lookup t (pos size)) seqs ≡ some (lu, firsts [] seqs))
push_all-firsts t n size seqs pos_size le h =
    let (lu, run, _, _) = push_all-dedup t size pos_size seqs in
    (lu, run ∙ ap (λ answers. some (lu, answers)) (dedup-firsts n size seqs [] le h tt tt))
