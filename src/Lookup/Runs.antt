-- ===== src/Lookup/Runs.antt =====
-- Runs of lookup_push from new_lookup, against a list of all the numbers ever taken.
use udprelayd.Base.{
  ℕ, zero, suc, ◌+◌, ◌≤◌, ◌<◌, ◌≡◌, refl, ◌∙◌, Bool, false, not, Option, some, List, [], ◌∷◌, ◌++◌,
  arith, length, has, IsDistinct, IsDistinct-snoc, last_n, last_n-last_n-append, last_n-short,
  if◌then◌else◌, length-append, Bool-cases, inl, inr, has-append,
}
use udprelayd.Base.Int.{pos}
use udprelayd.Lookup.{Lookup, new_lookup, fill_pool, lookup_push, ◌>>=◌}
use udprelayd.Lookup.Tree.{RbTree}
use udprelayd.Lookup.Window.{window, IsValid}
use udprelayd.Lookup.Push.{lookup_push-seen, lookup_push-fresh}

-- Pushes in a row, with the answer of each.
unfoldable pub push_all : (t : RbTree) → Lookup t.T → List ℕ → Option (Lookup t.T × List Bool)
push_all t lu [] = some (lu, [])
push_all t lu (s ∷ seqs) = do
  (lu, taken) ← lookup_push t lu s
  (lu, answers) ← push_all t lu seqs
  some (lu, taken ∷ answers)

-- The specification: a number is taken unless it is one of the last `size` taken before it.
-- The result is the answers, and all the numbers taken, oldest first.
unfoldable pub dedup : ℕ → List ℕ → List ℕ → List Bool × List ℕ
dedup size taken [] = ([], taken)
dedup size taken (s ∷ seqs) =
    let seen = has s (last_n size taken) in
    let (answers, all) = dedup size (if seen then taken else taken ++ s ∷ []) seqs in
    (not seen ∷ answers, all)

fill_pool-lem :
    (k i : ℕ) (xs : List ℕ)
    → IsDistinct xs
    → ((j : ℕ) → i ≤ j → has j xs ≡ false)
    → IsDistinct (fill_pool k i xs) × (length (fill_pool k i xs) ≡ length xs + k)
unfolding fill_pool
fill_pool-lem zero i xs d fresh = (d, omega arith)
fill_pool-lem (suc k) i xs d fresh =
    let (d', l) =
      fill_pool-lem k (suc i) (xs ++ i ∷ []) (IsDistinct-snoc i xs (fresh i (omega arith)) d)
        (λ j le. later j le (fresh j (omega arith))) in
    (d', omega (arith, l, length-append xs (i ∷ [])))
  where
    later : (j : ℕ) → suc i ≤ j → has j xs ≡ false → has j (xs ++ i ∷ []) ≡ false
    later j le o = ground (arith, has-append j xs (i ∷ []))

-- A new lookup is valid and remembers nothing; all its items are free.
pub new_lookup-IsValid :
    (t : RbTree) (size : ℕ)
    → IsValid t size (new_lookup t (pos size)) × (window (new_lookup t (pos size)) ≡ [])
unfolding new_lookup
new_lookup-IsValid t size =
    let (d, l) = fill_pool-lem size 0 [] tt (λ j le. refl) in
    (
      record {
        pool = refl;
        holds = t.empty-Holds (λ i. 0);
        distinct = tt;
        slots = d;
        count = refl;
        total = omega (arith, l);
      },
      refl,
    )

module _ (t : RbTree) (size : ℕ) (pos_size : 0 < size) where
  push_all-dedup_from :
      (seqs taken : List ℕ) (lu : Lookup t.T)
      → IsValid t size lu
      → window lu ≡ last_n size taken
      → (lu' : Lookup t.T) × (push_all t lu seqs ≡ some (lu', (dedup size taken seqs).0))
        × IsValid t size lu'
        × (window lu' ≡ last_n size (dedup size taken seqs).1)
  unfolding push_all dedup
  push_all-dedup_from [] taken lu v w = (lu, refl, v, w)
  push_all-dedup_from (s ∷ seqs) taken lu v w = elim (Bool-cases (has s (last_n size taken))) [
    | inl seen ↦
        let (lu', run, v', w') = push_all-dedup_from seqs taken lu v w in
        (lu', rw seen (rw (lookup_push-seen t size lu v s (rw w seen), run, ◌>>=◌)), v', rw seen w')
    | inr fresh ↦
        let (lu₁, pushed, v₁, w₁) = lookup_push-fresh t size lu v s pos_size (rw w fresh) in
        let (lu', run, v', w') =
          push_all-dedup_from seqs (taken ++ s ∷ []) lu₁ v₁
            (w₁ ∙ rw w (last_n-last_n-append size taken (s ∷ []))) in
        (lu', rw fresh (rw (pushed, run, ◌>>=◌)), v', rw fresh w')
  ]

  -- From a new lookup with `size` items, where `0 < size`, a run of pushes never faults, and takes a
  -- number exactly when it is none of the last `size` numbers taken; the lookup ends valid with
  -- these in its window.
  pub push_all-dedup :
      (seqs : List ℕ)
      → (lu : Lookup t.T) × (push_all t (new_lookup t (pos size)) seqs
          ≡ some (lu, (dedup size [] seqs).0))
        × IsValid t size lu
        × (window lu ≡ last_n size (dedup size [] seqs).1)
  push_all-dedup seqs =
      let (v, w) = new_lookup-IsValid t size in
      push_all-dedup_from seqs [] (new_lookup t (pos size)) v
        (w ∙ rw (last_n-short {A = ℕ} size [] (omega arith)))
