-- ===== src/Clist/Foreach.antt =====
-- CLIST_FOREACH of clist.h over a list from which the loop's body removes the current item, as
-- the loops of udprelayd.c do with a relay that has failed.
use udprelayd.Base.{
  has-ne, ℕ, zero, suc, ◌<◌, ◌≡◌, refl, ◌∙◌, Bool, true, false, some, none, List, [], ◌∷◌, ◌++◌,
  arith, ◌==◌, if◌then◌else◌, length, has, not-has-append, not-has-middle, distinct-middle,
  Bool-cases, inl, inr, ==_iff, append_assoc, ==_refl, IsDistinct,
}
use udprelayd.Clist.{
  Ptr, null, Heap, write, Cmd, ◌>>=◌, ◌>>◌, pure, free, del, next_token, foreach_loop, foreach,
}
use udprelayd.Clist.Ring.{
  first, last, IsRing, SameOutside, Links-frame, Links-split, write_self, write-ne, load-ok,
  free-ok,
}
use udprelayd.Clist.Delete.{del-IsRing}

-- `CLIST_DEL(list, r); free_relay(r);` where the item has failed
unfoldable pub disable : (Ptr → Bool) → Ptr → Ptr → Cmd Ptr
disable failed r list = if failed r then (do list ← del list r; free r; pure list) else pure list

-- the items that have not failed, in order
abbrev pub keep : (Ptr → Bool) → List Ptr → List Ptr
keep failed [] = []
keep failed (x ∷ xs) = if failed x then keep failed xs else x ∷ keep failed xs

abbrev pub tail : List Ptr → List Ptr
tail [] = []
tail (x ∷ xs) = xs

not-first :
    (kept : List Ptr) (y z : Ptr) (zs : List Ptr)
    → IsDistinct (kept ++ y ∷ z ∷ zs)
    → (z == first (kept ++ y ∷ z ∷ zs) null) ≡ false
not-first [] y z zs d = differ d.0
  where
    differ : has y (z ∷ zs) ≡ false → (z == y) ≡ false
    differ o = ground arith
not-first (k ∷ kept) y z zs d = differ (not-has-append k kept (y ∷ z ∷ zs) d.0).1
  where
    differ : has k (y ∷ z ∷ zs) ≡ false → (z == k) ≡ false
    differ o = ground arith

-- The item after the token, or `NULL` after the last one.
next_token-tail :
    (h : Heap) (kept rest : List Ptr)
    → IsRing h (kept ++ rest)
    → next_token (first (kept ++ rest) null) (first rest null) h ≡ some (first (tail rest) null, h)
unfolding next_token
next_token-tail h kept [] r = refl
next_token-tail h kept (y ∷ []) r =
    let (_, back) =
      Links-split h (last null (kept ++ y ∷ [])) kept (y ∷ []) (first (kept ++ y ∷ []) null)
        r.links in
    let ne : (y == null) ≡ false = ground (arith, back.1) in
    rw (ne, load-ok h y _ back.1 back.0, ◌>>=◌) (rw (==_refl (first (kept ++ y ∷ []) null)))
next_token-tail h kept (y ∷ z ∷ zs) r =
    let (_, back) =
      Links-split h (last null (kept ++ y ∷ z ∷ zs)) kept (y ∷ z ∷ zs)
        (first (kept ++ y ∷ z ∷ zs) null) r.links in
    let ne : (y == null) ≡ false = ground (arith, back.1) in
    rw (ne, load-ok h y _ back.1 back.0, ◌>>=◌) (rw (not-first kept y z zs r.distinct))

-- One round's removal: the ring closes over the gap, and the item is given back.
disable-failed :
    (failed : Ptr → Bool) (h : Heap) (kept : List Ptr) (x : Ptr) (rest : List Ptr)
    → IsRing h (kept ++ x ∷ rest)
    → failed x ≡ true
    → (g : Heap) × (disable failed x (first (kept ++ x ∷ rest) null) h
        ≡ some (first (kept ++ rest) null, g))
      × IsRing g (kept ++ rest)
      × SameOutside (kept ++ x ∷ rest) h g
      × (g x ≡ none)
unfolding disable
disable-failed failed h kept x rest r bad =
    let (g, done, ring, same) = del-IsRing h kept x rest r in
    let list = first (kept ++ x ∷ rest) null in
    let (_, back) = Links-split h (last null (kept ++ x ∷ rest)) kept (x ∷ rest) list r.links in
    let out = distinct-middle x kept rest r.distinct in
    (
      write g x none,
      rw (bad, done, free-ok g x _ back.1 (same x out ∙ back.0), ◌>>=◌, ◌>>◌),
      record {
        links =
            Links-frame g (write g x none) (last null (kept ++ rest)) (kept ++ rest)
              (first (kept ++ rest) null)
              (λ a i. write-ne g x none a (ne a (has-ne x a (kept ++ rest) out i))) ring.links;
        distinct = ring.distinct;
      },
      λ a o.
          write-ne g x none a (apart a (not-has-append a kept (x ∷ rest) o).1)
          ∙ same a (not-has-middle a x kept rest o),
      write_self g x none,
    )
  where
    ne : (a : Ptr) → (x == a) ≡ false → (a == x) ≡ false
    ne a e = ground arith

    apart : (a : Ptr) → has a (x ∷ rest) ≡ false → (a == x) ≡ false
    apart a o = ground arith

-- What the loop leaves: it has visited each item of `todo` once, in order, and the ring holds the
-- items before them and those that have not failed.
pub record Swept (failed : Ptr → Bool) (h : Heap) (kept todo : List Ptr) (g : Heap) : Type 0 where
  pub ring : IsRing g (kept ++ keep failed todo)
  pub outside : SameOutside (kept ++ todo) h g
  pub freed : (a : Ptr) → has a todo ≡ true → failed a ≡ true → g a ≡ none

module _ (failed : Ptr → Bool) where
  abbrev Loops : ℕ → Heap → List Ptr → List Ptr → Type 0
  Loops k h kept todo =
      (g : Heap) × (foreach_loop k (disable failed) (first todo null) (first (tail todo) null)
          (first (kept ++ todo) null) h
        ≡ some ((todo, first (kept ++ keep failed todo) null), g))
      × Swept failed h kept todo g

  module _ (k : ℕ) (h : Heap) (kept : List Ptr) (x : Ptr) (rest : List Ptr)
      (r : IsRing h (kept ++ x ∷ rest)) where
    item_ne : (x == null) ≡ false
    item_ne =
        let list = first (kept ++ x ∷ rest) null in
        let (_, back) = Links-split h (last null (kept ++ x ∷ rest)) kept (x ∷ rest) list r.links in
        ground (arith, back.1)

    -- a round whose item has failed
    loop-failed :
        failed x ≡ true
        → ((g : Heap) → IsRing g (kept ++ rest) → Loops k g kept rest)
        → Loops (suc k) h kept (x ∷ rest)
    unfolding foreach_loop
    loop-failed bad next =
        let (g, done, ring, same, gone) = disable-failed failed h kept x rest r bad in
        let (f, looped, swept) = next g ring in
        (
          f,
          rw bad (rw (item_ne, done, next_token-tail g kept rest ring, looped, ◌>>=◌)),
          record {
            ring = rw bad swept.ring;
            outside = λ a o. swept.outside a (not-has-middle a x kept rest o) ∙ same a o;
            freed = λ a i bad'. elim (Bool-cases (a == x)) [
              | inl here ↦
                  rw ((==_iff a x).0 here)
                    (swept.outside x (distinct-middle x kept rest r.distinct) ∙ gone)
              | inr away ↦ swept.freed a (later a away i) bad'
            ];
          },
        )
      where
        later : (a : Ptr) → (a == x) ≡ false → has a (x ∷ rest) ≡ true → has a rest ≡ true
        later a away i = ground arith

    -- a round whose item stays
    loop-fine : failed x ≡ false → Loops k h (kept ++ x ∷ []) rest → Loops (suc k) h kept (x ∷ rest)
    unfolding foreach_loop disable
    loop-fine fine (f, looped, swept) =
        let regroup = append_assoc kept (x ∷ []) rest in
        let ring = rw (← regroup) at r in
        let token = rw regroup at (next_token-tail h (kept ++ x ∷ []) rest ring) in
        let looped' = rw (regroup, append_assoc kept (x ∷ []) (keep failed rest)) at looped in
        (
          f,
          rw fine (rw (item_ne, token, looped', ◌>>=◌)),
          record {
            ring = rw fine (rw (append_assoc kept (x ∷ []) (keep failed rest)) at swept.ring);
            outside = rw regroup at swept.outside;
            freed = λ a i bad. swept.freed a (later a i bad) bad;
          },
        )
      where
        later : (a : Ptr) → has a (x ∷ rest) ≡ true → failed a ≡ true → has a rest ≡ true
        later a i bad = elim (Bool-cases (a == x)) [
          | inl here ↦ let e = (==_iff a x).0 here in cc
          | inr away ↦ ground arith
        ]

  foreach_loop-Swept :
      (k : ℕ) (h : Heap) (kept todo : List Ptr)
      → IsRing h (kept ++ todo)
      → length todo < k
      → Loops k h kept todo
  unfolding foreach_loop
  foreach_loop-Swept zero h kept todo r fuel = absurd (omega arith)
  foreach_loop-Swept (suc k) h kept [] r fuel =
      (h, refl, record { ring = r; outside = λ a o. refl; freed = λ a i. cc })
  foreach_loop-Swept (suc k) h kept (x ∷ rest) r fuel = elim (Bool-cases (failed x)) [
    | inl bad ↦
        loop-failed k h kept x rest r bad
          (λ g ring. foreach_loop-Swept k g kept rest ring (omega arith))
    | inr fine ↦ loop-fine k h kept x rest r fine (
        foreach_loop-Swept k h (kept ++ x ∷ []) rest (rw (append_assoc kept (x ∷ []) rest) r)
          (omega arith))
  ]

  -- CLIST_FOREACH over a ring, with a body that deletes and frees the items that fail and with more
  -- fuel than items, visits every item once in order, never faults, and ends with the head pointer
  -- of the items that stay; these are a ring, and the failed ones are freed.
  pub foreach-Swept :
      (k : ℕ) (h : Heap) (xs : List Ptr)
      → IsRing h xs
      → length xs < k
      → (g : Heap) × (foreach k (disable failed) (first xs null) h
          ≡ some ((xs, first (keep failed xs) null), g))
        × Swept failed h [] xs g
  unfolding foreach
  foreach-Swept k h xs r fuel =
      let (g, looped, swept) = foreach_loop-Swept k h [] xs r fuel in
      (g, rw (next_token-tail h [] xs r, ◌>>=◌) looped, swept)
