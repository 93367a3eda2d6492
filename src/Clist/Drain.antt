-- ===== src/Clist/Drain.antt =====
-- The loops that empty a list, with CLIST_DEL of clist.h, and free its items.
use udprelayd.Base.{
  ℕ, zero, suc, ◌<◌, ◌≡◌, ◌≢◌, refl, ◌∙◌, ap, true, false, none, some, List, [], ◌∷◌, arith, ◌==◌,
  ==_iff, has, Bool-cases, inl, inr, length,
}
use udprelayd.Clist.{Ptr, null, Cmd, Node, Heap, write, ◌>>=◌, ◌>>◌, free, drain}
use udprelayd.Clist.Ring.{
  first, last, IsRing, SameOn, SameOutside, Links-frame, write_self, write-ne, free-ok,
}
use udprelayd.Clist.Delete.{del-IsRing}

IsRing-frame : (h g : Heap) (xs : List Ptr) → SameOn xs h g → IsRing h xs → IsRing g xs
IsRing-frame h g xs same r = record {
  links = Links-frame h g (last null xs) xs (first xs null) same r.links;
  distinct = r.distinct;
}

-- The release frees the item, as far as the links go.
abbrev pub Releases : (Ptr → Cmd (Unit {0})) → Type 0
Releases release =
    (item : Ptr) (h : Heap) (n : Node)
    → item ≢ null
    → h item ≡ some n
    → release item h ≡ some (tt, write h item none)

pub free-Releases : Releases free
free-Releases item h n ne e = free-ok h item n ne e

module _ (release : Ptr → Cmd (Unit {0})) (frees : Releases release) where
  -- One round: the first item is unlinked and freed, and the rest is a ring.
  drain-step :
      (h : Heap) (item : Ptr) (rest : List Ptr) (k : ℕ)
      → IsRing h (item ∷ rest)
      → (g : Heap) × (drain (suc k) release item h ≡ drain k release (first rest null) g)
        × IsRing g rest
        × (g item ≡ none)
        × ((a : Ptr) → has a (item ∷ rest) ≡ false → g a ≡ h a)
  unfolding drain
  drain-step h item rest k r =
      let (g₁, done, ring, same) = del-IsRing h [] item rest r in
      let there = same item r.distinct.0 ∙ r.links.0 in
      let g = write g₁ item none in
      (
        g,
        rw item_ne (rw (done, ◌>>=◌) (rw (frees item g₁ _ r.links.1 there, ◌>>◌, ◌>>=◌) refl)),
        IsRing-frame g₁ g rest (λ a i. write-ne g₁ item none a (differ a i)) ring,
        write_self g₁ item none,
        λ a o. write-ne g₁ item none a (ground arith) ∙ same a (ground arith),
      )
    where
      item_ne : (item == null) ≡ false
      item_ne = let ne = r.links.1 in ground (arith, ==_iff item null)

      differ : (a : Ptr) → has a rest ≡ true → (a == item) ≡ false
      differ a i = let out = r.distinct.0 in ground (arith, ==_iff a item)

  -- If the loop's body releases an item by freeing it, and the fuel is more than the list has items,
  -- then the loop ends with an empty list, every item is freed, and nothing outside the list has
  -- changed.
  pub drain-frees :
      (h : Heap) (xs : List Ptr) (fuel : ℕ)
      → IsRing h xs
      → length xs < fuel
      → (g : Heap) × (drain fuel release (first xs null) h ≡ some (null, g))
        × ((a : Ptr) → has a xs ≡ true → g a ≡ none)
        × SameOutside xs h g
  unfolding drain
  drain-frees h [] zero r more = absurd (omega arith)
  drain-frees h [] (suc k) r more = (h, refl, λ a i. absurd (ground arith), λ a o. refl)
  drain-frees h (item ∷ rest) zero r more = absurd (omega arith)
  drain-frees h (item ∷ rest) (suc k) r more =
      let (g₁, step, ring, gone, same) = drain-step h item rest k r in
      let (g, done, freed, same') = drain-frees g₁ rest k ring (omega arith) in
      (
        g,
        step ∙ done,
        λ a i. elim (Bool-cases (has a rest)) [
          | inl later ↦ freed a later
          | inr now ↦ same' a now ∙ ap g₁ ((==_iff a item).0 (ground arith)) ∙ gone
        ],
        λ a o. same' a (ground arith) ∙ same a o,
      )
