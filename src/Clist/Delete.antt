-- ===== src/Clist/Delete.antt =====
-- CLIST_DEL of clist.h, and the `free` that follows it.
use udprelayd.Base.{
  has-ne, ◌≡◌, ◌∙◌, ◌≢◌, false, some, List, [], ◌∷◌, ◌++◌, arith, ◌==◌, has, has-append,
  not-has-append, Bool-cases, inl, inr, sym, ==_iff, ==_refl,
}
use udprelayd.Clist.{Ptr, null, node, Heap, write, ◌>>=◌, del_head, del}
use udprelayd.Clist.Ring.{
  first, last, Links, IsRing, SameOutside, has-last, Links-last, write_self, write-ne,
  Links-relink_prev, Links-relink_next, IsRing-rotate, load-ok, set_prev-ok, set_next-ok,
}

-- The final heap, where the item stands before `t ∷ rest` in the ring.
module _ (h : Heap) (item t : Ptr) (rest : List Ptr) (q : Ptr) where
  abbrev skipped : Heap
  skipped = write h (last t rest) (some (node q t))

  abbrev removed : Heap
  removed = write skipped t (some (node (last t rest) (first rest t)))

module _ (h : Heap) (item t : Ptr) (rest : List Ptr) (r : IsRing h (item ∷ t ∷ rest)) (q : Ptr)
    (end : h (last t rest) ≡ some (node q item)) (end_ne : last t rest ≢ null) where
  skipped-Links : Links (skipped h item t rest q) item (t ∷ rest) t
  skipped-Links = Links-relink_next h item t rest item t q r.links.2 r.distinct.1 end

  removed-IsRing : IsRing (removed h item t rest q) (t ∷ rest)
  removed-IsRing = record {
    links =
        Links-relink_prev (skipped h item t rest q) item (last t rest) t rest t skipped-Links
          r.distinct.1.0;
    distinct = r.distinct.1;
  }

  removed-outside : (a : Ptr) → has a (t ∷ rest) ≡ false → removed h item t rest q a ≡ h a
  removed-outside a o =
      write-ne (skipped h item t rest q) t _ a (ground arith)
      ∙ write-ne h (last t rest) _ a (has-ne a (last t rest) (t ∷ rest) o (has-last t rest))

  skipped-item : skipped h item t rest q item ≡ some (node (last t rest) t)
  skipped-item =
      write-ne h (last t rest) _ item
        (has-ne item (last t rest) (t ∷ rest) r.distinct.0 (has-last t rest))
      ∙ r.links.0

  -- the links that CLIST_DEL reads and writes, whatever the list head
  del-removed :
      (list list' : Ptr)
      → del_head list item h ≡ some (list', h)
      → del list item h ≡ some (list', removed h item t rest q)
  unfolding del
  del-removed list list' e = rw (
    e,
    load-ok h item (node (last t rest) t) r.links.1 r.links.0,
    set_next-ok h (last t rest) (node q item) end_ne end t,
    load-ok _ item (node (last t rest) t) r.links.1 skipped-item,
    set_prev-ok _ t (node item (first rest t)) r.links.2.1 skipped-Links.0 (last t rest),
    ◌>>=◌,
  )

-- Removal of the item that stands first, whatever the list head.
del-step :
    (h : Heap) (item : Ptr) (rest : List Ptr) (list list' : Ptr)
    → IsRing h (item ∷ rest)
    → del_head list item h ≡ some (list', h)
    → (g : Heap) × (del list item h ≡ some (list', g)) × IsRing g rest × SameOutside rest h g
unfolding del
del-step h item [] list list' r e =
    let alone = write h item (some (node item item)) in
    (
      write alone item (some (node item item)),
      rw (
        e,
        load-ok h item (node item item) r.links.1 r.links.0,
        set_next-ok h item (node item item) r.links.1 r.links.0 item,
        load-ok alone item (node item item) r.links.1 (write_self h item _),
        set_prev-ok alone item (node item item) r.links.1 (write_self h item _) item,
        ◌>>=◌,
      ),
      record { links = tt; distinct = tt },
      λ a o. elim (Bool-cases (a == item)) [
        | inl here ↦ rw ((==_iff a item).0 here) (write_self alone item _ ∙ sym r.links.0)
        | inr away ↦ write-ne alone item _ a away ∙ write-ne h item _ a away
      ],
    )
del-step h item (t ∷ rest) list list' r e =
    let (q, end, end_ne) = Links-last h item t rest item r.links.2 in
    (
      removed h item t rest q,
      del-removed h item t rest r q end end_ne list list' e,
      removed-IsRing h item t rest r q end end_ne,
      removed-outside h item t rest r q end end_ne,
    )

del_head-first :
    (h : Heap) (xs : List Ptr) (item : Ptr) (ys : List Ptr)
    → IsRing h (xs ++ item ∷ ys)
    → del_head (first (xs ++ item ∷ ys) null) item h ≡ some (first (xs ++ ys) null, h)
unfolding del_head
del_head-first h [] item [] r =
    rw (==_refl item, load-ok h item (node item item) r.links.1 r.links.0, ◌>>=◌, ==_refl item)
del_head-first h [] item (y ∷ ys) r =
    rw (==_refl item, load-ok h item (node (last y ys) y) r.links.1 r.links.0, ◌>>=◌)
      (rw (ne-second item y ys r.distinct.0))
  where
    ne-second : (item y : Ptr) (ys : List Ptr) → has item (y ∷ ys) ≡ false → (y == item) ≡ false
    ne-second item y ys o = ground arith
del_head-first h (x ∷ xs) item ys r = rw (ne-item (not-has-append x xs (item ∷ ys) r.distinct.0).1)
  where
    ne-item : has x (item ∷ ys) ≡ false → (item == x) ≡ false
    ne-item o = ground arith

-- CLIST_DEL of any item of a ring, through the ring's own head pointer, gives the head pointer of
-- the list without the item, which is a ring in the new heap, and changes no node outside it.
pub del-IsRing :
    (h : Heap) (xs : List Ptr) (item : Ptr) (ys : List Ptr)
    → IsRing h (xs ++ item ∷ ys)
    → (g : Heap) × (del (first (xs ++ item ∷ ys) null) item h ≡ some (first (xs ++ ys) null, g))
      × IsRing g (xs ++ ys)
      × SameOutside (xs ++ ys) h g
del-IsRing h xs item ys r =
    let (g, done, ring, same) =
      del-step h item (ys ++ xs) (first (xs ++ item ∷ ys) null) (first (xs ++ ys) null)
        (IsRing-rotate xs (item ∷ ys) r) (del_head-first h xs item ys r) in
    (g, done, IsRing-rotate ys xs ring, λ a o. same a (swapped a (not-has-append a xs ys o)))
  where
    swapped : (a : Ptr) → (has a xs ≡ false) × (has a ys ≡ false) → has a (ys ++ xs) ≡ false
    swapped a o = ground (arith, has-append a ys xs)
