-- ===== src/Clist/AddAfter.antt =====
-- CLIST_ADD_AFTER of clist.h. Its argument `(token)->_next` is read again after the third
-- assignment of CLIST_ADD_BEFORE has changed it.
use udprelayd.Base.{◌≡◌, ◌∙◌, ◌≢◌, false, some, Option, List, [], ◌∷◌, arith, ◌==◌, has}
use udprelayd.Clist.{Ptr, null, Node, node, Heap, write, ◌>>=◌, add_after, add_before}
use udprelayd.Clist.Ring.{
  first, last, IsRing, write_self, write-ne, load-ok, set_prev-ok, set_next-ok,
}

-- The head's successor, whose `_prev` link leads back to the head.
second :
    (h : Heap) (t : Ptr) (rest : List Ptr)
    → IsRing h (t ∷ rest)
    → (u : Ptr) × (h (first rest t) ≡ some (node t u)) × (first rest t ≢ null)
second h t [] r = (t, r.links.0, r.links.1)
second h t (s ∷ rest) r = (first rest t, r.links.2.0, r.links.2.1)

second-ne :
    (item t : Ptr) (rest : List Ptr) → has item (t ∷ rest) ≡ false → (first rest t == item) ≡ false
second-ne item t [] o = ground arith
second-ne item t (s ∷ rest) o = ground arith

module _ (h : Heap) (t : Ptr) (rest : List Ptr) (item : Ptr) (n : Node) (r : IsRing h (t ∷ rest))
    (ne : item ≢ null) (holds : h item ≡ some n) (out : has item (t ∷ rest) ≡ false) where
  module _ (u : Ptr) (succ : h (first rest t) ≡ some (node t u)) (succ_ne : first rest t ≢ null)
      (apart : (first rest t == item) ≡ false) where
    t_ne : (t == item) ≡ false
    t_ne = ground arith

    item_ne : (item == t) ≡ false
    item_ne = ground arith

    abbrev filled : Heap
    filled = write (write h item (some (node t n.next))) item (some (node t (first rest t)))

    abbrev joined : Heap
    joined = write filled t (some (node (last t rest) item))

    keeps : (a : Ptr) → (a == item) ≡ false → filled a ≡ h a
    keeps a o = write-ne _ item _ a o ∙ write-ne h item _ a o

    head : filled t ≡ some (node (last t rest) (first rest t))
    head = keeps t t_ne ∙ r.links.0

    add_after-lem :
        add_after t item h ≡ some (tt, write joined item (some (node item (first rest t))))
    unfolding add_after add_before
    add_after-lem = rw (
      load-ok h t (node (last t rest) (first rest t)) r.links.1 r.links.0,
      load-ok h (first rest t) (node t u) succ_ne succ,
      set_prev-ok h item n ne holds t,
      load-ok (write h item (some (node t n.next))) t (node (last t rest) (first rest t)) r.links.1
          (write-ne h item _ t t_ne ∙ r.links.0),
      set_next-ok (write h item (some (node t n.next))) item _ ne (write_self h item _)
          (first rest t),
      load-ok filled t (node (last t rest) (first rest t)) r.links.1 head,
      load-ok filled (first rest t) (node t u) succ_ne (keeps (first rest t) apart ∙ succ),
      set_next-ok filled t (node (last t rest) (first rest t)) r.links.1 head item,
      load-ok joined t (node (last t rest) item) r.links.1 (write_self filled t _),
      set_prev-ok joined item (node t (first rest t)) ne
          (write-ne filled t _ item item_ne ∙ write_self _ item _) item,
      ◌>>=◌,
    )

  -- CLIST_ADD_AFTER of an allocated item outside a ring gives the item a `_prev` link to itself, so
  -- that the item behind the head is not in a ring with the others.
  pub add_after-unlinked :
      (g : Heap) × (add_after t item h ≡ some (tt, g))
      × (g item ≡ some (node item (first rest t)))
      × (¬ IsRing g (t ∷ item ∷ rest))
  add_after-unlinked =
      let (u, succ, succ_ne) = second h t rest r in
      let apart = second-ne item t rest out in
      let at_item =
        write_self (joined u succ succ_ne apart) item (some (node item (first rest t))) in
      (
        write (joined u succ succ_ne apart) item (some (node item (first rest t))),
        add_after-lem u succ succ_ne apart,
        at_item,
        λ ring. not_itself (out_of_ring at_item ring.links.2.0),
      )
    where
      not_itself : item ≡ t → ⊥
      not_itself e = ground arith

      out_of_ring :
          {c : Option Node}
          → c ≡ some (node item (first rest t))
          → c ≡ some (node t (first rest t))
          → item ≡ t
      out_of_ring e e' = cc
