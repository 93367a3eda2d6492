-- ===== src/Clist/Insert.antt =====
-- CLIST_ADD_BEFORE, CLIST_ADD_LAST, CLIST_ADD_FIRST and CLIST_ADD_AFTER of clist.h.
use udprelayd.Base.{
  has-ne, ◌≡◌, refl, ◌∙◌, ◌≢◌, false, some, List, [], ◌∷◌, ◌++◌, arith, ◌==◌, has, not-has-append,
}
use udprelayd.Clist.{
  Ptr, null, Node, node, Heap, write, ◌>>=◌, ◌>>◌, pure, add_before, add_last, add_first,
}
use udprelayd.Clist.Ring.{
  first, last, Links, IsRing, SameOutside, has-last, write_self, write-ne, Links-frame, Links-last,
  Links-relink_prev, Links-relink_next, IsRing-rotate, load-ok, set_prev-ok, set_next-ok,
}

-- Where an item that is not in the list is added before the head: the final heap, in the order
-- of the four assignments.
module _ (h : Heap) (t : Ptr) (rest : List Ptr) (item : Ptr) (n : Node) where
  abbrev linked : Heap
  linked =
      write (write h item (some (node (last t rest) n.next))) item (some (node (last t rest) t))

  abbrev closed : Ptr → Heap
  closed q = write linked (last t rest) (some (node q item))

  abbrev added : Ptr → Heap
  added q = write (closed q) t (some (node item (first rest item)))

module _ (h : Heap) (t : Ptr) (rest : List Ptr) (item : Ptr) (n : Node) (r : IsRing h (t ∷ rest))
    (ne : item ≢ null) (holds : h item ≡ some n) (out : has item (t ∷ rest) ≡ false) where
  linked-outside : SameOutside (item ∷ []) h (linked h t rest item n)
  unfolding write
  linked-outside a o = ground arith

  linked-Links : Links (linked h t rest item n) (last t rest) (t ∷ rest) t
  linked-Links =
      Links-frame h _ (last t rest) (t ∷ rest) t
        (λ a i. linked-outside a (ground (arith, has-ne item a (t ∷ rest) out i))) r.links

  module _ (q : Ptr) (end : linked h t rest item n (last t rest) ≡ some (node q t))
      (end_ne : last t rest ≢ null) where
    closed-Links : Links (closed h t rest item n q) (last t rest) (t ∷ rest) item
    closed-Links =
        Links-relink_next (linked h t rest item n) (last t rest) t rest t item q linked-Links
          r.distinct end

    added-Links : Links (added h t rest item n q) item (t ∷ rest) item
    added-Links =
        Links-relink_prev (closed h t rest item n q) (last t rest) item t rest item closed-Links
          r.distinct.0

    added-outside :
        (a : Ptr) → has a (t ∷ rest) ≡ false → added h t rest item n q a ≡ linked h t rest item n a
    added-outside a o =
        write-ne (closed h t rest item n q) t _ a (ground arith)
        ∙ write-ne (linked h t rest item n) (last t rest) _ a
            (has-ne a (last t rest) (t ∷ rest) o (has-last t rest))

    added-IsRing : IsRing (added h t rest item n q) (item ∷ t ∷ rest)
    added-IsRing = record {
      links = (added-outside item out ∙ write_self _ item _, ne, added-Links);
      distinct = (out, r.distinct);
    }

    add_before-added : add_before (pure t) item h ≡ some (tt, added h t rest item n q)
    unfolding add_before
    add_before-added = rw (
      load-ok h t (node (last t rest) (first rest t)) r.links.1 r.links.0,
      set_prev-ok h item n ne holds (last t rest),
      set_next-ok _ item _ ne (write_self h item _) t,
      load-ok _ t (node (last t rest) (first rest t)) r.links.1 linked-Links.0,
      set_next-ok _ (last t rest) (node q t) end_ne end item,
      set_prev-ok _ t (node (last t rest) (first rest item)) r.links.1 closed-Links.0 item,
      ◌>>=◌,
    )

  -- What an insertion before the head does to the heap.
  pub add_before-IsRing :
      (g : Heap) × (add_before (pure t) item h ≡ some (tt, g))
      × IsRing g (item ∷ t ∷ rest)
      × SameOutside (item ∷ t ∷ rest) h g
  add_before-IsRing =
      let (q, end, end_ne) =
        Links-last (linked h t rest item n) (last t rest) t rest t linked-Links in
      (
        added h t rest item n q,
        add_before-added q end end_ne,
        added-IsRing q end end_ne,
        λ a o. added-outside q end end_ne a (ground arith) ∙ linked-outside a (ground arith),
      )

-- CLIST_ADD_LAST of an allocated item that is not in the list appends it: the head pointer is that
-- of the longer list, which is a ring in the new heap, and no other node changes.
pub add_last-IsRing :
    (h : Heap) (xs : List Ptr) (item : Ptr) (n : Node)
    → IsRing h xs
    → item ≢ null
    → h item ≡ some n
    → has item xs ≡ false
    → (g : Heap) × (add_last (first xs null) item h ≡ some (first (xs ++ item ∷ []) null, g))
      × IsRing g (xs ++ item ∷ [])
      × SameOutside (xs ++ item ∷ []) h g
unfolding add_last
add_last-IsRing h [] item n r ne holds out = (
  write (write h item (some (node item n.next))) item (some (node item item)),
  rw (
    set_prev-ok h item n ne holds item,
    set_next-ok _ item _ ne (write_self h item _) item,
    ◌>>=◌,
  ),
  record { links = (write_self _ item _, ne, tt); distinct = (refl, tt) },
  λ a o. write-ne _ item _ a (ground arith) ∙ write-ne h item _ a (ground arith),
)
add_last-IsRing h (t ∷ rest) item n r ne holds out =
    let (g, done, ring, same) = add_before-IsRing h t rest item n r ne holds out in
    let not_null : (t == null) ≡ false = ground (arith, r.links.1) in
    (
      g,
      rw (not_null, done, ◌>>=◌, ◌>>◌),
      IsRing-rotate (item ∷ []) (t ∷ rest) ring,
      λ a o. same a (outside a (not-has-append a (t ∷ rest) (item ∷ []) o)),
    )
  where
    outside :
        (a : Ptr)
        → (has a (t ∷ rest) ≡ false) × (has a (item ∷ []) ≡ false)
        → has a (item ∷ t ∷ rest) ≡ false
    outside a o = ground arith

-- CLIST_ADD_FIRST of an allocated item that is not in the list puts it first: it becomes the head,
-- the longer list is a ring in the new heap, and no other node changes.
pub add_first-IsRing :
    (h : Heap) (xs : List Ptr) (item : Ptr) (n : Node)
    → IsRing h xs
    → item ≢ null
    → h item ≡ some n
    → has item xs ≡ false
    → (g : Heap) × (add_first (first xs null) item h ≡ some (item, g))
      × IsRing g (item ∷ xs)
      × SameOutside (xs ++ item ∷ []) h g
unfolding add_first
add_first-IsRing h [] item n r ne holds out =
    let (g, done, ring, same) = add_last-IsRing h [] item n r ne holds out in
    (g, rw (done, load-ok g item (node item item) ne ring.links.0, ◌>>=◌), ring, same)
add_first-IsRing h (t ∷ rest) item n r ne holds out =
    let (g, done, ring, same) = add_last-IsRing h (t ∷ rest) item n r ne holds out in
    let around = IsRing-rotate (t ∷ rest) (item ∷ []) ring in
    (
      g,
      rw (done, load-ok g t (node item (first rest item)) r.links.1 around.links.2.0, ◌>>=◌),
      around,
      same,
    )
