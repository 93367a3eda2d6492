-- ===== src/Clist/Ring.antt =====
-- What a list of clist.h stands for: distinct allocated items whose links lead round in order.
use udprelayd.Base.{
  ◌≡◌, refl, ◌∙◌, ◌≢◌, true, false, Option, none, some, List, [], ◌∷◌, ◌++◌, arith, append-nil,
  ◌==◌, has, IsDistinct, IsDistinct-rotate, has-ne,
}
use udprelayd.Clist.{Ptr, null, Node, node, Heap, write, load, set_prev, set_next, free, ◌>>=◌}

-- The first item of the list, or `z` after its end.
abbrev pub first : List Ptr → Ptr → Ptr
first [] z = z
first (x ∷ xs) z = x

-- The last item of the list, or `a` before its start.
abbrev pub last : Ptr → List Ptr → Ptr
last a [] = a
last a (x ∷ xs) = last x xs

-- The items are linked in both directions, from `a` before them to `z` after them.
abbrev pub Links : Heap → Ptr → List Ptr → Ptr → Type 0
Links h a [] z = Unit
Links h a (x ∷ xs) z = (h x ≡ some (node a (first xs z))) × (x ≢ null) × Links h x xs z

-- The heap holds the circular list with these items, whose head pointer is the first of them or
-- `NULL`.
pub record IsRing (h : Heap) (xs : List Ptr) : Type 0 where
  pub links : Links h (last null xs) xs (first xs null)
  pub distinct : IsDistinct xs

abbrev pub SameOn : List Ptr → Heap → Heap → Type 0
SameOn xs h g = (a : Ptr) → has a xs ≡ true → g a ≡ h a

abbrev pub SameOutside : List Ptr → Heap → Heap → Type 0
SameOutside xs h g = (a : Ptr) → has a xs ≡ false → g a ≡ h a

pub first-append : (xs ys : List Ptr) (z : Ptr) → first (xs ++ ys) z ≡ first xs (first ys z)
first-append [] ys z = refl
first-append (x ∷ xs) ys z = refl

pub last-append : (a : Ptr) (xs ys : List Ptr) → last a (xs ++ ys) ≡ last (last a xs) ys
last-append a [] ys = refl
last-append a (x ∷ xs) ys = last-append x xs ys

pub has-last : (x : Ptr) (xs : List Ptr) → has (last x xs) (x ∷ xs) ≡ true
has-last x [] = ground arith
has-last x (y ∷ xs) = ground (arith, has-last y xs)

pub write_self : (h : Heap) (p : Ptr) (c : Option Node) → write h p c p ≡ c
unfolding write
write_self h p c = ground arith

pub write-ne :
    (h : Heap) (p : Ptr) (c : Option Node) (a : Ptr) → (a == p) ≡ false → write h p c a ≡ h a
unfolding write
write-ne h p c a e = rw e

pub Links-frame :
    (h g : Heap) (a : Ptr) (xs : List Ptr) (z : Ptr)
    → SameOn xs h g
    → Links h a xs z
    → Links g a xs z
Links-frame h g a [] z same l = tt
Links-frame h g a (x ∷ xs) z same l =
    (same x (ground arith) ∙ l.0, l.1, Links-frame h g x xs z (λ b i. same b (ground arith)) l.2)

pub Links-append :
    (h : Heap) (a : Ptr) (xs ys : List Ptr) (z : Ptr)
    → Links h a xs (first ys z)
    → Links h (last a xs) ys z
    → Links h a (xs ++ ys) z
Links-append h a [] ys z l m = m
Links-append h a (x ∷ xs) ys z l m =
    (rw (first-append xs ys z) l.0, l.1, Links-append h x xs ys z l.2 m)

pub Links-split :
    (h : Heap) (a : Ptr) (xs ys : List Ptr) (z : Ptr)
    → Links h a (xs ++ ys) z
    → Links h a xs (first ys z) × Links h (last a xs) ys z
Links-split h a [] ys z l = (tt, l)
Links-split h a (x ∷ xs) ys z l =
    let (front, back) = Links-split h x xs ys z l.2 in
    ((rw (first-append xs ys z) at l.0, l.1, front), back)

-- A circular list may be entered at any of its items.
pub IsRing-rotate : {h : Heap} (xs ys : List Ptr) → IsRing h (xs ++ ys) → IsRing h (ys ++ xs)
IsRing-rotate [] ys r = rw append-nil r
IsRing-rotate (x ∷ xs) [] r = rw append-nil at r
IsRing-rotate {h} (x ∷ xs) (y ∷ ys) r = record { links = around; distinct = turned }
  where
    halves : Links h (last (last x xs) (y ∷ ys)) (x ∷ xs) y × Links h (last x xs) (y ∷ ys) x
    halves =
        Links-split h (last (last x xs) (y ∷ ys)) (x ∷ xs) (y ∷ ys) x
          (rw (← last-append x xs (y ∷ ys)) r.links)

    around : Links h (last y (ys ++ x ∷ xs)) ((y ∷ ys) ++ x ∷ xs) y
    around =
        rw (last-append y ys (x ∷ xs))
          (Links-append h (last x xs) (y ∷ ys) (x ∷ xs) y halves.1 halves.0)

    turned : IsDistinct ((y ∷ ys) ++ x ∷ xs)
    turned = IsDistinct-rotate (x ∷ xs) (y ∷ ys) r.distinct

-- The access functions at an allocated item.
module _ (h : Heap) (p : Ptr) (n : Node) (ne : p ≢ null) (holds : h p ≡ some n) where
  pub load-ok : load p h ≡ some (n, h)
  unfolding load
  load-ok = ground arith

  pub set_prev-ok : (q : Ptr) → set_prev p q h ≡ some (tt, write h p (some (node q n.next)))
  unfolding set_prev
  set_prev-ok q = rw (load-ok, ◌>>=◌)

  pub set_next-ok : (q : Ptr) → set_next p q h ≡ some (tt, write h p (some (node n.prev q)))
  unfolding set_next
  set_next-ok q = rw (load-ok, ◌>>=◌)

  pub free-ok : free p h ≡ some (tt, write h p none)
  unfolding free
  free-ok = rw (load-ok, ◌>>=◌)

-- A chain that is not empty ends in an allocated item whose link leads to `z`.
pub Links-last :
    (h : Heap) (a x : Ptr) (xs : List Ptr) (z : Ptr)
    → Links h a (x ∷ xs) z
    → (q : Ptr) × (h (last x xs) ≡ some (node q z)) × (last x xs ≢ null)
Links-last h a x [] z l = (a, l.0, l.1)
Links-last h a x (y ∷ xs) z l = Links-last h x y xs z l.2

-- A write to the first item's `_prev` link moves the start of the chain.
pub Links-relink_prev :
    (h : Heap) (a b x : Ptr) (xs : List Ptr) (z : Ptr)
    → Links h a (x ∷ xs) z
    → has x xs ≡ false
    → Links (write h x (some (node b (first xs z)))) b (x ∷ xs) z
unfolding write
Links-relink_prev h a b x xs z l out =
    (ground arith, l.1, Links-frame h _ x xs z (λ c i. ground arith) l.2)

-- A write to the last item's `_next` link moves the end of the chain.
pub Links-relink_next :
    (h : Heap) (a x : Ptr) (xs : List Ptr) (z y q : Ptr)
    → Links h a (x ∷ xs) z
    → IsDistinct (x ∷ xs)
    → h (last x xs) ≡ some (node q z)
    → Links (write h (last x xs) (some (node q y))) a (x ∷ xs) y
unfolding write
Links-relink_next h a x [] z y q l d e = (ground arith, l.1, tt)
Links-relink_next h a x (w ∷ xs) z y q l d e = (
  rw (has-ne x (last w xs) (w ∷ xs) d.0 (has-last w xs)) l.0,
  l.1,
  Links-relink_next h x w xs z y q l.2 d.1 e,
)
