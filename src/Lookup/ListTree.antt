-- ===== src/Lookup/ListTree.antt =====
-- The tree of seen_lookup.c as a plain list of items: it meets what is assumed of sglib.h, and it
-- runs in the tests.
use udprelayd.Base.{
  ℕ, ◌≡◌, refl, ap, false, List, [], ◌∷◌, ◌++◌, map, arith, ◌==◌, has, IsDistinct, IsDistinct-snoc,
  not-has-append, not-has-middle, Bool-cases, inl, inr, if◌then◌else◌, ==_refl, ==_iff,
}
use udprelayd.Lookup.Tree.{RbTree}

unfoldable pub remove : ℕ → List ℕ → List ℕ
remove i [] = []
remove i (x ∷ xs) = if x == i then xs else x ∷ remove i xs

abbrev pub HoldsItems : (ℕ → ℕ) → List ℕ → List ℕ → Type 0
HoldsItems f t items = (t ≡ items) × IsDistinct items

pub has-map : (f : ℕ → ℕ) (i : ℕ) (xs : List ℕ) → has (f i) (map f xs) ≡ false → has i xs ≡ false
has-map f i [] o = refl
has-map f i (x ∷ xs) o = elim (Bool-cases (i == x)) [
  | inl here ↦ absurd (clash (rw (← (==_iff i x).0 here) at o))
  | inr away ↦ rw away (has-map f i xs (ground arith))
]
  where
    clash : has (f i) (f i ∷ map f xs) ≡ false → ⊥
    clash o' = ground (arith, ==_refl (f i))

remove-middle :
    (i : ℕ) (before after : List ℕ)
    → IsDistinct (before ++ i ∷ after)
    → remove i (before ++ i ∷ after) ≡ before ++ after
unfolding remove
remove-middle i [] after d = rw (==_refl i)
remove-middle i (x ∷ before) after d =
    rw (ne (not-has-append x before (i ∷ after) d.0).1, remove-middle i before after d.1)
  where
    ne : has x (i ∷ after) ≡ false → (x == i) ≡ false
    ne o = ground arith

IsDistinct-remove :
    (i : ℕ) (before after : List ℕ)
    → IsDistinct (before ++ i ∷ after)
    → IsDistinct (before ++ after)
IsDistinct-remove i [] after d = d.1
IsDistinct-remove i (x ∷ before) after d =
    (not-has-middle x i before after d.0, IsDistinct-remove i before after d.1)

pub delete-lem :
    (f : ℕ → ℕ) (t before : List ℕ) (i : ℕ) (after : List ℕ)
    → HoldsItems f t (before ++ i ∷ after)
    → HoldsItems f (remove i t) (before ++ after)
delete-lem f t before i after (e, d) =
    (rw e (remove-middle i before after d), IsDistinct-remove i before after d)

abbrev pub list_tree : RbTree
list_tree = record {
  T = List ℕ;
  empty = [];
  find_member = λ f t seq. has seq (map f t);
  add = λ f t i. t ++ i ∷ [];
  delete = λ f t i. remove i t;
  Holds = HoldsItems;
  empty-Holds = λ f. (refl, tt);
  find_member-Holds = λ f t items seq h. ap (λ l. has seq (map f l)) h.0;
  add-Holds = λ f t items i h new.
      (ap (λ l. l ++ i ∷ []) h.0, IsDistinct-snoc i items (has-map f i items new) h.1);
  delete-Holds = delete-lem;
  Holds-frame = λ f f' t items same h. h;
}
