-- ===== src/Lookup/Push.antt =====
-- lookup_push of seen_lookup.c, on each of its branches.
use udprelayd.Base.{
  ℕ, suc, ◌+◌, ◌-◌, ◌<◌, ◌≡◌, refl, ◌∙◌, sym, ap, true, false, some, List, [], ◌∷◌, ◌++◌, map,
  map-append, append_assoc, arith, length, has, IsDistinct, IsDistinct-snoc, last_n, last_n-short,
  last_n-drop, last_n-snoc, zero, distinct-middle, IsDistinct-insert, ◌==◌, length-append, ==_refl,
  has-ne, not-has-append,
}
use native.Mathlib.Decide.{dec_le, ℕ_discrete}
use udprelayd.Base.Int.{pos, is_pos}
use udprelayd.Lookup.{Lookup, claim, enter, lookup_push, set_seq, ◌>>=◌}
use udprelayd.Lookup.Tree.{RbTree}
use udprelayd.Lookup.Window.{window, IsValid, length-map, map-set_seq, set_seq-ne, set_seq_self}

not-empty : (xs : List ℕ) → 0 < length xs → (x : ℕ) × (rest : List ℕ) × (xs ≡ x ∷ rest)
not-empty [] h = absurd (omega arith)
not-empty (x ∷ rest) h = (x, rest, refl)

pub has-last_n : (a n : ℕ) (xs : List ℕ) → has a xs ≡ false → has a (last_n n xs) ≡ false
has-last_n a n [] o = rw (last_n-short {A = ℕ} n [] (omega arith))
has-last_n a n (x ∷ xs) o = elim (dec_le n (length xs)) [
  | yes p ↦ rw (last_n-drop n x xs p) (has-last_n a n xs (ground arith))
  | no p ↦ rw (last_n-short n (x ∷ xs) (omega arith)) o
]

last_n-snoc_pos :
    (n : ℕ) (xs : List ℕ) (x : ℕ) → 0 < n → last_n n (xs ++ x ∷ []) ≡ last_n (n - 1) xs ++ x ∷ []
last_n-snoc_pos zero xs x h = absurd (omega arith)
last_n-snoc_pos (suc n) xs x h = rw (pred_suc n) (last_n-snoc n xs x)
  where
    pred_suc : (n : ℕ) → suc n - 1 ≡ n
    pred_suc n = omega arith

module _ (t : RbTree) (size : ℕ) where
  -- What `claim` hands on: an item in neither list, and room for it.
  record Claimed (item : ℕ) (lu : Lookup t.T) : Type 0 where
    pool : lu.pool_size ≡ pos size
    holds : t.Holds lu.seq_of lu.tree lu.list
    distinct : IsDistinct (window lu)
    slots : IsDistinct (lu.list ++ item ∷ lu.free_items)
    count : lu.items ≡ length lu.list
    total : length lu.list + length lu.free_items + 1 ≡ size

  module _ (item : ℕ) (lu : Lookup t.T) (c : Claimed item lu) (s : ℕ) where
    item-out : has item lu.list ≡ false
    item-out =
        (not-has-append item lu.list lu.free_items
          (distinct-middle item lu.list lu.free_items c.slots)).0

    enter-window : window (enter t item lu s) ≡ window lu ++ s ∷ []
    unfolding enter
    enter-window =
        map-append (set_seq lu.seq_of item s) lu.list (item ∷ [])
        ∙ rw (map-set_seq lu.seq_of item s lu.list item-out, set_seq_self lu.seq_of item s)

    enter-Holds :
        has s (window lu) ≡ false
        → t.Holds
            (set_seq lu.seq_of item s)
            (t.add (set_seq lu.seq_of item s) lu.tree item)
            (lu.list ++ item ∷ [])
    enter-Holds new =
        t.add-Holds (set_seq lu.seq_of item s) lu.tree lu.list item
          (t.Holds-frame lu.seq_of (set_seq lu.seq_of item s) lu.tree lu.list
            (λ j i. set_seq-ne lu.seq_of item s j (other j (has-ne item j lu.list item-out i)))
            c.holds)
          (rw (set_seq_self lu.seq_of item s, map-set_seq lu.seq_of item s lu.list item-out) new)
      where
        other : (j : ℕ) → (item == j) ≡ false → (j == item) ≡ false
        other j o = ground arith

    enter-IsValid : has s (window lu) ≡ false → IsValid t size (enter t item lu s)
    unfolding enter
    enter-IsValid new = record {
      pool = c.pool;
      holds = enter-Holds new;
      distinct = rw enter-window at-window;
      slots = rw (append_assoc lu.list (item ∷ []) lu.free_items) c.slots;
      count = omega (arith, length-append lu.list (item ∷ []));
      total = omega (arith, length-append lu.list (item ∷ []));
    }
      where
        at-window : IsDistinct (window lu ++ s ∷ [])
        at-window = IsDistinct-snoc s (window lu) new c.distinct

  module _ (lu : Lookup t.T) (v : IsValid t size lu) where
    -- a full pool gives up the oldest number
    claim-full :
        (item : ℕ) (rest : List ℕ)
        → lu.list ≡ item ∷ rest
        → lu.items ≡ size
        → (lu' : Lookup t.T) × (claim t lu ≡ some (item, lu'))
          × Claimed item lu'
          × (window lu' ≡ last_n (size - 1) (window lu))
    unfolding claim
    claim-full item rest e full = (
      record lu { list = rest; tree = t.delete lu.seq_of lu.tree item; items = lu.items - 1 },
      rw (is_full, e, ◌>>=◌),
      record {
        pool = v.pool;
        holds = t.delete-Holds lu.seq_of lu.tree [] item rest (rw e at v.holds);
        distinct = (rw e at v.distinct).1;
        slots = IsDistinct-insert item rest lu.free_items (rw e at v.slots).0 (rw e at v.slots).1;
        count = omega (arith, v.count, ap length e);
        total = omega (arith, v.total, ap length e);
      },
      sym (rw e (last_n-tail (size - 1) (lu.seq_of item) (map lu.seq_of rest) ends)),
    )
      where
        is_full : is_pos lu.items lu.pool_size ≡ true
        is_full = rw (v.pool, full, ==_refl size)

        ends : length (map lu.seq_of rest) ≡ size - 1
        ends = omega (arith, v.count, ap length e, length-map lu.seq_of rest, full)

        last_n-tail : (n x : ℕ) (xs : List ℕ) → length xs ≡ n → last_n n (x ∷ xs) ≡ xs
        last_n-tail n x xs h = last_n-drop n x xs (omega arith) ∙ last_n-short n xs (omega arith)

    -- a pool with room gives a free item
    claim-free :
        (item : ℕ) (rest : List ℕ)
        → lu.free_items ≡ item ∷ rest
        → lu.items < size
        → (lu' : Lookup t.T) × (claim t lu ≡ some (item, lu'))
          × Claimed item lu'
          × (window lu' ≡ last_n (size - 1) (window lu))
    unfolding claim
    claim-free item rest e room = (
      record lu { free_items = rest },
      rw (has_room, e, ◌>>=◌),
      record {
        pool = v.pool;
        holds = v.holds;
        distinct = v.distinct;
        slots = rw e at v.slots;
        count = v.count;
        total = omega (arith, v.total, ap length e);
      },
      sym (
          last_n-short (size - 1) (window lu)
            (omega (arith, length-map lu.seq_of lu.list, v.count, room))),
    )
      where
        ne : (n : ℕ) → n < size → (n == size) ≡ false
        ne n h = ground arith

        has_room : is_pos lu.items lu.pool_size ≡ false
        has_room = rw (v.pool, ne lu.items room)

    claim-Claimed :
        0 < size
        → (item : ℕ) × (lu' : Lookup t.T) × (claim t lu ≡ some (item, lu'))
          × Claimed item lu'
          × (window lu' ≡ last_n (size - 1) (window lu))
    claim-Claimed pos_size = elim (ℕ_discrete lu.items size) [
      | yes full ↦
          let (item, rest, e) = not-empty lu.list (omega (arith, v.count, full)) in
          let (lu', claimed, c, w) = claim-full item rest e full in (item, lu', claimed, c, w)
      | no other ↦
          let room : lu.items < size = omega (arith, v.count, v.total) in
          let (item, rest, e) = not-empty lu.free_items (omega (arith, v.count, v.total)) in
          let (lu', claimed, c, w) = claim-free item rest e room in (item, lu', claimed, c, w)
    ]

    -- A number that is in the window is refused, and nothing changes.
    pub lookup_push-seen :
        (s : ℕ) → has s (window lu) ≡ true → lookup_push t lu s ≡ some (lu, false)
    unfolding lookup_push
    lookup_push-seen s seen = rw (t.find_member-Holds lu.seq_of lu.tree lu.list s v.holds, seen)

    -- In a valid lookup with at least one item, a number that is not in the window is taken: the push
    -- answers true, the lookup stays valid, and the number joins the window behind the others, in
    -- place of the oldest if the pool is full.
    pub lookup_push-fresh :
        (s : ℕ)
        → 0 < size
        → has s (window lu) ≡ false
        → (lu' : Lookup t.T) × (lookup_push t lu s ≡ some (lu', true))
          × IsValid t size lu'
          × (window lu' ≡ last_n size (window lu ++ s ∷ []))
    unfolding lookup_push
    lookup_push-fresh s pos_size fresh =
        let (item, lu', claimed, c, shorter) = claim-Claimed pos_size in
        (
          enter t item lu' s,
          rw (t.find_member-Holds lu.seq_of lu.tree lu.list s v.holds, fresh, claimed, ◌>>=◌),
          enter-IsValid item lu' c s (rw shorter (has-last_n s (size - 1) (window lu) fresh)),
          enter-window item lu' c s
              ∙ rw shorter (sym (last_n-snoc_pos size (window lu) s pos_size)),
        )
