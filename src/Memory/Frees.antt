-- ===== src/Memory/Frees.antt =====
-- What it is to give back a list of blocks, and how commands that do it are put together.
use udprelayd.Base.{
  ℕ, ◌≡◌, refl, true, false, Option, none, some, List, [], ◌∷◌, ◌++◌, has, has-append, IsDistinct,
  if◌then◌else◌, arith, not-has-append,
}
use udprelayd.Memory.{Memory, Cmd, skip, then_run, ◌>>◌, without, free, free_if}

abbrev pub Allocated : Memory → List ℕ → Type 0
Allocated m xs = (a : ℕ) → has a xs ≡ true → m a ≡ true

-- From any memory in which these blocks are allocated, the command frees them, each once, and no
-- others.
unfoldable pub Frees : List ℕ → Cmd → Type 0
Frees xs c =
    (m : Memory)
    → IsDistinct xs
    → Allocated m xs
    → (m' : Memory) × (c m ≡ some m') × ((a : ℕ) → m' a ≡ (if has a xs then false else m a))

pub Frees-skip : Frees [] skip
unfolding Frees
Frees-skip m d al = (m, refl, λ a. refl)

pub Frees-free : (p : ℕ) → Frees (p ∷ []) (free p)
unfolding Frees free without
Frees-free p m d al = (without m p, rw (al p (ground arith)) refl, λ a. ground arith)

abbrev pub optional : Option ℕ → List ℕ
optional none = []
optional (some p) = p ∷ []

pub Frees-free_if : (p : Option ℕ) → Frees (optional p) (free_if p)
unfolding free_if
Frees-free_if none = Frees-skip
Frees-free_if (some p) = Frees-free p

IsDistinct-append :
    (xs ys : List ℕ)
    → IsDistinct (xs ++ ys)
    → IsDistinct xs × IsDistinct ys × ((a : ℕ) → has a xs ≡ true → has a ys ≡ false)
IsDistinct-append [] ys d = (tt, d, λ a i. absurd (ground arith))
IsDistinct-append (x ∷ xs) ys d =
    let (dx, dy, apart) = IsDistinct-append xs ys d.1 in
    let (nx, ny) = not-has-append x xs ys d.0 in ((nx, dx), dy, λ a i. ground (arith, apart a))

-- What the first command leaves, the second one finds allocated.
still-Allocated :
    (xs ys : List ℕ) (m m₁ : Memory)
    → ((a : ℕ) → has a xs ≡ true → has a ys ≡ false)
    → Allocated m (xs ++ ys)
    → ((a : ℕ) → m₁ a ≡ (if has a xs then false else m a))
    → Allocated m₁ ys
still-Allocated xs ys m m₁ apart al left a i =
    ground (arith, apart a, al a, left a, has-append a xs ys)

pub Frees-then : (xs ys : List ℕ) (c e : Cmd) → Frees xs c → Frees ys e → Frees (xs ++ ys) (c >> e)
unfolding Frees then_run
Frees-then xs ys c e f g m d al =
    let (dx, dy, apart) = IsDistinct-append xs ys d in
    let (m₁, done, left) = f m dx (λ a i. al a (rw (has-append a xs ys) (rw i refl))) in
    let (m₂, done', left') = g m₁ dy (still-Allocated xs ys m m₁ apart al left) in
    (m₂, rw done done', λ a. ground (arith, left a, left' a, has-append a xs ys))
