-- ===== src/Descriptors/Holds.antt =====
-- Commands that hold descriptors, and how they are put together.
use udprelayd.Base.{
  ℕ, ◌+◌, ◌≡◌, refl, Bool, true, false, Option, none, some, List, [], ◌∷◌, ◌++◌, if◌then◌else◌,
  arith,
}
use udprelayd.Os.{Kernel, Event, Cmd, sent, received, closed}
use udprelayd.Daemon.{Run, pure, call, ◌>>=◌}
use udprelayd.Setup.Counts.{occurrences, occurrences-append}
use udprelayd.Descriptors.{closes}

pub closes-append : (fd : ℕ) (a b : List Event) → closes fd (a ++ b) ≡ closes fd a + closes fd b
unfolding closes
closes-append fd [] b = omega arith
closes-append fd (sent a c d e ∷ log) b = closes-append fd log b
closes-append fd (received a ∷ log) b = closes-append fd log b
closes-append fd (closed a ∷ log) b = omega (arith, closes-append fd log b)

-- What is closed and what is held after a command is what was before it.
abbrev pub Same : Kernel → List ℕ → Kernel → List ℕ → Type 0
Same k p k' q = (fd : ℕ) → closes fd k'.log + occurrences fd q ≡ closes fd k.log + occurrences fd p

-- The command, with the descriptors of the first list, ends with those of the second.
unfoldable pub Holds : {A : Type 0} → List ℕ → Cmd A → (A → List ℕ) → Type 0
Holds p m q = (k : Kernel) → Same k p (m k).1 (q (m k).0)

abbrev pub After : {A : Type 0} → Kernel → List ℕ → (A → List ℕ) → Option (A × Kernel) → Type 0
After k p q none = Unit
After k p q (some (a, k')) = Same k p k' (q a)

-- The same for a command that may fault.
unfoldable pub RunHolds : {A : Type 0} → List ℕ → Run A → (A → List ℕ) → Type 0
RunHolds p m q = (k : Kernel) → After k p q (m k)

pub RunHolds-pure : {A : Type 0} (a : A) (q : A → List ℕ) → RunHolds (q a) (pure a) q
unfolding RunHolds
RunHolds-pure a q k fd = refl

pub RunHolds-call :
    {A : Type 0} (p : List ℕ) (m : Cmd A) (q : A → List ℕ) → Holds p m q → RunHolds p (call m) q
unfolding RunHolds Holds
RunHolds-call p m q h k = h k

After-trans :
    {A : Type 0} (k k₁ : Kernel) (p p₁ : List ℕ) (q : A → List ℕ) (res : Option (A × Kernel))
    → Same k p k₁ p₁
    → After k₁ p₁ q res
    → After k p q res
After-trans k k₁ p p₁ q none h g = tt
After-trans k k₁ p p₁ q (some (a, k')) h g = λ fd. omega (arith, h fd, g fd)

pub RunHolds-bind :
    {A B : Type 0} (p : List ℕ) (m : Run A) (q : A → List ℕ) (f : A → Run B) (r : B → List ℕ)
    → RunHolds p m q
    → ((a : A) → RunHolds (q a) (f a) r)
    → RunHolds p (m >>= f) r
unfolding RunHolds
RunHolds-bind {A = A} p m q f r h g k = bound (m k) (h k)
  where
    bound :
        (res : Option (A × Kernel))
        → After k p q res
        → After k p r (elim res [ none ↦ none | some (a, k') ↦ f a k' ])
    bound none s = tt
    bound (some (a, k')) s = After-trans k k' p (q a) r (f a k') s (g a k')

pub RunHolds-if :
    {A : Type 0} (b : Bool) (p : List ℕ) (m n : Run A) (q : A → List ℕ)
    → RunHolds p m q
    → RunHolds p n q
    → RunHolds p (if b then m else n) q
RunHolds-if true p m n q h g = h
RunHolds-if false p m n q h g = g

-- Descriptors beside those of the command are left alone.
pub RunHolds-frame :
    {A : Type 0} (x p : List ℕ) (m : Run A) (q : A → List ℕ)
    → RunHolds p m q
    → RunHolds (x ++ p) m (λ a. x ++ q a)
unfolding RunHolds
RunHolds-frame {A = A} x p m q h k = framed (m k) (h k)
  where
    framed : (res : Option (A × Kernel)) → After k p q res → After k (x ++ p) (λ a. x ++ q a) res
    framed none s = tt
    framed (some (a, k')) s =
        λ fd. omega (arith, s fd, occurrences-append fd x p, occurrences-append fd x (q a))

pub RunHolds-beside :
    {A : Type 0} (x p : List ℕ) (m : Run A) (q : A → List ℕ)
    → RunHolds p m q
    → RunHolds (p ++ x) m (λ a. q a ++ x)
unfolding RunHolds
RunHolds-beside {A = A} x p m q h k = framed (m k) (h k)
  where
    framed : (res : Option (A × Kernel)) → After k p q res → After k (p ++ x) (λ a. q a ++ x) res
    framed none s = tt
    framed (some (a, k')) s =
        λ fd. omega (arith, s fd, occurrences-append fd p x, occurrences-append fd (q a) x)

pub RunHolds-from :
    {A : Type 0} {p p' : List ℕ} (m : Run A) (q : A → List ℕ)
    → p' ≡ p
    → RunHolds p' m q
    → RunHolds p m q
RunHolds-from m q e h = rw e at h

-- The order of the descriptors is of no account.
pub RunHolds-reorder :
    {A : Type 0} (p p' : List ℕ) (m : Run A) (q : A → List ℕ)
    → ((fd : ℕ) → occurrences fd p' ≡ occurrences fd p)
    → RunHolds p m q
    → RunHolds p' m q
unfolding RunHolds
RunHolds-reorder p p' m q same h k =
    After-trans k k p' p q (m k) (λ fd. omega (arith, same fd)) (h k)
