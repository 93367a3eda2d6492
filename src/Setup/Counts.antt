-- ===== src/Setup/Counts.antt =====
-- new_relay and udprelay_init: counting the descriptors that a log has opened and closed.
use udprelayd.Base.{ℕ, ◌+◌, ◌≡◌, refl, List, [], ◌∷◌, ◌++◌, ◌==◌, if◌then◌else◌, arith}
use udprelayd.Base.{Bool, true, false, Option, none, some, Option-cases, Bool-cases, inl, inr}
use udprelayd.Net.{
  AddrInfo, Query, Event, opened, closed, Sys, Cmd, pure, ◌>>=◌, ◌>>◌, getaddrinfo, freeaddrinfo,
  socket, setsockopt, bind, close,
}

-- How often a descriptor has been opened, and closed.
unfoldable pub opened_count : ℕ → List Event → ℕ
opened_count fd [] = 0
opened_count fd (opened a ∷ log) = (if fd == a then 1 else 0) + opened_count fd log
opened_count fd (_ ∷ log) = opened_count fd log

unfoldable pub closed_count : ℕ → List Event → ℕ
closed_count fd [] = 0
closed_count fd (closed a ∷ log) = (if fd == a then 1 else 0) + closed_count fd log
closed_count fd (_ ∷ log) = closed_count fd log

unfoldable pub occurrences : ℕ → List ℕ → ℕ
occurrences fd [] = 0
occurrences fd (a ∷ fds) = (if fd == a then 1 else 0) + occurrences fd fds

-- The command, in a state in which the descriptors of the first list are its own, ends with those of
-- the second: of every descriptor, as many are opened as are closed but for these.
unfoldable pub Owns : {A : Type 0} → List ℕ → Cmd A → (A → List ℕ) → Type 0
Owns p m q =
    (s : Sys) (fd : ℕ)
    → opened_count fd (m s).1.log + closed_count fd s.log + occurrences fd p
      ≡ opened_count fd s.log + closed_count fd (m s).1.log + occurrences fd (q (m s).0)

pub occurrences-nil : (fd : ℕ) → occurrences fd [] ≡ 0
unfolding occurrences
occurrences-nil fd = refl

pub occurrences-append :
    (fd : ℕ) (xs ys : List ℕ) → occurrences fd (xs ++ ys) ≡ occurrences fd xs + occurrences fd ys
unfolding occurrences
occurrences-append fd [] ys = omega arith
occurrences-append fd (x ∷ xs) ys = omega (arith, occurrences-append fd xs ys)

pub Owns-pure : {A : Type 0} (a : A) (q : A → List ℕ) → Owns (q a) (pure a) q
unfolding Owns pure
Owns-pure a q s fd = omega arith

pub Owns-bind :
    {A B : Type 0} (p : List ℕ) (m : Cmd A) (q : A → List ℕ) (f : A → Cmd B) (r : B → List ℕ)
    → Owns p m q
    → ((a : A) → Owns (q a) (f a) r)
    → Owns p (m >>= f) r
unfolding Owns ◌>>=◌
Owns-bind p m q f r h g s fd = omega (arith, h s fd, g (m s).0 (m s).1 fd)

-- Other descriptors are left alone.
pub Owns-frame :
    {A : Type 0} (x p : List ℕ) (m : Cmd A) (q : A → List ℕ)
    → Owns p m q
    → Owns (x ++ p) m (λ a. x ++ q a)
unfolding Owns
Owns-frame x p m q h s fd =
    omega (arith, h s fd, occurrences-append fd x p, occurrences-append fd x (q (m s).0))

pub Owns-getaddrinfo : (q : Query) (p : List ℕ) → Owns p (getaddrinfo q) (λ res. p)
unfolding Owns getaddrinfo opened_count closed_count
Owns-getaddrinfo q p s fd = elim (Option-cases (s.resolve s.calls q)) [
  | inl e ↦ rw e (omega arith)
  | inr (a, e) ↦ rw e (omega arith)
]

pub Owns-freeaddrinfo : (p : List ℕ) → Owns p freeaddrinfo (λ u. p)
unfolding Owns freeaddrinfo opened_count closed_count
Owns-freeaddrinfo p s fd = omega arith

abbrev pub opened_fd : Option ℕ → List ℕ
opened_fd none = []
opened_fd (some fd) = fd ∷ []

pub Owns-socket : (r : AddrInfo) → Owns [] (socket r) opened_fd
unfolding Owns socket opened_count closed_count occurrences
Owns-socket r s fd = elim (Option-cases (s.socket_answer s.calls)) [
  | inl e ↦ rw e (omega arith)
  | inr (a, e) ↦ rw e (omega arith)
]

pub Owns-setsockopt : (a : ℕ) (p : List ℕ) → Owns p (setsockopt a) (λ ok. p)
unfolding Owns setsockopt
Owns-setsockopt a p s fd = omega arith

pub Owns-bind_call : (a : ℕ) (r : AddrInfo) (p : List ℕ) → Owns p (bind a r) (λ ok. p)
unfolding Owns bind opened_count closed_count
Owns-bind_call a r p s fd = elim (Bool-cases (s.bind_answer s.calls)) [
  | inl e ↦ rw e (omega arith)
  | inr e ↦ rw e (omega arith)
]

pub Owns-close : (a : ℕ) (p : List ℕ) → Owns (a ∷ p) (close a) (λ u. p)
unfolding Owns close opened_count closed_count occurrences
Owns-close a p s fd = omega arith

pub Owns-if :
    {A : Type 0} (b : Bool) (p : List ℕ) (m n : Cmd A) (q : A → List ℕ)
    → Owns p m q
    → Owns p n q
    → Owns p (if b then m else n) q
Owns-if true p m n q h g = h
Owns-if false p m n q h g = g

-- A descriptor is closed, and then the command goes on.
pub Owns-close_then :
    {A : Type 0} (a : ℕ) (p : List ℕ) (m : Cmd A) (q : A → List ℕ)
    → Owns p m q
    → Owns (a ∷ p) (close a >> m) q
Owns-close_then a p m q h =
    Owns-bind (a ∷ p) (close a) (λ u. p) (λ u. m) q (Owns-close a p) (λ u. h)

-- The order of the descriptors is of no account.
pub Owns-reorder :
    {A : Type 0} (p p' : List ℕ) (m : Cmd A) (q : A → List ℕ)
    → ((fd : ℕ) → occurrences fd p' ≡ occurrences fd p)
    → Owns p m q
    → Owns p' m q
unfolding Owns
Owns-reorder p p' m q same h s fd = omega (arith, same fd, h s fd)
