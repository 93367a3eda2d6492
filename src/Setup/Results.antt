-- ===== src/Setup/Results.antt =====
-- new_relay: properties of a command's result, and that the address chosen is one of the resolver's.
use udprelayd.Base.{
  ℕ, ◌<◌, ◌≡◌, refl, Bool, true, false, not, Option, none, some, List, [], ◌∷◌, if◌then◌else◌,
  length,
}
use udprelayd.Net.{
  AddrInfo, Query, Sys, Cmd, pure, ◌>>=◌, ◌>>◌, getaddrinfo, freeaddrinfo, socket, setsockopt, bind,
  close,
}
use udprelayd.Setup.{Choice, chosen, no_choice, gave_up, bind_socket, with_socket, choose}

-- Every address has at least one byte.
abbrev pub AllSized : List AddrInfo → Type 0
AllSized [] = Unit
AllSized (r ∷ rs) = (0 < length r.addr) × AllSized rs

abbrev pub AnswerSized : Option (AddrInfo × List AddrInfo) → Type 0
AnswerSized none = Unit
AnswerSized (some (first, rest)) = (0 < length first.addr) × AllSized rest

-- What getaddrinfo promises of its answers.
abbrev pub Sized : Sys → Type 0
Sized s = (n : ℕ) (q : Query) → AnswerSized (s.resolve n q)

-- With such a resolver, the command's result has the property, and the resolver stays.
unfoldable pub Yields : {A : Type 0} → (A → Type 0) → Cmd A → Type 0
Yields P m = (s : Sys) → Sized s → P (m s).0 × Sized (m s).1

pub Yields-pure : {A : Type 0} (P : A → Type 0) (a : A) → P a → Yields P (pure a)
unfolding Yields pure
Yields-pure P a p s h = (p, h)

pub Yields-bind :
    {A B : Type 0} (P : A → Type 0) (Q : B → Type 0) (m : Cmd A) (f : A → Cmd B)
    → Yields P m
    → ((a : A) → P a → Yields Q (f a))
    → Yields Q (m >>= f)
unfolding Yields ◌>>=◌
Yields-bind P Q m f y g s h = let (p, h') = y s h in g (m s).0 p (m s).1 h'

pub Yields-if :
    {A : Type 0} (b : Bool) (P : A → Type 0) (m n : Cmd A)
    → (b ≡ true → Yields P m)
    → (b ≡ false → Yields P n)
    → Yields P (if b then m else n)
Yields-if true P m n h g = h refl
Yields-if false P m n h g = g refl

abbrev pub Any : {A : Type 0} → A → Type 0
Any a = Unit

pub Yields-getaddrinfo : (q : Query) → Yields AnswerSized (getaddrinfo q)
unfolding Yields getaddrinfo
Yields-getaddrinfo q s h = (h s.calls q, h)

pub Yields-freeaddrinfo : Yields Any freeaddrinfo
unfolding Yields freeaddrinfo
Yields-freeaddrinfo s h = (tt, h)

Yields-socket : (r : AddrInfo) → Yields Any (socket r)
unfolding Yields socket
Yields-socket r s h = (tt, h)

Yields-setsockopt : (fd : ℕ) → Yields Any (setsockopt fd)
unfolding Yields setsockopt
Yields-setsockopt fd s h = (tt, h)

Yields-bind_call : (fd : ℕ) (r : AddrInfo) → Yields Any (bind fd r)
unfolding Yields bind
Yields-bind_call fd r s h = (tt, h)

pub Yields-close_then :
    {A : Type 0} (P : A → Type 0) (fd : ℕ) (m : Cmd A) → Yields P m → Yields P (close fd >> m)
unfolding Yields close ◌>>=◌
Yields-close_then P fd m y s h = y _ h

abbrev pub ChoiceSized : Choice → Type 0
ChoiceSized (chosen fd ai) = 0 < length ai.addr
ChoiceSized _ = Unit

bind_socket-Yields :
    (fd : ℕ) (r : AddrInfo) (next : Cmd Choice)
    → 0 < length r.addr
    → Yields ChoiceSized next
    → Yields ChoiceSized (bind_socket fd r next)
unfolding bind_socket
bind_socket-Yields fd r next sized y =
    Yields-bind Any ChoiceSized (setsockopt fd) _ (Yields-setsockopt fd) (λ ok u.
      Yields-if (not ok) ChoiceSized _ _
        (λ e. Yields-close_then ChoiceSized fd (pure gave_up) (Yields-pure ChoiceSized gave_up tt))
        (λ e. Yields-bind Any ChoiceSized (bind fd r) _ (Yields-bind_call fd r) (λ bound u'.
          Yields-if bound ChoiceSized _ _ (λ e'. Yields-pure ChoiceSized (chosen fd r) sized)
            (λ e'. Yields-close_then ChoiceSized fd next y))))

with_socket-Yields :
    (local : Bool) (r : AddrInfo) (next : Cmd Choice) (answer : Option ℕ)
    → 0 < length r.addr
    → Yields ChoiceSized next
    → Yields ChoiceSized (with_socket local r next answer)
unfolding with_socket
with_socket-Yields local r next none sized y = y
with_socket-Yields local r next (some fd) sized y =
    Yields-if (not local) ChoiceSized _ _ (λ e. Yields-pure ChoiceSized (chosen fd r) sized)
      (λ e. bind_socket-Yields fd r next sized y)

pub choose-Yields :
    (local : Bool) (rs : List AddrInfo) → AllSized rs → Yields ChoiceSized (choose local rs)
unfolding choose
choose-Yields local [] h = Yields-pure ChoiceSized no_choice tt
choose-Yields local (r ∷ rs) h =
    Yields-bind Any ChoiceSized (socket r) _ (Yields-socket r) (λ answer u.
      with_socket-Yields local r (choose local rs) answer h.0 (choose-Yields local rs h.1))
