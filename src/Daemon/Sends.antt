-- ===== src/Daemon/Sends.antt =====
-- udprelayd.c: what a log shows of the datagrams offered to the kernel.
use udprelayd.Base.{
  ℕ, ◌≡◌, refl, ◌∙◌, sym, List, [], ◌∷◌, ◌++◌, append-nil, ◌==◌, if◌then◌else◌, Bool-cases, inl,
  inr,
}
use udprelayd.Base.Int.{ℤ, pos, negsuc}
use udprelayd.Os.{Event, sent, received, closed, Kernel, sendto, close}
use udprelayd.Relay.{Relay, dest, relay_enqueue, free_relay}
use udprelayd.Daemon.{keep_or_free}

-- A datagram offered to the kernel: descriptor, contents, destination.
pub record Offer : Type 0 where
  pub fd : ℕ
  pub contents : List ℕ
  pub to : List ℕ

-- All the datagrams of a log, in order, whatever the kernel answered.
unfoldable pub offers : List Event → List Offer
offers [] = []
offers (sent fd contents to sz ∷ log) =
    record { fd = fd; contents = contents; to = to } ∷ offers log
offers (received fd ∷ log) = offers log
offers (closed fd ∷ log) = offers log

pub offers-append : (a b : List Event) → offers (a ++ b) ≡ offers a ++ offers b
unfolding offers
offers-append [] b = refl
offers-append (sent fd contents to sz ∷ a) b = rw (offers-append a b)
offers-append (received fd ∷ a) b = offers-append a b
offers-append (closed fd ∷ a) b = offers-append a b

-- The datagram that relay_enqueue offers: none from a relay without an address.
unfoldable pub offer_of : Relay → List ℕ → List Offer
offer_of r buffer =
    if r.remote_sa_len == 0 then [] else record { fd = r.fd; contents = buffer; to = dest r } ∷ []

pub relay_enqueue-offers :
    (r : Relay) (buffer : List ℕ) (k : Kernel)
    → offers (relay_enqueue r buffer k).1.log ≡ offers k.log ++ offer_of r buffer
unfolding relay_enqueue offer_of sendto offers
relay_enqueue-offers r buffer k = elim (Bool-cases (r.remote_sa_len == 0)) [
  | inl unset ↦ rw unset (sym (append-nil (offers k.log)))
  | inr set ↦ rw set (offers-append k.log _)
]

pub free_relay-offers : (r : Relay) (k : Kernel) → offers (free_relay r k).1.log ≡ offers k.log
unfolding free_relay close offers
free_relay-offers r k = offers-append k.log (closed r.fd ∷ []) ∙ append-nil (offers k.log)

pub keep_or_free-offers :
    (res : ℤ × Relay) (k : Kernel) → offers (keep_or_free res k).1.log ≡ offers k.log
unfolding keep_or_free
keep_or_free-offers (pos n, r) k = refl
keep_or_free-offers (negsuc n, r) k = free_relay-offers r k
