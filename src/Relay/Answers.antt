-- ===== src/Relay/Answers.antt =====
-- relay.c, relay_enqueue: which answers of the kernel it passes on as failures, and what it leaves
-- alone.
use udprelayd.Base.{
  ◌≡◌, refl, ℕ, Bool, not, ◌&&◌, ◌||◌, List, arith, ◌==◌, length, Bool-cases, inl, inr, if-both,
}
use udprelayd.Base.Int.{ℤ, pos, negsuc}
use udprelayd.Os.{
  Kernel, sendto, Ssize, size, failed, eagain, is_eagain, is_emsgsize, is_unreachable,
}
use udprelayd.Relay.{
  Relay, dest, relay_enqueue, enqueue_result, hold, keep_first, reserve, relay_queued, is_neg,
}

-- An answer of `sendto` on which relay_enqueue gives up: no byte sent, or an error that is none of
-- those it knows.
unfoldable pub hard : Ssize → Bool
hard (size n) = n == 0
hard (failed e) = not (is_emsgsize e || is_unreachable e) && not (is_eagain e)

enqueue_result-hard :
    (r : Relay) (buffer : List ℕ) (sz : Ssize) → is_neg (enqueue_result r buffer sz).0 ≡ hard sz
unfolding enqueue_result hard
enqueue_result-hard r buffer (size n) = ground arith
enqueue_result-hard r buffer (failed eagain) = refl
enqueue_result-hard r buffer (failed e) = refl

-- relay_enqueue fails exactly where the relay has an address and the kernel's answer is a hard one.
pub relay_enqueue-hard :
    (r : Relay) (buffer : List ℕ) (k : Kernel)
    → is_neg (relay_enqueue r buffer k).0.0
      ≡ (not (r.remote_sa_len == 0) && hard (k.send_answer k.sends))
unfolding relay_enqueue sendto
relay_enqueue-hard r buffer k = elim (Bool-cases (r.remote_sa_len == 0)) [
  | inl unset ↦ rw unset
  | inr set ↦ rw set (enqueue_result-hard r buffer (k.send_answer k.sends))
]

pub relay_enqueue-answers :
    (r : Relay) (buffer : List ℕ) (k : Kernel)
    → (relay_enqueue r buffer k).1.send_answer ≡ k.send_answer
unfolding relay_enqueue sendto
relay_enqueue-answers r buffer k = elim (Bool-cases (r.remote_sa_len == 0)) [
  | inl unset ↦ rw unset
  | inr set ↦ rw set
]

-- The parts of a relay that say where its datagrams go.
pub record SamePeer (r r' : Relay) : Type 0 where
  pub same_fd : r'.fd ≡ r.fd
  pub same_sa : r'.remote_sa ≡ r.remote_sa
  pub same_len : r'.remote_sa_len ≡ r.remote_sa_len

reserve-SamePeer : (r : Relay) (n : ℕ) → SamePeer r (reserve r n)
unfolding reserve
reserve-SamePeer r n = ground arith

hold-SamePeer : (r : Relay) (buffer : List ℕ) → SamePeer r (hold r buffer)
unfolding hold keep_first
hold-SamePeer r buffer =
    let same = reserve-SamePeer r (length buffer) in
    if-both (SamePeer r) (relay_queued r) _ _
      (record { same_fd = refl; same_sa = refl; same_len = refl })
      (record { same_fd = same.same_fd; same_sa = same.same_sa; same_len = same.same_len })

unchanged : (r : Relay) → SamePeer r r
unchanged r = record { same_fd = refl; same_sa = refl; same_len = refl }

enqueue_result-SamePeer :
    (r : Relay) (buffer : List ℕ) (sz : Ssize) → SamePeer r (enqueue_result r buffer sz).1
unfolding enqueue_result
enqueue_result-SamePeer r buffer (size n) =
    if-both (λ (x : ℤ × Relay). SamePeer r x.1) (n == 0) (negsuc 0, r) (pos 0, r) (unchanged r)
      (unchanged r)
enqueue_result-SamePeer r buffer (failed e) =
    if-both (λ (x : ℤ × Relay). SamePeer r x.1) (is_emsgsize e || is_unreachable e) (pos 0, r) _
      (unchanged r)
      (if-both (λ (x : ℤ × Relay). SamePeer r x.1) (not (is_eagain e)) (negsuc 0, r) _ (unchanged r)
        (hold-SamePeer r buffer))

pub relay_enqueue-SamePeer :
    (r : Relay) (buffer : List ℕ) (k : Kernel) → SamePeer r (relay_enqueue r buffer k).0.1
unfolding relay_enqueue
relay_enqueue-SamePeer r buffer k = elim (Bool-cases (r.remote_sa_len == 0)) [
  | inl unset ↦ rw unset (unchanged r)
  | inr set ↦ rw set (enqueue_result-SamePeer r buffer (sendto r.fd buffer (dest r) k).0)
]
