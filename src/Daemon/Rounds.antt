-- ===== src/Daemon/Rounds.antt =====
-- The main loop on a kernel without failures: it never faults, keeps every relay and its invariant,
-- and goes on.
use udprelayd.Base.{
  ℕ, suc, ◌<◌, ◌≡◌, refl, ◌∙◌, Bool, true, false, some, List, [], ◌∷◌, ◌==◌, length,
}
use udprelayd.Base.Int.{ℤ}
use udprelayd.Os.{Kernel, is_eagain}
use udprelayd.Lookup.Tree.{RbTree}
use udprelayd.Relay.{Relay, FdSet, relay_handle}
use udprelayd.Daemon.{Run, pure, ◌>>=◌, Udprelay, handle_relays}
use udprelayd.Daemon.Loop.{
  Selected, ready, select_failed, Step, continue, terminate, inbound, relayed, dispatch, serve,
  round, main_loop,
}
use udprelayd.Daemon.Benign.{Benign, relay_handle-Does}
use udprelayd.Daemon.Serving.{
  AllValid, handle_relays-Does, IsValid, Serves, Passed, Serves-pure, Serves-bind, Serves-if,
  inbound-Serves, with_outward,
}
use udprelayd.Daemon.Packets.{AllStay, relayed-Serves}

-- Nothing but an error to try again comes from `select`, and no signal.
abbrev pub Quiet : Selected × Bool → Type 0
Quiet (ready n rfds wfds, sigterm) = sigterm ≡ false
Quiet (select_failed e, sigterm) = (is_eagain e ≡ true) × (sigterm ≡ false)

abbrev pub AllQuiet : List (Selected × Bool) → Type 0
AllQuiet [] = Unit
AllQuiet (i ∷ inputs) = Quiet i × AllQuiet inputs

-- A round that does not end the loop, and leaves a valid daemon with `n` relays.
abbrev pub Continues : (t : RbTree) (slots n : ℕ) → Step t.T → Type 0
Continues t slots n (continue u) = IsValid t slots n u
Continues t slots n (terminate u) = ⊥

module _ (t : RbTree) (slots : ℕ) (some_slots : 0 < slots) where
  abbrev Goes : ℕ → Step t.T → Type 0
  Goes = Continues t slots

  abbrev Valid : ℕ → Udprelay t.T → Type 0
  Valid = IsValid t slots

  abbrev Done : ℕ → ℤ × Udprelay t.T → Type 0
  Done = Passed t slots

  with_relays :
      (n : ℕ) (u : Udprelay t.T) (rs : List Relay) (num : ℕ)
      → Valid n u
      → AllValid rs
      → length rs ≡ n
      → num ≡ n
      → Valid n (record u { relays = rs; relays_num = num })
  with_relays n u rs num v all count number = record {
    outward_valid = v.outward_valid;
    relays_valid = all;
    number = count;
    counted = number;
    lookup_valid = v.lookup_valid;
    seq_fits = v.seq_fits;
  }

  dispatch-Serves :
      (n : ℕ) (u : Udprelay t.T) → Valid (suc n) u → Serves (Goes (suc n)) (dispatch t u)
  unfolding dispatch
  dispatch-Serves n u v =
      Serves-bind (Done (suc n)) (Goes (suc n)) (inbound u) _ (inbound-Serves t slots n u v)
        (λ res p. rw p.0 (
          Serves-bind (AllStay t slots some_slots (length res.1.relays) (suc n)) (Goes (suc n))
            (relayed t res.1 res.1.relays) _
            (relayed-Serves t slots some_slots (suc n) res.1 res.1.relays p.1 p.1.relays_valid)
            (λ x q. Serves-pure (Goes (suc n)) (continue (record x.1 { relays = x.0 })) (
              with_relays (suc n) x.1 x.0 x.1.relays_num q.1 q.0.0 (q.0.1 ∙ p.1.number)
                q.1.counted))))

  serve-Serves :
      (n : ℕ) (u : Udprelay t.T) (rfds wfds : FdSet)
      → Valid (suc n) u
      → Serves (Goes (suc n)) (serve t u rfds wfds)
  unfolding serve
  serve-Serves n u rfds wfds v k b =
      let (f, b₁) = relay_handle-Does u.outward rfds wfds v.outward_valid k b in
      let (res, k₁) = relay_handle u.outward rfds wfds k in
      let (q, b₂) = handle_relays-Does u.relays u.relays_num rfds wfds v.relays_valid k₁ b₁ in
      let (x, k₂) = handle_relays u.relays u.relays_num rfds wfds k₁ in
      rw f.0 (
        dispatch-Serves n (record u { outward = res.1; relays = x.0; relays_num = x.1 })
          (with_relays (suc n) (record u { outward = res.1 }) x.0 x.1
            (with_outward t slots (suc n) u res.1 v f.1) q.0 (q.1.0 ∙ v.number) (q.1.1 ∙ v.counted))
          k₂ b₂)

  round-Serves :
      (n : ℕ) (u : Udprelay t.T) (selected : Selected) (sigterm : Bool)
      → Quiet (selected, sigterm)
      → Valid (suc n) u
      → Serves (Goes (suc n)) (round t u selected sigterm)
  unfolding round
  round-Serves n u (select_failed e) sigterm q v =
      rw (q.0, q.1) (Serves-pure (Goes (suc n)) (continue u) v)
  round-Serves n u (ready m rfds wfds) sigterm q v = rw q (
      Serves-if (m == 0) (Goes (suc n)) _ _ (Serves-pure (Goes (suc n)) (continue u) v)
        (serve-Serves n u rfds wfds v))

  abbrev follow : List (Selected × Bool) → Step t.T → Run (Step t.T)
  follow inputs step = elim step [
    | continue u' ↦ main_loop t inputs u'
    | terminate u' ↦ pure (terminate u')
  ]

  -- Over any run of rounds in which `select` fails with nothing but EAGAIN and no signal comes, on a
  -- kernel that never fails hard and never hands out an empty datagram, a valid daemon with at least
  -- one relay and one item in its lookup never faults and does not terminate, keeps all its relays,
  -- and is valid at the end.
  pub main_loop-Serves :
      (n : ℕ) (inputs : List (Selected × Bool)) (u : Udprelay t.T) (k : Kernel)
      → AllQuiet inputs
      → IsValid t slots (suc n) u
      → Benign k
      → (step : Step t.T) × (k' : Kernel) × (main_loop t inputs u k ≡ some (step, k'))
        × Continues t slots (suc n) step
        × Benign k'
  unfolding main_loop
  main_loop-Serves n [] u k q v b = (continue u, k, refl, v, b)
  main_loop-Serves n ((selected, sigterm) ∷ inputs) u k q v b =
      let (step, k₁, e, c, b₁) = round-Serves n u selected sigterm q.0 v k b in
      let (step', k₂, e', c', b₂) =
        next step k₁ c (λ u' v'. main_loop-Serves n inputs u' k₁ q.1 v' b₁) in
      (step', k₂, rw (e, ◌>>=◌) e', c', b₂)
    where
      next :
          (step : Step t.T) (k₁ : Kernel)
          → Goes (suc n) step
          → ((u' : Udprelay t.T)
              → Valid (suc n) u'
              → (step' : Step t.T) × (k' : Kernel) × (main_loop t inputs u' k₁ ≡ some (step', k'))
                × Goes (suc n) step'
                × Benign k')
          → (step' : Step t.T) × (k' : Kernel) × (follow inputs step k₁ ≡ some (step', k'))
            × Goes (suc n) step'
            × Benign k'
      next (continue u') k₁ c ih = ih u' c
      next (terminate u') k₁ c ih = absurd c
