-- ===== src/Daemon/Packets.antt =====
-- The packets that the relays have received, on a kernel without failures.
use udprelayd.Base.{
  ℕ, suc, ◌<◌, ◌≡◌, refl, ap, true, false, Option, none, some, List, [], ◌∷◌, ◌==◌, ltb, length,
  has, Bool-cases, inl, inr,
}
use udprelayd.Base.Int.{ℤ, pos}
use udprelayd.Lookup.{Lookup, lookup_push}
use udprelayd.Lookup.Tree.{RbTree}
use udprelayd.Lookup.Window
use udprelayd.Lookup.Window.{window}
use udprelayd.Lookup.Push.{lookup_push-seen, lookup_push-fresh}
use udprelayd.Relay.{Relay, relay_receive}
use udprelayd.Relay.Invariant
use udprelayd.Relay.Invariant.{relay_receive-IsValid}
use udprelayd.Daemon.{pure, ◌>>=◌, Udprelay, ntohs, header_size, check_seq, dispatch_relayed, link}
use udprelayd.Daemon.Loop.{relayed_one, relayed}
use udprelayd.Daemon.Inbound.{keep_or_free-keeps}
use udprelayd.Daemon.Serving.{
  AllValid, IsValid, Serves, Passed, Serves-pure, Serves-bind, Serves-if, forward-Serves,
}

module _ (t : RbTree) (slots : ℕ) (some_slots : 0 < slots) where
  abbrev pub Valid : ℕ → Udprelay t.T → Type 0
  Valid = IsValid t slots

  abbrev pub Done : ℕ → ℤ × Udprelay t.T → Type 0
  Done = Passed t slots

  with_lookup :
      (n : ℕ) (u : Udprelay t.T) (lookup : Lookup t.T)
      → Valid n u
      → Window.IsValid t slots lookup
      → Valid n (record u { lookup = lookup })
  with_lookup n u lookup v h = record {
    outward_valid = v.outward_valid;
    relays_valid = v.relays_valid;
    number = v.number;
    counted = v.counted;
    lookup_valid = h;
    seq_fits = v.seq_fits;
  }

  check_seq-Serves :
      (n : ℕ) (u : Udprelay t.T) (buffer : List ℕ) (s : ℕ)
      → Valid n u
      → Serves (Done n) (check_seq u buffer (lookup_push t u.lookup s))
  unfolding check_seq
  check_seq-Serves n u buffer s v = elim (Bool-cases (has s (window u.lookup))) [
    | inl seen ↦
        rw (lookup_push-seen t slots u.lookup v.lookup_valid s seen)
          (forward-Serves t slots n u buffer false v)
    | inr fresh ↦
        let (lookup, e, v', w) =
          lookup_push-fresh t slots u.lookup v.lookup_valid s some_slots fresh in
        rw e (
          forward-Serves t slots n (record u { lookup = lookup }) buffer true
            (with_lookup n u lookup v v'))
  ]

  dispatch_relayed-Serves :
      (n : ℕ) (u : Udprelay t.T) (buffer : List ℕ)
      → Valid n u
      → Serves (Done n) (dispatch_relayed t u buffer)
  unfolding dispatch_relayed
  dispatch_relayed-Serves n u buffer v =
      Serves-if (ltb (length buffer) header_size) (Done n) _ _
        (Serves-pure (Done n) (pos 0, u) (refl, v)) (check_seq-Serves n u buffer (ntohs buffer) v)

  -- The relay stays, and is valid.
  abbrev pub Stays : ℕ → Option Relay × Udprelay t.T → Type 0
  Stays n (none, u) = ⊥
  Stays n (some r, u) = Invariant.IsValid r × Valid n u

  relayed_one-Serves :
      (n : ℕ) (u : Udprelay t.T) (r : Relay)
      → Valid n u
      → Invariant.IsValid r
      → Serves (Stays n) (relayed_one t u r)
  unfolding relayed_one
  relayed_one-Serves n u r v h =
      let ((sz, buffer), r') = relay_receive r in
      let h' = (relay_receive-IsValid r h).0 in
      Serves-if (sz == 0) (Stays n) _ _ (Serves-pure (Stays n) (some r', u) (h', v)) (
        Serves-bind (Done n) (Stays n) (dispatch_relayed t u buffer) _
          (dispatch_relayed-Serves n u buffer v)
          (λ res p k b. (
            (some r', record res.1 { relays_num = res.1.relays_num }),
            k,
            rw (keep_or_free-keeps (res.0, r') k p.0) refl,
            (h', p.1),
            b,
          )))

  -- As many relays as the loop has gone over, and the state.
  abbrev pub AllStay : ℕ → ℕ → List Relay × Udprelay t.T → Type 0
  AllStay m n (rs, u) = (AllValid rs × (length rs ≡ m)) × Valid n u

  pub relayed-Serves :
      (n : ℕ) (u : Udprelay t.T) (rs : List Relay)
      → Valid n u
      → AllValid rs
      → Serves (AllStay (length rs) n) (relayed t u rs)
  unfolding relayed
  relayed-Serves n u [] v h = Serves-pure (AllStay 0 n) ([], u) ((tt, refl), v)
  relayed-Serves n u (r ∷ rs) v h =
      Serves-bind (Stays n) (AllStay (suc (length rs)) n) (relayed_one t u r) _
        (relayed_one-Serves n u r v h.0)
        (λ one stay. next one stay (λ u' v'. relayed-Serves n u' rs v' h.1))
    where
      next :
          (one : Option Relay × Udprelay t.T)
          → Stays n one
          → ((u' : Udprelay t.T) → Valid n u' → Serves (AllStay (length rs) n) (relayed t u' rs))
          → Serves
              (AllStay (suc (length rs)) n)
              (relayed t one.1 rs >>= λ x. pure (link one.0 x.0, x.1))
      next (none, u') stay ih = absurd stay
      next (some r', u') stay ih =
          Serves-bind (AllStay (length rs) n) (AllStay (suc (length rs)) n) (relayed t u' rs) _
            (ih u' stay.1)
            (λ x p.
              Serves-pure (AllStay (suc (length rs)) n) (r' ∷ x.0, x.1)
                (((stay.0, p.0.0), ap suc p.0.1), p.1))
