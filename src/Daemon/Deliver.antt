-- ===== src/Daemon/Deliver.antt =====
-- udprelayd.c: runs of udprelay_dispatch_relayed deliver each datagram once, and the empty
-- datagram is not delivered.
use udprelayd.Base.{
  ℕ, ◌<◌, ◌≡◌, refl, ◌∙◌, if◌then◌else◌, ◌+◌, ap, ap₂, sym, false, Option, none, some, List, ◌-◌,
  [], ◌∷◌, ◌++◌, append_assoc, append-nil, ◌==◌, has, last_n, last_n-last_n-append, last_n-short,
  arith, Bool-cases, inl, inr,
}
use udprelayd.Base.Int.{ℤ, pos, negsuc}
use udprelayd.Os.{Kernel, size, sendto}
use udprelayd.Lookup.{Lookup}
use udprelayd.Lookup.Tree.{RbTree}
use udprelayd.Lookup.Window.{window}
use udprelayd.Lookup.Window
use udprelayd.Lookup.Runs.{dedup}
use udprelayd.Relay.{Relay, relay_receive, free_relay, relay_enqueue, enqueue_result}
use udprelayd.Relay.Answers.{relay_enqueue-SamePeer}
use udprelayd.Daemon.{Udprelay, htons, dispatch_relayed, keep_or_free, ◌>>=◌}
use udprelayd.Daemon.Loop.{relayed_one}
use udprelayd.Setup.Counts.{occurrences}
use udprelayd.Descriptors.{closes}
use udprelayd.Descriptors.Holds.{Same, RunHolds}
use udprelayd.Descriptors.Rounds.{relayed_one-Holds}
use udprelayd.Daemon.Sends.{offers, offer_of, relay_enqueue-offers}
use udprelayd.Daemon.Relayed.{
  passed_on, dispatch_relayed-seen, dispatch_relayed-fresh, Packet, dispatch_all, accepted, seqs,
  offers_of, offers_of-same,
}

dispatch_all-step :
    (t : RbTree) (u u' : Udprelay t.T) (seq : ℕ) (payload : List ℕ) (packets : List Packet)
    (k k' : Kernel) (ret : ℤ)
    → dispatch_relayed t u (htons seq ++ payload) k ≡ some ((ret, u'), k')
    → dispatch_all t u ((seq, payload) ∷ packets) k ≡ dispatch_all t u' packets k'
unfolding dispatch_all
dispatch_all-step t u u' seq payload packets k k' ret e = rw (e, ◌>>=◌)

passed_on-lem :
    {T : Type 0} (u : Udprelay T) (lookup : Lookup T) (payload : List ℕ) (k : Kernel)
    → let (res, k') = relay_enqueue u.outward payload k in
      ◌≡◌ {A = Option ((ℤ × Udprelay T) × Kernel)}
        (some (passed_on u lookup payload k))
        (some ((res.0, record u { lookup = lookup; outward = res.1 }), k'))
unfolding passed_on
passed_on-lem u lookup payload k = refl

relay_enqueue-nothing :
    (r : Relay) (buffer : List ℕ) (k : Kernel)
    → (r.remote_sa_len == 0) ≡ false
    → k.send_answer k.sends ≡ size 0
    → (relay_enqueue r buffer k).0.0 ≡ negsuc 0
unfolding relay_enqueue sendto enqueue_result
relay_enqueue-nothing r buffer k addressed answer = rw addressed (rw answer refl)

module _ (t : RbTree) (slots : ℕ) (some_slots : 0 < slots) where
  dispatch_all-offers_from :
      (packets : List Packet) (taken : List ℕ) (u : Udprelay t.T) (k : Kernel)
      → Window.IsValid t slots u.lookup
      → window u.lookup ≡ last_n slots taken
      → (u' : Udprelay t.T) × (k' : Kernel) × (dispatch_all t u packets k ≡ some (u', k'))
        × (offers k'.log
            ≡ offers k.log
              ++ offers_of u.outward (accepted packets (dedup slots taken (seqs packets)).0))
  unfolding dispatch_all accepted dedup
  dispatch_all-offers_from [] taken u k v w = (u, k, refl, sym (append-nil (offers k.log)))
  dispatch_all-offers_from ((seq, payload) ∷ packets) taken u k v w =
      elim (Bool-cases (has seq (last_n slots taken))) [
        | inl seen ↦
            let (u', k', run, sent) = dispatch_all-offers_from packets taken u k v w in
            (
              u',
              k',
              dispatch_all-step t u u seq payload packets k k (pos 0)
                    (dispatch_relayed-seen t slots u v seq payload k (rw w seen))
                  ∙ run,
              rw seen sent,
            )
        | inr fresh ↦
            let (lookup, passed, v', w') =
              dispatch_relayed-fresh t slots u v seq payload k some_slots (rw w fresh) in
            let (res, k₁) = relay_enqueue u.outward payload k in
            let u₁ : Udprelay t.T = record u { lookup = lookup; outward = res.1 } in
            let (u', k', run, sent) =
              dispatch_all-offers_from packets (taken ++ seq ∷ []) u₁ k₁ v'
                (w' ∙ rw w (last_n-last_n-append slots taken (seq ∷ []))) in
            (
              u',
              k',
              dispatch_all-step t u u₁ seq payload packets k k₁ res.0
                    (passed ∙ passed_on-lem u lookup payload k)
                  ∙ run,
              rw fresh (
                  sent
                  ∙ ap₂ (λ a b. a ++ b) (relay_enqueue-offers u.outward payload k)
                      (offers_of-same u.outward res.1 _
                        (relay_enqueue-SamePeer u.outward payload k))
                  ∙ append_assoc (offers k.log) (offer_of u.outward payload) _),
            )
      ]

  -- From a valid empty lookup with at least one item, a run of relayed packets never faults and
  -- offers to the outward relay's peer exactly the payloads whose numbers the specification takes,
  -- in their order, whatever the kernel answers.
  pub dispatch_all-offers :
      (packets : List Packet) (u : Udprelay t.T) (k : Kernel)
      → Window.IsValid t slots u.lookup
      → window u.lookup ≡ []
      → (u' : Udprelay t.T) × (k' : Kernel) × (dispatch_all t u packets k ≡ some (u', k'))
        × (offers k'.log
            ≡ offers k.log
              ++ offers_of u.outward (accepted packets (dedup slots [] (seqs packets)).0))
  dispatch_all-offers packets u k v w =
      dispatch_all-offers_from packets [] u k v
        (w ∙ rw (last_n-short {A = ℕ} slots [] (omega arith)))

  dispatch_relayed-empty :
      (u : Udprelay t.T) (seq : ℕ) (k : Kernel)
      → Window.IsValid t slots u.lookup
      → has seq (window u.lookup) ≡ false
      → (u.outward.remote_sa_len == 0) ≡ false
      → k.send_answer k.sends ≡ size 0
      → (u' : Udprelay t.T) × (k' : Kernel) × (dispatch_relayed t u (htons seq ++ []) k
          ≡ some ((negsuc 0, u'), k'))
        × (u'.relays_num ≡ u.relays_num)
        × (u'.outward.fd ≡ u.outward.fd)
  dispatch_relayed-empty u seq k v fresh addressed answer =
      let (lookup, passed, _, _) = dispatch_relayed-fresh t slots u v seq [] k some_slots fresh in
      let (res, k') = relay_enqueue u.outward [] k in
      (
        record u { lookup = lookup; outward = res.1 },
        k',
        passed
            ∙ passed_on-lem u lookup [] k
            ∙ ap (λ ret. some ((ret, record u { lookup = lookup; outward = res.1 }), k'))
                (relay_enqueue-nothing u.outward [] k addressed answer),
        refl,
        (relay_enqueue-SamePeer u.outward [] k).same_fd,
      )

  relayed_one-failed :
      (u u₁ : Udprelay t.T) (r : Relay) (packet : List ℕ) (k k₁ : Kernel)
      → dispatch_relayed t u packet k ≡ some ((negsuc 0, u₁), k₁)
      → (relay_receive r).0 ≡ (2, packet)
      → relayed_one t u r k
        ≡ some (
          (none, record u₁ { relays_num = u₁.relays_num - 1 }),
          (free_relay (relay_receive r).1 k₁).1,
        )
  unfolding relayed_one keep_or_free
  relayed_one-failed u u₁ r packet k k₁ failed received = rw received (rw (failed, ◌>>=◌))

  -- A relay that has received only the two bytes of a number not yet seen is removed, `relays_num`
  -- falls, and the relay's descriptor, and no other, is closed, when the outward relay has a peer and
  -- `sendto` returns 0 for the empty datagram it is given: the 0 counts as the relay's failure.
  pub relayed_one-empty :
      (u : Udprelay t.T) (r : Relay) (seq : ℕ) (k : Kernel)
      → Window.IsValid t slots u.lookup
      → has seq (window u.lookup) ≡ false
      → (u.outward.remote_sa_len == 0) ≡ false
      → k.send_answer k.sends ≡ size 0
      → (relay_receive r).0 ≡ (2, htons seq ++ [])
      → (u' : Udprelay t.T) × (k' : Kernel) × (relayed_one t u r k ≡ some ((none, u'), k'))
        × (u'.relays_num ≡ u.relays_num - 1)
        × ((fd : ℕ) → closes fd k'.log ≡ closes fd k.log + (if fd == r.fd then 1 else 0))
  unfolding RunHolds occurrences
  relayed_one-empty u r seq k v fresh addressed answer received =
      let (u₁, k₁, failed, same, same_fd) =
        dispatch_relayed-empty u seq k v fresh addressed answer in
      let u' : Udprelay t.T = record u₁ { relays_num = u₁.relays_num - 1 } in
      let k' = (free_relay (relay_receive r).1 k₁).1 in
      let run = relayed_one-failed u u₁ r (htons seq ++ []) k k₁ failed received in
      (
        u',
        k',
        run,
        ap (λ n. n - 1) same,
        λ fd. closed_once u' k' fd (rw run at (relayed_one-Holds t u r k)) same_fd,
      )
    where
      closed_once :
          (u' : Udprelay t.T) (k' : Kernel) (fd : ℕ)
          → Same k (u.outward.fd ∷ r.fd ∷ []) k' (u'.outward.fd ∷ [])
          → u'.outward.fd ≡ u.outward.fd
          → closes fd k'.log ≡ closes fd k.log + (if fd == r.fd then 1 else 0)
      closed_once u' k' fd held e =
          let tests : (fd == u'.outward.fd) ≡ (fd == u.outward.fd) = ap (λ x. fd == x) e in
          let balance = rw tests at (held fd) in omega (arith, balance)
