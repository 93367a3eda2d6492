-- ===== src/Descriptors/Rounds.antt =====
-- udprelayd.c: the descriptors of the daemon over the rounds of its main loop.
use udprelayd.Base.{
  ℕ, ◌+◌, ◌≡◌, refl, ap, Bool, not, Option, none, some, inl, inr, List, [], ◌∷◌, ◌++◌, ◌==◌, arith,
  Bool-cases, length, ltb, drop,
}
use udprelayd.Base.Int.{ℤ, pos}
use udprelayd.Lookup.{Lookup, lookup_push}
use udprelayd.Lookup.Tree.{RbTree}
use udprelayd.Os.{Kernel}
use udprelayd.Relay.{Relay, FdSet, is_neg, relay_enqueue, relay_receive, relay_handle}
use udprelayd.Daemon.{
  call, Udprelay, header_size, htons, ntohs, forward, check_seq, dispatch_relayed, keep_or_free,
  link, recount, broadcast, round_robin, next_round, dispatch_inbound, handle_relays,
}
use udprelayd.Daemon.Loop.{inbound, relayed_one, relayed}
use udprelayd.Setup.Counts.{occurrences, occurrences-append}
use udprelayd.Setup.Init.{fds}
use udprelayd.Descriptors.Holds.{
  Same, Holds, After, RunHolds, RunHolds-pure, RunHolds-call, RunHolds-bind, RunHolds-if,
  RunHolds-frame, RunHolds-beside, RunHolds-reorder, RunHolds-from,
}
use udprelayd.Descriptors.Relays.{
  result_fds, relay_enqueue-Holds, relay_receive-fd, relay_handle-Holds, free_relay-Holds,
}

abbrev pub kept_fds : Option Relay → List ℕ
kept_fds none = []
kept_fds (some r) = r.fd ∷ []

keep_or_free-Holds : (res : ℤ × Relay) → Holds (result_fds res) (keep_or_free res) kept_fds
unfolding Holds keep_or_free
keep_or_free-Holds res k fd = elim (Bool-cases (is_neg res.0)) [
  | inl bad ↦ rw bad (free_relay-Holds res.1 [] k fd)
  | inr fine ↦ rw fine refl
]

link-fds :
    (fd : ℕ) (kept : Option Relay) (rest : List Relay)
    → occurrences fd (fds (link kept rest))
      ≡ occurrences fd (kept_fds kept) + occurrences fd (fds rest)
unfolding occurrences
link-fds fd none rest = omega arith
link-fds fd (some r) rest = omega arith

abbrev pub all_fds : List Relay × ℕ → List ℕ
all_fds x = fds x.0

-- One relay of a loop over the relays, and then the others.
loop-Holds :
    (r : Relay) (rs : List Relay) (res : ℤ × Relay) (kept : Option Relay) (rest : List Relay)
    (k k₁ k₂ k₃ : Kernel)
    → Same k (r.fd ∷ []) k₁ (result_fds res)
    → Same k₁ (result_fds res) k₂ (kept_fds kept)
    → Same k₂ (fds rs) k₃ (fds rest)
    → Same k (fds (r ∷ rs)) k₃ (fds (link kept rest))
unfolding occurrences
loop-Holds r rs res kept rest k k₁ k₂ k₃ a b c fd =
    omega (arith, a fd, b fd, c fd, link-fds fd kept rest)

broadcast-Holds :
    (rs : List Relay) (pkt : List ℕ) (num : ℕ) → Holds (fds rs) (broadcast rs pkt num) all_fds
unfolding Holds broadcast
broadcast-Holds [] pkt num k = λ fd. refl
broadcast-Holds (r ∷ rs) pkt num k =
    let (res, k₁) = relay_enqueue r pkt k in
    let (kept, k₂) = keep_or_free res k₁ in
    let ((rest, num'), k₃) = broadcast rs pkt (recount kept num) k₂ in
    loop-Holds r rs res kept rest k k₁ k₂ k₃ (relay_enqueue-Holds r pkt k)
      (keep_or_free-Holds res k₁) (broadcast-Holds rs pkt (recount kept num) k₂)

pub handle_relays-Holds :
    (rs : List Relay) (num : ℕ) (rfds wfds : FdSet)
    → Holds (fds rs) (handle_relays rs num rfds wfds) all_fds
unfolding Holds handle_relays
handle_relays-Holds [] num rfds wfds k = λ fd. refl
handle_relays-Holds (r ∷ rs) num rfds wfds k =
    let (res, k₁) = relay_handle r rfds wfds k in
    let (kept, k₂) = keep_or_free res k₁ in
    let ((rest, num'), k₃) = handle_relays rs (recount kept num) rfds wfds k₂ in
    loop-Holds r rs res kept rest k k₁ k₂ k₃ (relay_handle-Holds r rfds wfds k)
      (keep_or_free-Holds res k₁) (handle_relays-Holds rs (recount kept num) rfds wfds k₂)

abbrev pub state_fds : {T : Type 0} → Udprelay T → List ℕ
state_fds u = u.outward.fd ∷ fds u.relays

abbrev pub passed_fds : {T : Type 0} → ℤ × Udprelay T → List ℕ
passed_fds x = state_fds x.1

fds-snoc :
    (fd : ℕ) (rs : List Relay) (r : Relay)
    → occurrences fd (fds (rs ++ r ∷ [])) ≡ occurrences fd (fds (r ∷ rs))
unfolding occurrences
fds-snoc fd [] r = refl
fds-snoc fd (x ∷ rs) r = omega (arith, fds-snoc fd rs r)

next_round-After :
    {T : Type 0} (u : Udprelay T) (rs : List Relay) (num : ℕ) (k k' : Kernel)
    → Same k (fds u.relays) k' (fds rs)
    → After k (state_fds u) passed_fds (next_round u (round_robin rs) num k')
unfolding next_round round_robin occurrences
next_round-After u [] num k k' s = tt
next_round-After u (r ∷ rs) num k k' s = λ fd. omega (arith, s fd, fds-snoc fd rs r)

dispatch_inbound-Holds :
    {T : Type 0} (u : Udprelay T) (buffer : List ℕ)
    → RunHolds (state_fds u) (dispatch_inbound u buffer) passed_fds
unfolding RunHolds Holds dispatch_inbound
dispatch_inbound-Holds u buffer k =
    let pkt = htons u.seq ++ buffer in
    let ((rs, num), k') = broadcast u.relays pkt u.relays_num k in
    next_round-After u rs num k k' (broadcast-Holds u.relays pkt u.relays_num k)

pub inbound-Holds : {T : Type 0} (u : Udprelay T) → RunHolds (state_fds u) (inbound u) passed_fds
unfolding inbound
inbound-Holds u =
    let ((sz, buffer), outward) = relay_receive u.outward in
    let u' = record u { outward = outward } in
    RunHolds-from _ _ (ap (λ fd. fd ∷ fds u.relays) (relay_receive-fd u.outward)) (
      RunHolds-if (sz == 0) (state_fds u') _ _ passed_fds (RunHolds-pure (pos 0, u') passed_fds)
        (dispatch_inbound-Holds u' buffer))

module _ (t : RbTree) where
  -- The outward descriptor, besides the relays that a loop is at.
  abbrev own : ℤ × Udprelay t.T → List ℕ
  own x = x.1.outward.fd ∷ []

  forward-Holds :
      (u : Udprelay t.T) (buffer : List ℕ) (added : Bool)
      → RunHolds (u.outward.fd ∷ []) (forward u buffer added) own
  unfolding forward
  forward-Holds u buffer added =
      RunHolds-if (not added) (u.outward.fd ∷ []) _ _ own (RunHolds-pure (pos 0, u) own) (
        RunHolds-bind (u.outward.fd ∷ []) (call (relay_enqueue u.outward (drop header_size buffer)))
          result_fds _ own
          (RunHolds-call (u.outward.fd ∷ []) _ result_fds
            (relay_enqueue-Holds u.outward (drop header_size buffer)))
          (λ res. RunHolds-pure (res.0, record u { outward = res.1 }) own))

  check_seq-Holds :
      (u : Udprelay t.T) (buffer : List ℕ) (pushed : Option (Lookup t.T × Bool))
      → RunHolds (u.outward.fd ∷ []) (check_seq u buffer pushed) own
  unfolding check_seq RunHolds
  check_seq-Holds u buffer none = λ k. tt
  check_seq-Holds u buffer (some (lookup, added)) =
      forward-Holds (record u { lookup = lookup }) buffer added

  dispatch_relayed-Holds :
      (u : Udprelay t.T) (buffer : List ℕ)
      → RunHolds (u.outward.fd ∷ []) (dispatch_relayed t u buffer) own
  unfolding dispatch_relayed
  dispatch_relayed-Holds u buffer =
      RunHolds-if (ltb (length buffer) header_size) (u.outward.fd ∷ []) _ _ own
        (RunHolds-pure (pos 0, u) own)
        (check_seq-Holds u buffer (lookup_push t u.lookup (ntohs buffer)))

  abbrev one_fds : Option Relay × Udprelay t.T → List ℕ
  one_fds x = x.1.outward.fd ∷ kept_fds x.0

  pub relayed_one-Holds :
      (u : Udprelay t.T) (r : Relay)
      → RunHolds (u.outward.fd ∷ r.fd ∷ []) (relayed_one t u r) one_fds
  unfolding relayed_one
  relayed_one-Holds u r =
      let ((sz, buffer), r') = relay_receive r in
      RunHolds-from _ _ (ap (λ fd. u.outward.fd ∷ fd ∷ []) (relay_receive-fd r)) (
        RunHolds-if (sz == 0) (u.outward.fd ∷ r'.fd ∷ []) _ _ one_fds
          (RunHolds-pure (some r', u) one_fds)
          (RunHolds-bind (u.outward.fd ∷ r'.fd ∷ []) (dispatch_relayed t u buffer)
            (λ x. x.1.outward.fd ∷ r'.fd ∷ []) _ one_fds
            (RunHolds-beside (r'.fd ∷ []) (u.outward.fd ∷ []) _ own
              (dispatch_relayed-Holds u buffer))
            (λ x.
              RunHolds-bind (x.1.outward.fd ∷ r'.fd ∷ []) (call (keep_or_free (x.0, r')))
                (λ kept. x.1.outward.fd ∷ kept_fds kept) _ one_fds
                (RunHolds-frame (x.1.outward.fd ∷ []) (r'.fd ∷ []) _ kept_fds
                  (RunHolds-call (r'.fd ∷ []) _ kept_fds (keep_or_free-Holds (x.0, r'))))
                (λ kept.
                  RunHolds-pure (kept, record x.1 { relays_num = recount kept x.1.relays_num })
                    one_fds))))

  abbrev pub many_fds : List Relay × Udprelay t.T → List ℕ
  many_fds x = x.1.outward.fd ∷ fds x.0

  linked :
      (fd : ℕ) (kept : Option Relay) (x : List Relay × Udprelay t.T)
      → occurrences fd (kept_fds kept ++ many_fds x)
        ≡ occurrences fd (many_fds (link kept x.0, x.1))
  unfolding occurrences
  linked fd kept x =
      omega (arith, link-fds fd kept x.0, occurrences-append fd (kept_fds kept) (many_fds x))

  past :
      (fd : ℕ) (a : ℕ) (xs ys : List ℕ)
      → occurrences fd (a ∷ (xs ++ ys)) ≡ occurrences fd (xs ++ a ∷ ys)
  unfolding occurrences
  past fd a xs ys = omega (arith, occurrences-append fd xs ys, occurrences-append fd xs (a ∷ ys))

  pub relayed-Holds :
      (u : Udprelay t.T) (rs : List Relay)
      → RunHolds (u.outward.fd ∷ fds rs) (relayed t u rs) many_fds
  unfolding relayed
  relayed-Holds u [] = RunHolds-pure ([], u) many_fds
  relayed-Holds u (r ∷ rs) =
      RunHolds-bind (u.outward.fd ∷ fds (r ∷ rs)) (relayed_one t u r) (λ y. one_fds y ++ fds rs) _
        many_fds
        (RunHolds-beside (fds rs) (u.outward.fd ∷ r.fd ∷ []) _ one_fds (relayed_one-Holds u r))
        (λ y.
          RunHolds-reorder (kept_fds y.0 ++ (y.1.outward.fd ∷ fds rs)) (one_fds y ++ fds rs) _
            many_fds (λ fd. past fd y.1.outward.fd (kept_fds y.0) (fds rs))
            (RunHolds-bind (kept_fds y.0 ++ (y.1.outward.fd ∷ fds rs)) (relayed t y.1 rs)
              (λ x. kept_fds y.0 ++ many_fds x) _ many_fds
              (RunHolds-frame (kept_fds y.0) (y.1.outward.fd ∷ fds rs) _ many_fds
                (relayed-Holds y.1 rs))
              (λ x.
                RunHolds-reorder (many_fds (link y.0 x.0, x.1)) (kept_fds y.0 ++ many_fds x) _
                  many_fds (λ fd. linked fd y.0 x) (RunHolds-pure (link y.0 x.0, x.1) many_fds))))
