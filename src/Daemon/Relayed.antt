-- ===== src/Daemon/Relayed.antt =====
-- udprelayd.c, udprelay_dispatch_relayed: a packet from a relay, and runs of such packets.
use udprelayd.Base.{
  ℕ, ◌<◌, ◌≡◌, refl, Bool, true, false, some, List, [], ◌∷◌, ◌++◌, arith, ltb, if◌then◌else◌,
  length, has, last_n,
}
use udprelayd.Base.Int.{ℤ, pos}
use udprelayd.Os.{Kernel}
use udprelayd.Lookup.{Lookup}
use udprelayd.Lookup.Tree.{RbTree}
use udprelayd.Lookup.Window.{window}
use udprelayd.Lookup.Window
use udprelayd.Lookup.Push.{lookup_push-seen, lookup_push-fresh}
use udprelayd.Relay.{Relay, relay_enqueue}
use udprelayd.Relay.Answers.{SamePeer}
use udprelayd.Daemon.{
  Udprelay, Run, htons, header_size, forward, check_seq, dispatch_relayed, pure, ◌>>=◌,
}
use udprelayd.Daemon.Header.{ntohs-htons, drop-htons, htons-long}
use udprelayd.Daemon.Sends.{Offer, offer_of}

-- The state and the result after a packet that is forwarded.
unfoldable pub passed_on :
    {T : Type 0} → Udprelay T → Lookup T → List ℕ → Kernel → (ℤ × Udprelay T) × Kernel
passed_on u lookup payload k =
    let ((ret, outward), k') = relay_enqueue u.outward payload k in
    ((ret, record u { lookup = lookup; outward = outward }), k')

-- A packet that is too short for a header is dropped.
pub dispatch_relayed-short :
    (t : RbTree) (u : Udprelay t.T) (buffer : List ℕ) (k : Kernel)
    → length buffer < header_size
    → dispatch_relayed t u buffer k ≡ some ((pos 0, u), k)
unfolding dispatch_relayed
dispatch_relayed-short t u buffer k short = rw (below (length buffer) short)
  where
    below : (n : ℕ) → n < 2 → ltb n 2 ≡ true
    below n h = ground arith

module _ (t : RbTree) (slots : ℕ) (u : Udprelay t.T) (v : Window.IsValid t slots u.lookup) (seq : ℕ)
    (payload : List ℕ) (k : Kernel) where
  -- A relayed packet whose number is in the window of a valid lookup is dropped: nothing is sent,
  -- nothing changes, and the answer is 0.
  pub dispatch_relayed-seen :
      has seq (window u.lookup) ≡ true
      → dispatch_relayed t u (htons seq ++ payload) k ≡ some ((pos 0, u), k)
  unfolding dispatch_relayed check_seq forward
  dispatch_relayed-seen seen = rw (
    htons-long seq payload,
    ntohs-htons seq payload,
    lookup_push-seen t slots u.lookup v seq seen,
  )

  -- With at least one item in a valid lookup, a relayed packet whose number is not in the window goes
  -- to the outward relay without its header, and its number joins the window.
  pub dispatch_relayed-fresh :
      0 < slots
      → has seq (window u.lookup) ≡ false
      → (lookup : Lookup t.T) × (dispatch_relayed t u (htons seq ++ payload) k
          ≡ some (passed_on u lookup payload k))
        × Window.IsValid t slots lookup
        × (window lookup ≡ last_n slots (window u.lookup ++ seq ∷ []))
  unfolding dispatch_relayed check_seq forward passed_on
  dispatch_relayed-fresh some_slots fresh =
      let (lookup, pushed, v', w) = lookup_push-fresh t slots u.lookup v seq some_slots fresh in
      (
        lookup,
        rw (htons-long seq payload, ntohs-htons seq payload, pushed, drop-htons seq payload),
        v',
        w,
      )

-- A sequence number and a payload.
abbrev pub Packet : Type 0
Packet = ℕ × List ℕ

-- Packets in a row, whatever the answer to each.
unfoldable pub dispatch_all : (t : RbTree) → Udprelay t.T → List Packet → Run (Udprelay t.T)
dispatch_all t u [] = pure u
dispatch_all t u ((seq, payload) ∷ packets) = do
  (ret, u') ← dispatch_relayed t u (htons seq ++ payload)
  dispatch_all t u' packets

-- The payloads of the packets that the specification takes.
unfoldable pub accepted : List Packet → List Bool → List (List ℕ)
accepted [] answers = []
accepted (p ∷ packets) [] = []
accepted ((seq, payload) ∷ packets) (b ∷ answers) =
    if b then payload ∷ accepted packets answers else accepted packets answers

abbrev pub seqs : List Packet → List ℕ
seqs [] = []
seqs ((seq, payload) ∷ packets) = seq ∷ seqs packets

abbrev pub offers_of : Relay → List (List ℕ) → List Offer
offers_of r [] = []
offers_of r (payload ∷ payloads) = offer_of r payload ++ offers_of r payloads

-- Two relays that send to the same place.
pub offers_of-same :
    (r r' : Relay) (payloads : List (List ℕ))
    → SamePeer r r'
    → offers_of r' payloads ≡ offers_of r payloads
unfolding offer_of
offers_of-same r r' [] s = refl
offers_of-same r r' (p ∷ payloads) s =
    rw (s.same_fd, s.same_sa, s.same_len, offers_of-same r r' payloads s)
