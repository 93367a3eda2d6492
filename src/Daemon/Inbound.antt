-- ===== src/Daemon/Inbound.antt =====
-- udprelayd.c, udprelay_dispatch_inbound: a datagram from the outward interface.
use udprelayd.Base.{
  ℕ, suc, ◌+◌, ◌-◌, ◌%◌, ◌^◌, ◌<◌, ◌≡◌, refl, ◌∙◌, ap, ap₂, sym, Bool, true, false, ◌&&◌, Option,
  none, some, List, [], ◌∷◌, ◌++◌, append_assoc, append-nil, arith, ◌==◌, length,
}
use udprelayd.Base.Int.{ℤ, pos, negsuc}
use udprelayd.Os.{Kernel, close}
use udprelayd.Relay.{Relay, relay_enqueue, free_relay, is_neg}
use udprelayd.Relay.Answers.{
  hard, relay_enqueue-hard, relay_enqueue-answers, relay_enqueue-SamePeer,
}
use udprelayd.Daemon.{
  Udprelay, htons, keep_or_free, link, recount, broadcast, round_robin, next_round,
  dispatch_inbound,
}
use udprelayd.Daemon.Sends.{Offer, offers, offer_of, relay_enqueue-offers, keep_or_free-offers}

-- One datagram to each relay that has an address, in the order of the list.
unfoldable pub offers_to : List Relay → List ℕ → List Offer
offers_to [] pkt = []
offers_to (r ∷ rs) pkt = offer_of r pkt ++ offers_to rs pkt

-- The loop of udprelay_dispatch_inbound offers the packet once, in order, to every relay that has
-- an address, also behind relays that fail.
pub broadcast-offers :
    (rs : List Relay) (pkt : List ℕ) (num : ℕ) (k : Kernel)
    → offers (broadcast rs pkt num k).1.log ≡ offers k.log ++ offers_to rs pkt
unfolding broadcast offers_to
broadcast-offers [] pkt num k = sym (append-nil (offers k.log))
broadcast-offers (r ∷ rs) pkt num k =
    let (res, k₁) = relay_enqueue r pkt k in
    let (kept, k₂) = keep_or_free res k₁ in
    broadcast-offers rs pkt (recount kept num) k₂
    ∙ ap (λ l. l ++ offers_to rs pkt) (keep_or_free-offers res k₁ ∙ relay_enqueue-offers r pkt k)
    ∙ append_assoc (offers k.log) (offer_of r pkt) (offers_to rs pkt)

keep_or_free-answers :
    (res : ℤ × Relay) (k : Kernel) → (keep_or_free res k).1.send_answer ≡ k.send_answer
unfolding keep_or_free free_relay close
keep_or_free-answers (pos n, r) k = refl
keep_or_free-answers (negsuc n, r) k = refl

pub keep_or_free-keeps :
    (res : ℤ × Relay) (k : Kernel) → is_neg res.0 ≡ false → keep_or_free res k ≡ (some res.1, k)
unfolding keep_or_free
keep_or_free-keeps (pos n, r) k e = refl
keep_or_free-keeps (negsuc n, r) k e = cc

keep_or_free-frees :
    (res : ℤ × Relay) (k : Kernel) → is_neg res.0 ≡ true → (keep_or_free res k).0 ≡ none
unfolding keep_or_free
keep_or_free-frees (pos n, r) k e = cc
keep_or_free-frees (negsuc n, r) k e = refl

abbrev pub fds : List Relay → List ℕ
fds [] = []
fds (r ∷ rs) = r.fd ∷ fds rs

relay_enqueue-soft :
    (r : Relay) (buffer : List ℕ) (k : Kernel)
    → ((n : ℕ) → hard (k.send_answer n) ≡ false)
    → is_neg (relay_enqueue r buffer k).0.0 ≡ false
relay_enqueue-soft r buffer k soft = relay_enqueue-hard r buffer k ∙ rw (soft k.sends) (and_false _)
  where
    and_false : (b : Bool) → (b && false) ≡ false
    and_false b = ground arith

-- Where no answer is hard, every relay stays, in its place.
broadcast-soft :
    (rs : List Relay) (pkt : List ℕ) (num : ℕ) (k : Kernel)
    → ((n : ℕ) → hard (k.send_answer n) ≡ false)
    → let (rs', num') = (broadcast rs pkt num k).0 in (fds rs' ≡ fds rs) × (num' ≡ num)
unfolding broadcast
broadcast-soft [] pkt num k soft = (refl, refl)
broadcast-soft (r ∷ rs) pkt num k soft =
    let (res, k₁) = relay_enqueue r pkt k in
    let fine : is_neg res.0 ≡ false = relay_enqueue-soft r pkt k soft in
    let (same_fds, same_num) =
      broadcast-soft rs pkt num k₁ (rw (relay_enqueue-answers r pkt k) soft) in
    rw (keep_or_free-keeps res k₁ fine)
      (ap₂ (λ fd l. fd ∷ l) (relay_enqueue-SamePeer r pkt k).same_fd same_fds, same_num)

-- Every relay has an address to send to.
abbrev pub AllAddressed : List Relay → Type 0
AllAddressed [] = Unit
AllAddressed (r ∷ rs) = ((r.remote_sa_len == 0) ≡ false) × AllAddressed rs

-- Where every answer is hard and every relay has an address, no relay stays.
broadcast-hard :
    (rs : List Relay) (pkt : List ℕ) (num : ℕ) (k : Kernel)
    → ((n : ℕ) → hard (k.send_answer n) ≡ true)
    → AllAddressed rs
    → (broadcast rs pkt num k).0.0 ≡ []
unfolding broadcast
broadcast-hard [] pkt num k bad h = refl
broadcast-hard (r ∷ rs) pkt num k bad h =
    let (res, k₁) = relay_enqueue r pkt k in
    let (kept, k₂) = keep_or_free res k₁ in
    let failed : is_neg res.0 ≡ true = relay_enqueue-hard r pkt k ∙ rw (bad k.sends, h.0) refl in
    rw (keep_or_free-frees res k₁ failed) (
      broadcast-hard rs pkt (num - 1) k₂
        (rw (keep_or_free-answers res k₁ ∙ relay_enqueue-answers r pkt k) bad) h.1)

count-link :
    (kept : Option Relay) (rest : List Relay) (num' extra : ℕ)
    → num' ≡ length rest + (length (link kept []) + extra)
    → num' ≡ length (link kept rest) + extra
count-link none rest num' extra e = omega arith
count-link (some r) rest num' extra e = omega arith

recount-lem :
    (kept : Option Relay) (num n extra : ℕ)
    → num ≡ suc n + extra
    → recount kept num ≡ n + (length (link kept []) + extra)
recount-lem none num n extra e = omega arith
recount-lem (some r) num n extra e = omega arith

-- If `relays_num` counts the relays before the loop and `extra` others, so it does after it.
pub broadcast-count :
    (rs : List Relay) (pkt : List ℕ) (num extra : ℕ) (k : Kernel)
    → num ≡ length rs + extra
    → let (rs', num') = (broadcast rs pkt num k).0 in num' ≡ length rs' + extra
unfolding broadcast
broadcast-count [] pkt num extra k e = e
broadcast-count (r ∷ rs) pkt num extra k e =
    let (res, k₁) = relay_enqueue r pkt k in
    let (kept, k₂) = keep_or_free res k₁ in
    count-link kept _ _ extra (
      broadcast-count rs pkt (recount kept num) (length (link kept []) + extra) k₂
        (recount-lem kept num (length rs) extra e))

fds-rotate : (r : Relay) (rs : List Relay) → fds (rs ++ r ∷ []) ≡ fds rs ++ r.fd ∷ []
fds-rotate r [] = refl
fds-rotate r (s ∷ rs) = ap (◌∷◌ s.fd) (fds-rotate r rs)

abbrev pub rotate : List ℕ → List ℕ
rotate [] = []
rotate (x ∷ xs) = xs ++ x ∷ []

-- The state after a datagram of the outward interface has gone to every relay.
pub record Forwarded {T : Type 0} (u u' : Udprelay T) : Type 0 where
  pub next_seq : u'.seq ≡ (u.seq + 1) % 2 ^ 16
  pub rotated : fds u'.relays ≡ rotate (fds u.relays)
  pub same_num : u'.relays_num ≡ u.relays_num
  pub same_outward : u'.outward ≡ u.outward
  pub same_lookup : u'.lookup ≡ u.lookup

round_robin-fds :
    (rs : List Relay) (x : ℕ) (xs : List ℕ)
    → fds rs ≡ x ∷ xs
    → (rs' : List Relay) × (round_robin rs ≡ some rs') × (fds rs' ≡ xs ++ x ∷ [])
unfolding round_robin
round_robin-fds [] x xs e = cc
round_robin-fds (r ∷ rs) x xs e = (rs ++ r ∷ [], refl, fds-rotate r rs ∙ cc)

fds-cons : (rs : List Relay) → 0 < length rs → (x : ℕ) × (xs : List ℕ) × (fds rs ≡ x ∷ xs)
fds-cons [] h = absurd (omega arith)
fds-cons (r ∷ rs) h = (r.fd, fds rs, refl)

-- With at least one relay and a kernel that never gives a hard answer, udprelay_dispatch_inbound
-- offers the datagram behind its number once to every relay that has an address and answers 0; all
-- relays stay, the list is turned by one, and the number goes up by one in 16 bits.
pub dispatch_inbound-soft :
    {T : Type 0} (u : Udprelay T) (buffer : List ℕ) (k : Kernel)
    → ((n : ℕ) → hard (k.send_answer n) ≡ false)
    → 0 < length u.relays
    → (u' : Udprelay T) × (k' : Kernel) × (dispatch_inbound u buffer k ≡ some ((pos 0, u'), k'))
      × Forwarded u u'
      × (offers k'.log ≡ offers k.log ++ offers_to u.relays (htons u.seq ++ buffer))
unfolding dispatch_inbound next_round
dispatch_inbound-soft u buffer k soft some_relays =
    let pkt = htons u.seq ++ buffer in
    let (same_fds, same_num) = broadcast-soft u.relays pkt u.relays_num k soft in
    let ((rs, num), k') = broadcast u.relays pkt u.relays_num k in
    let (x, xs, e) = fds-cons u.relays some_relays in
    let (rs', turned, same) = round_robin-fds rs x xs (same_fds ∙ e) in
    (
      record u { relays = rs'; relays_num = num; seq = (u.seq + 1) % 2 ^ 16 },
      k',
      rw turned,
      record {
        next_seq = refl;
        rotated = same ∙ sym (ap rotate e);
        same_num = same_num;
        same_outward = refl;
        same_lookup = refl;
      },
      broadcast-offers u.relays pkt u.relays_num k,
    )

-- When every relay has an address and the kernel gives only hard answers, no relay stays and
-- udprelay_dispatch_inbound reads through `NULL` in its step to the next relay.
pub dispatch_inbound-hard :
    {T : Type 0} (u : Udprelay T) (buffer : List ℕ) (k : Kernel)
    → ((n : ℕ) → hard (k.send_answer n) ≡ true)
    → AllAddressed u.relays
    → dispatch_inbound u buffer k ≡ none
unfolding dispatch_inbound next_round round_robin
dispatch_inbound-hard u buffer k bad h =
    rw (broadcast-hard u.relays (htons u.seq ++ buffer) u.relays_num k bad h)
