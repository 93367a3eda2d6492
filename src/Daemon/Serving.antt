-- ===== src/Daemon/Serving.antt =====
-- The way of a datagram through the daemon on a kernel without failures: the daemon's invariant, and
-- that no step faults or loses a relay.
use udprelayd.Base.{
  ℕ, suc, ◌+◌, ◌^◌, ◌%◌, ◌<◌, ◌≡◌, refl, ◌∙◌, ap, Bool, true, false, some, List, [], ◌∷◌, ◌++◌,
  arith, ◌==◌, if◌then◌else◌, length, drop, length-append,
}
use udprelayd.Base.Int.{ℤ, pos}
use udprelayd.Os.{Kernel, Cmd}
use udprelayd.Lookup.Tree.{RbTree}
use udprelayd.Lookup.Window
use udprelayd.Lookup.Window.{window}
use udprelayd.Relay.{Relay, FdSet, is_neg, relay_enqueue, relay_receive, relay_handle}
use udprelayd.Relay.Invariant
use udprelayd.Relay.Invariant.{relay_receive-IsValid}
use udprelayd.Daemon.{
  Run, pure, call, ◌>>=◌, Udprelay, htons, header_size, forward, broadcast, round_robin, next_round,
  dispatch_inbound, handle_relays,
}
use udprelayd.Daemon.Loop.{inbound}
use udprelayd.Daemon.Inbound.{keep_or_free-keeps}
use udprelayd.Daemon.Benign.{Benign, Does, Fine, relay_enqueue-Does, relay_handle-Does}

abbrev pub AllValid : List Relay → Type 0
AllValid [] = Unit
AllValid (r ∷ rs) = Invariant.IsValid r × AllValid rs

-- All relays are kept, and are valid.
abbrev pub Kept : ℕ → ℕ → List Relay × ℕ → Type 0
Kept n num (rs, num') = AllValid rs × ((length rs ≡ n) × (num' ≡ num))

pub handle_relays-Does :
    (rs : List Relay) (num : ℕ) (rfds wfds : FdSet)
    → AllValid rs
    → Does (Kept (length rs) num) (handle_relays rs num rfds wfds)
unfolding handle_relays
handle_relays-Does [] num rfds wfds v k b = ((tt, (refl, refl)), b)
handle_relays-Does (r ∷ rs) num rfds wfds v k b =
    let (f, b₁) = relay_handle-Does r rfds wfds v.0 k b in
    let (res, k₁) = relay_handle r rfds wfds k in
    let (all, b₂) = handle_relays-Does rs num rfds wfds v.1 k₁ b₁ in
    rw (keep_or_free-keeps res k₁ f.0) (((f.1, all.0), (ap suc all.1.0, all.1.1)), b₂)

broadcast-Does :
    (rs : List Relay) (pkt : List ℕ) (num : ℕ)
    → AllValid rs
    → Does (Kept (length rs) num) (broadcast rs pkt num)
unfolding broadcast
broadcast-Does [] pkt num v k b = ((tt, (refl, refl)), b)
broadcast-Does (r ∷ rs) pkt num v k b =
    let (f, b₁) = relay_enqueue-Does r pkt v.0 k b in
    let (res, k₁) = relay_enqueue r pkt k in
    let (all, b₂) = broadcast-Does rs pkt num v.1 k₁ b₁ in
    rw (keep_or_free-keeps res k₁ f.0) (((f.1, all.0), (ap suc all.1.0, all.1.1)), b₂)

AllValid-snoc :
    (rs : List Relay) (r : Relay) → AllValid rs → Invariant.IsValid r → AllValid (rs ++ r ∷ [])
AllValid-snoc [] r v h = (h, tt)
AllValid-snoc (x ∷ rs) r v h = (v.0, AllValid-snoc rs r v.1 h)

-- On a kernel without failures, the command does not fault, and its result has the property.
abbrev pub Serves : {A : Type 0} → (A → Type 0) → Run A → Type 0
Serves {A} P m =
    (k : Kernel) → Benign k → (a : A) × (k' : Kernel) × (m k ≡ some (a, k')) × P a × Benign k'

pub Serves-pure : {A : Type 0} (P : A → Type 0) (a : A) → P a → Serves P (pure a)
Serves-pure P a p k b = (a, k, refl, p, b)

pub Serves-bind :
    {A B : Type 0} (P : A → Type 0) (Q : B → Type 0) (m : Run A) (f : A → Run B)
    → Serves P m
    → ((a : A) → P a → Serves Q (f a))
    → Serves Q (m >>= f)
Serves-bind P Q m f h g k b =
    let (a, k₁, e, p, b₁) = h k b in
    let (c, k₂, e', q, b₂) = g a p k₁ b₁ in (c, k₂, rw (e, ◌>>=◌) e', q, b₂)

pub Serves-call : {A : Type 0} (P : A → Type 0) (m : Cmd A) → Does P m → Serves P (call m)
Serves-call P m h k b = let (p, b') = h k b in ((m k).0, (m k).1, refl, p, b')

pub Serves-if :
    {A : Type 0} (c : Bool) (P : A → Type 0) (m n : Run A)
    → Serves P m
    → Serves P n
    → Serves P (if c then m else n)
Serves-if true P m n h g = h
Serves-if false P m n h g = g

module _ (t : RbTree) (slots : ℕ) where
  -- The daemon with `n` relays.
  pub record IsValid (n : ℕ) (u : Udprelay t.T) : Type 0 where
    pub outward_valid : Invariant.IsValid u.outward
    pub relays_valid : AllValid u.relays
    pub number : length u.relays ≡ n
    pub counted : u.relays_num ≡ n
    pub lookup_valid : Window.IsValid t slots u.lookup
    pub seq_fits : u.seq < 2 ^ 16

  -- A result of a dispatch that is no failure.
  abbrev pub Passed : ℕ → ℤ × Udprelay t.T → Type 0
  Passed n (ret, u) = (is_neg ret ≡ false) × IsValid n u

  next_round-Serves :
      (n : ℕ) (u : Udprelay t.T) (rs : List Relay) (num : ℕ)
      → IsValid (suc n) u
      → AllValid rs
      → length rs ≡ suc n
      → num ≡ suc n
      → Serves (Passed (suc n)) (next_round u (round_robin rs) num)
  unfolding next_round round_robin
  next_round-Serves n u [] num v all count number k b = absurd (omega arith)
  next_round-Serves n u (r ∷ rs) num v all count number k b = (
    (pos 0, record u { relays = rs ++ r ∷ []; relays_num = num; seq = (u.seq + 1) % 2 ^ 16 }),
    k,
    refl,
    (
      refl,
      record {
        outward_valid = v.outward_valid;
        relays_valid = AllValid-snoc rs r all.1 all.0;
        number = omega (arith, length-append rs (r ∷ []), count);
        counted = number;
        lookup_valid = v.lookup_valid;
        seq_fits = omega arith;
      },
    ),
    b,
  )

  dispatch_inbound-Serves :
      (n : ℕ) (u : Udprelay t.T) (buffer : List ℕ)
      → IsValid (suc n) u
      → Serves (Passed (suc n)) (dispatch_inbound u buffer)
  unfolding dispatch_inbound
  dispatch_inbound-Serves n u buffer v k b =
      let pkt = htons u.seq ++ buffer in
      let (kept, b') = broadcast-Does u.relays pkt u.relays_num v.relays_valid k b in
      let ((rs, num), k') = broadcast u.relays pkt u.relays_num k in
      next_round-Serves n u rs num v kept.0 (kept.1.0 ∙ v.number) (kept.1.1 ∙ v.counted) k' b'

  pub with_outward :
      (n : ℕ) (u : Udprelay t.T) (outward : Relay)
      → IsValid n u
      → Invariant.IsValid outward
      → IsValid n (record u { outward = outward })
  with_outward n u outward v h = record {
    outward_valid = h;
    relays_valid = v.relays_valid;
    number = v.number;
    counted = v.counted;
    lookup_valid = v.lookup_valid;
    seq_fits = v.seq_fits;
  }

  pub inbound-Serves :
      (n : ℕ) (u : Udprelay t.T) → IsValid (suc n) u → Serves (Passed (suc n)) (inbound u)
  unfolding inbound
  inbound-Serves n u v =
      let ((sz, buffer), outward) = relay_receive u.outward in
      let v' =
        with_outward (suc n) u outward v (relay_receive-IsValid u.outward v.outward_valid).0 in
      Serves-if (sz == 0) (Passed (suc n)) _ _
        (Serves-pure (Passed (suc n)) (pos 0, record u { outward = outward }) (refl, v'))
        (dispatch_inbound-Serves n (record u { outward = outward }) buffer v')

  pub forward-Serves :
      (n : ℕ) (u : Udprelay t.T) (buffer : List ℕ) (added : Bool)
      → IsValid n u
      → Serves (Passed n) (forward u buffer added)
  unfolding forward
  forward-Serves n u buffer false v = Serves-pure (Passed n) (pos 0, u) (refl, v)
  forward-Serves n u buffer true v =
      Serves-bind Fine (Passed n) (call (relay_enqueue u.outward (drop header_size buffer))) _
        (Serves-call Fine (relay_enqueue u.outward (drop header_size buffer))
          (relay_enqueue-Does u.outward (drop header_size buffer) v.outward_valid))
        (λ res f.
          Serves-pure (Passed n) (res.0, record u { outward = res.1 })
            (f.0, with_outward n u res.1 v f.1))
