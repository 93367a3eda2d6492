-- ===== src/Program/Signals.antt =====
-- main: `sigterm_evt` and its handler, and `select`, which waits, and which a signal interrupts while
-- it does.
use udprelayd.Base.{
  ℕ, zero, suc, ◌+◌, ◌<◌, ◌≡◌, refl, ◌∙◌, ap, Bool, true, false, Option, none, some, List, [], ◌∷◌,
  ◌++◌, ◌==◌, arith, if◌then◌else◌, Option-cases, inl, inr, append-nil, length,
}
use udprelayd.Base.Int.{pos}
use udprelayd.Config.{Config}
use udprelayd.Config.Total
use udprelayd.Lookup.Tree.{RbTree}
use udprelayd.Os.{Kernel, eintr}
use udprelayd.Daemon.{Udprelay}
use udprelayd.Daemon.Loop.{Selected, select_failed, Step, continue, terminate, main_loop}
use udprelayd.Daemon.Benign.{Benign}
use udprelayd.Daemon.Rounds.{Quiet, AllQuiet, Continues}
use udprelayd.Net.{Sys}
use udprelayd.Setup.{udprelay_init}
use udprelayd.Setup.Counts.{opened_count, closed_count}
use udprelayd.Setup.Results.{Sized}
use udprelayd.Descriptors.{closes}
use udprelayd.Program.Start.{exit_success, running, with_daemon, ending}
use udprelayd.Program.{program-Serves}
use udprelayd.Program.Stops.{program-stops}

-- A round of the loop up to the test of `sigterm_evt`: how many of the two signals come before
-- `select` waits, since the test of the round before, while it waits, and after it has returned; and
-- what it returns if none comes while it waits, or `none` if it then waits for ever.
pub record Round : Type 0 where
  pub early : ℕ
  pub waiting : ℕ
  pub late : ℕ
  pub answer : Option Selected

-- What it leaves in `sigterm_evt`.
unfoldable pub sigterm_handler : Bool → Bool
sigterm_handler sigterm_evt = true

-- The handler runs for each signal.
unfoldable pub deliver : ℕ → Bool → Bool
deliver zero sigterm_evt = sigterm_evt
deliver (suc n) sigterm_evt = deliver n (sigterm_handler sigterm_evt)

-- A signal that comes while `select` waits makes it return EINTR.
unfoldable pub select : Round → Option Selected
select r = if r.waiting == 0 then r.answer else some (select_failed eintr)

-- What the loop reads of `select` and of `sigterm_evt` in each round, up to a `select` that never
-- returns.
unfoldable pub tests_read : Bool → List Round → List (Selected × Bool)
tests_read sigterm_evt [] = []
tests_read sigterm_evt (r ∷ rounds) =
    let sigterm_evt = deliver (r.early + r.waiting + r.late) sigterm_evt in
    let rest = tests_read sigterm_evt rounds in
    elim (select r) [ none ↦ [] | some selected ↦ (selected, sigterm_evt) ∷ rest ]

abbrev pub signals : Round → ℕ
signals r = r.early + r.waiting + r.late

abbrev pub QuietAnswer : Option Selected → Type 0
QuietAnswer none = ⊥
QuietAnswer (some selected) = Quiet (selected, false)

-- No signal, and `select` returns, and fails with nothing but an error to try again.
abbrev pub AllCalm : List Round → Type 0
AllCalm [] = Unit
AllCalm (r ∷ rounds) = (signals r ≡ 0) × QuietAnswer r.answer × AllCalm rounds

abbrev pub returns : Option Selected → Bool
returns none = false
returns (some selected) = true

-- The flag stays up.
deliver-true : (n : ℕ) → deliver n true ≡ true
unfolding deliver sigterm_handler
deliver-true zero = refl
deliver-true (suc n) = deliver-true n

deliver-some : (n : ℕ) (sigterm_evt : Bool) → 0 < n → deliver n sigterm_evt ≡ true
unfolding deliver sigterm_handler
deliver-some zero sigterm_evt h = absurd (omega arith)
deliver-some (suc n) sigterm_evt h = deliver-true n

tests_read-step :
    (r : Round) (rest : List Round) (selected : Selected) (sigterm_evt : Bool)
    → select r ≡ some selected
    → tests_read sigterm_evt (r ∷ rest)
      ≡ (selected, deliver (signals r) sigterm_evt)
        ∷ tests_read (deliver (signals r) sigterm_evt) rest
unfolding tests_read
tests_read-step r rest selected sigterm_evt e = rw (e, tests_read) refl

-- Without a signal `select` is left to what it waits for.
select-calm : (r : Round) → signals r ≡ 0 → select r ≡ r.answer
unfolding select
select-calm r calm = ground arith

-- What the loop reads from a list of rounds, as the rounds of the quiet part and what is left.
abbrev Reads : List (Selected × Bool) → List Round → List Round → Type 0
Reads before rounds left =
    AllQuiet before × (tests_read false (rounds ++ left) ≡ before ++ tests_read false left)

Reads-step :
    (r : Round) (rounds left : List Round) (before : List (Selected × Bool))
    → signals r ≡ 0
    → QuietAnswer r.answer
    → Reads before rounds left
    → (before' : List (Selected × Bool)) × Reads before' (r ∷ rounds) left
unfolding deliver
Reads-step r rounds left before calm quiet (all, e) = answered r.answer refl quiet
  where
    answered :
        (answer : Option Selected)
        → r.answer ≡ answer
        → QuietAnswer answer
        → (before' : List (Selected × Bool)) × Reads before' (r ∷ rounds) left
    answered none same h = absurd h
    answered (some selected) same h = (
      (selected, false) ∷ before,
      (
        (h, all),
        tests_read-step r (rounds ++ left) selected false (select-calm r calm ∙ same)
            ∙ rw calm (ap (λ l. (selected, false) ∷ l) e),
      ),
    )

tests_read-calm :
    (rounds left : List Round)
    → AllCalm rounds
    → (before : List (Selected × Bool)) × Reads before rounds left
tests_read-calm [] left h = ([], (tt, refl))
tests_read-calm (r ∷ rounds) left (calm, quiet, h) =
    let (before, reads) = tests_read-calm rounds left h in
    Reads-step r rounds left before calm quiet reads

-- The round of the first signal.
tests_read-signal :
    (r : Round) (rest : List Round) (selected : Selected)
    → 0 < signals r
    → select r ≡ some selected
    → tests_read false (r ∷ rest) ≡ (selected, true) ∷ tests_read true rest
tests_read-signal r rest selected some_signal e =
    tests_read-step r rest selected false e ∙ rw (deliver-some (signals r) false some_signal) refl

tests_read-waits :
    (r : Round) (rest : List Round) → select r ≡ none → tests_read false (r ∷ rest) ≡ []
unfolding tests_read
tests_read-waits r rest e = rw (e, tests_read) refl

-- What has been opened is closed, where main has ended.
abbrev pub Settled : Bool → Sys → Kernel → Type 0
Settled true s k = (fd : ℕ) → opened_count fd s.log ≡ closed_count fd s.log + closes fd k.log
Settled false s k = Unit

module _ (t : RbTree) (m : ℕ) (config : Config) (s : Sys) (u : Udprelay t.T) (k : Kernel)
    (valid : Total.IsValid config) (track : config.track ≡ pos (suc m)) (sized : Sized s)
    (started : (udprelay_init t (some config) s).0 ≡ some u) (benign : Benign k)
    (fresh : s.log ≡ []) (clean : k.log ≡ []) where
  abbrev Ends : List (Selected × Bool) → Bool → Type 0
  Ends inputs returned =
      (k' : Kernel) × (with_daemon t inputs s k (udprelay_init t (some config) s).0
        ≡ some (if returned then exit_success else running, k'))
      × Settled returned (udprelay_init t (some config) s).1 k'

  -- Nothing comes after quiet rounds.
  waits : (before : List (Selected × Bool)) → AllQuiet before → Ends before false
  unfolding with_daemon ending
  waits before quiet =
      let (step, k', e, c, b) =
        program-Serves t m config s u before k valid track sized started quiet benign in
      goes_on step k' e c
    where
      goes_on :
          (step : Step t.T) (k' : Kernel)
          → main_loop t before u k ≡ some (step, k')
          → Continues t (suc m) (length config.relay_config) step
          → Ends before false
      goes_on (terminate u') k' e c = absurd c
      goes_on (continue u') k' e c = (k', rw started (rw e refl), tt)

  -- Started from a configuration that parse_config may return, with a positive `track`, and with a
  -- resolver that answers no empty address, on a kernel that never fails hard and never hands out an
  -- empty datagram, and with logs that are empty: when the first signal comes, after rounds in which
  -- `select` returns and fails with nothing but EAGAIN, main exits with success, with every
  -- descriptor closed as often as it has been opened, exactly if the `select` of that round returns,
  -- because the signal comes while it waits or because of what it waits for; and if the signal comes
  -- before and nothing else does, the daemon waits in `select` for ever.
  pub signals-stop :
      (before : List Round) (r : Round) (rest : List Round)
      → AllCalm before
      → 0 < signals r
      → Ends (tests_read false (before ++ r ∷ rest)) (returns (select r))
  signals-stop before r rest calm some_signal =
      let (inputs, (quiet, e)) = tests_read-calm before (r ∷ rest) calm in
      rw e (elim (Option-cases (select r)) [
        | inl never ↦
            rw (tests_read-waits r rest never, never, append-nil inputs) (waits inputs quiet)
        | inr (selected, returned) ↦
            rw (tests_read-signal r rest selected some_signal returned, returned)
              (program-stops t m config s u inputs (tests_read true rest) selected k valid track
                sized started quiet benign fresh clean)
      ])
