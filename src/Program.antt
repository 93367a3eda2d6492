-- ===== src/Program.antt =====
-- main: from a configuration through udprelay_init into the main loop.
pub mod Start
pub mod Stops
pub mod Signals
pub mod Detached
pub mod Main
pub mod Empty
mod Usage
mod Tests
use udprelayd.Base.{
  ℕ, suc, ◌-◌, ◌<◌, ◌≡◌, ◌∙◌, refl, sym, ap, Bool, some, List, [], ◌∷◌, length, arith,
}
use mathlib.Core.Path.{subst}
use udprelayd.Base.Int.{pos}
use udprelayd.Config.{RelayConfig, Config}
use udprelayd.Config.Total
use udprelayd.Lookup.{new_lookup}
use udprelayd.Lookup.Tree.{RbTree}
use udprelayd.Lookup.Window
use udprelayd.Lookup.Runs.{new_lookup-IsValid}
use udprelayd.Relay.{Relay}
use udprelayd.Os.{Kernel}
use udprelayd.Daemon.{Udprelay}
use udprelayd.Daemon.Loop.{Selected, Step, main_loop}
use udprelayd.Daemon.Benign.{Benign}
use udprelayd.Daemon.Serving
use udprelayd.Daemon.Serving.{AllValid}
use udprelayd.Daemon.Rounds.{AllQuiet, Continues, main_loop-Serves}
use udprelayd.Net.{Sys}
use udprelayd.Setup.{udprelay_init}
use udprelayd.Setup.Results.{Sized}
use udprelayd.Setup.Start.{RelaysOf, IsStart, udprelay_init-IsStart}

RelaysOf-AllValid :
    (cs : List RelayConfig) (rs : List Relay)
    → RelaysOf cs rs
    → AllValid rs × (length rs ≡ length cs)
RelaysOf-AllValid [] [] h = (tt, refl)
RelaysOf-AllValid [] (r ∷ rs) h = absurd h
RelaysOf-AllValid (c ∷ cs) [] h = absurd h
RelaysOf-AllValid (c ∷ cs) (r ∷ rs) h =
    let (valid, same) = RelaysOf-AllValid cs rs h.1 in ((h.0.valid, valid), ap suc same)

module _ (t : RbTree) (m : ℕ) where
  start-IsValid :
      (config : Config) (u : Udprelay t.T)
      → config.track ≡ pos (suc m)
      → IsStart t config u
      → Serving.IsValid t (suc m) (length config.relay_config) u
  start-IsValid config u track start =
      let (valid, same) = RelaysOf-AllValid config.relay_config u.relays start.relays in
      record {
        outward_valid = start.outward.valid;
        relays_valid = valid;
        number = same;
        counted = start.relays_num ∙ same;
        lookup_valid = rw (start.lookup, track) (new_lookup-IsValid t (suc m)).0;
        seq_fits = rw start.seq (omega arith);
      }

  -- Started from a configuration that parse_config may return, with a positive `track`, and with a
  -- resolver that answers no empty address, the daemon serves: over any run of rounds in which
  -- `select` fails with nothing but EAGAIN and no signal comes, on a kernel that never fails hard and
  -- never hands out an empty datagram, it neither faults nor terminates, and at the end it has a
  -- valid relay for every relay line.
  pub program-Serves :
      (config : Config) (s : Sys) (u : Udprelay t.T) (inputs : List (Selected × Bool)) (k : Kernel)
      → Total.IsValid config
      → config.track ≡ pos (suc m)
      → Sized s
      → (udprelay_init t (some config) s).0 ≡ some u
      → AllQuiet inputs
      → Benign k
      → (step : Step t.T) × (k' : Kernel) × (main_loop t inputs u k ≡ some (step, k'))
        × Continues t (suc m) (length config.relay_config) step
        × Benign k'
  program-Serves config s u inputs k valid track sized started quiet benign =
      let n = length config.relay_config - 1 in
      let some_relays : suc n ≡ length config.relay_config = omega (arith, valid.some_relay) in
      let v = start-IsValid config u track (udprelay_init-IsStart t config s u sized started) in
      let (step, k', e, c, b) =
        main_loop-Serves t (suc m) (omega arith) n inputs u k quiet
          (subst (λ n. Serving.IsValid t (suc m) n u) (sym some_relays) v) benign in
      (step, k', e, subst (λ n. Continues t (suc m) n step) some_relays c, b)
