-- ===== src/Setup/Start.antt =====
-- udprelay_init: the daemon that it starts.
use udprelayd.Base.{
  ◌≡◌, refl, Bool, true, false, Option, none, some, List, [], ◌∷◌, ◌++◌, append-nil, append_assoc,
  length,
}
use udprelayd.Config.{RelayConfig, Config}
use udprelayd.Lookup.{new_lookup}
use udprelayd.Lookup.Tree.{RbTree}
use udprelayd.Relay.{Relay}
use udprelayd.Daemon.{Udprelay}
use udprelayd.Net.{Sys, Cmd, pure, ◌>>=◌, ◌>>◌, close}
use udprelayd.Setup.{
  new_relay, close_all, add_or_stop, add_relays, start_or_stop, init_relays, udprelay_init,
}
use udprelayd.Setup.Results.{Sized, Yields, Yields-pure, Yields-bind, Yields-close_then}
use udprelayd.Setup.Modes.{IsRelayOf, RelayOf, new_relay-Yields}

-- The relays of the lines, one for each and in their order.
abbrev pub RelaysOf : List RelayConfig → List Relay → Type 0
RelaysOf [] [] = Unit
RelaysOf [] (r ∷ rs) = ⊥
RelaysOf (c ∷ cs) [] = ⊥
RelaysOf (c ∷ cs) (r ∷ rs) = IsRelayOf c r × RelaysOf cs rs

RelaysOf-snoc :
    (cs : List RelayConfig) (rs : List Relay) (c : RelayConfig) (r : Relay)
    → RelaysOf cs rs
    → IsRelayOf c r
    → RelaysOf (cs ++ c ∷ []) (rs ++ r ∷ [])
RelaysOf-snoc [] [] c r h i = (i, tt)
RelaysOf-snoc [] (x ∷ rs) c r h i = absurd h
RelaysOf-snoc (x ∷ cs) [] c r h i = absurd h
RelaysOf-snoc (x ∷ cs) (y ∷ rs) c r h i = (h.0, RelaysOf-snoc cs rs c r h.1 i)

abbrev AddedOf : List RelayConfig → List Relay × Bool → Type 0
AddedOf cs (rs, true) = RelaysOf cs rs
AddedOf cs (rs, false) = Unit

add_or_stop-Yields :
    (all : List RelayConfig) (rs : List Relay) (c : RelayConfig)
    (next : List Relay → Cmd (List Relay × Bool)) (relay : Option Relay)
    → RelayOf c relay
    → ((r : Relay) → IsRelayOf c r → Yields (AddedOf all) (next (rs ++ r ∷ [])))
    → Yields (AddedOf all) (add_or_stop rs next relay)
unfolding add_or_stop
add_or_stop-Yields all rs c next none i y = Yields-pure (AddedOf all) (rs, false) tt
add_or_stop-Yields all rs c next (some r) i y = y r i

add_relays-Yields :
    (done : List RelayConfig) (rs : List Relay) (cs : List RelayConfig)
    → RelaysOf done rs
    → Yields (AddedOf (done ++ cs)) (add_relays rs cs)
unfolding add_relays
add_relays-Yields done rs [] h =
    Yields-pure (AddedOf (done ++ [])) (rs, true) (rw (append-nil done) h)
add_relays-Yields done rs (c ∷ cs) h =
    Yields-bind (RelayOf c) (AddedOf (done ++ c ∷ cs)) (new_relay c) _ (new_relay-Yields c)
      (λ relay i.
        add_or_stop-Yields (done ++ c ∷ cs) rs c (λ rs'. add_relays rs' cs) relay i
          (λ r j.
            rw (append_assoc done (c ∷ []) cs) at (
              add_relays-Yields (done ++ c ∷ []) (rs ++ r ∷ []) cs
                (RelaysOf-snoc done rs c r h j))))

-- A daemon that starts from the configuration.
pub record IsStart (t : RbTree) (config : Config) (u : Udprelay t.T) : Type 0 where
  pub outward : IsRelayOf config.outward u.outward
  pub relays : RelaysOf config.relay_config u.relays
  pub relays_num : u.relays_num ≡ length u.relays
  pub lookup : u.lookup ≡ new_lookup t config.track
  pub seq : u.seq ≡ 0

module _ (t : RbTree) where
  abbrev StartOf : Config → Option (Udprelay t.T) → Type 0
  StartOf config none = Unit
  StartOf config (some u) = IsStart t config u

  close_all-Yields :
      (rs : List Relay) (config : Config) (m : Cmd (Option (Udprelay t.T)))
      → Yields (StartOf config) m
      → Yields (StartOf config) (close_all rs >> m)
  unfolding close_all Yields ◌>>=◌ pure close
  close_all-Yields [] config m y s h = y s h
  close_all-Yields (r ∷ rs) config m y s h = close_all-Yields rs config m y _ h

  start_or_stop-Yields :
      (config : Config) (outward : Relay) (added : List Relay × Bool)
      → IsRelayOf config.outward outward
      → AddedOf config.relay_config added
      → Yields (StartOf config) (start_or_stop t config outward added)
  unfolding start_or_stop
  start_or_stop-Yields config outward (rs, true) i h =
      Yields-pure (StartOf config) _
        (record { outward = i; relays = h; relays_num = refl; lookup = refl; seq = refl })
  start_or_stop-Yields config outward (rs, false) i h =
      close_all-Yields rs config (close outward.fd >> pure none) (
        Yields-close_then (StartOf config) outward.fd (pure none)
          (Yields-pure (StartOf config) none tt))

  init_relays-Yields :
      (config : Config) (outward : Option Relay)
      → RelayOf config.outward outward
      → Yields (StartOf config) (init_relays t config outward)
  unfolding init_relays
  init_relays-Yields config none i = Yields-pure (StartOf config) none tt
  init_relays-Yields config (some outward) i =
      Yields-bind (AddedOf config.relay_config) (StartOf config) (add_relays [] config.relay_config)
        _ (add_relays-Yields [] [] config.relay_config tt)
        (λ added h. start_or_stop-Yields config outward added i h)

  -- If no address that the resolver answers is empty, the daemon that udprelay_init returns for a
  -- configuration has the relays of its lines, one for each and in their order, counted in
  -- `relays_num`, each as new_relay makes it, the outward relay likewise, a new lookup of `track`
  -- numbers, and the number 0.
  pub udprelay_init-IsStart :
      (config : Config) (s : Sys) (u : Udprelay t.T)
      → Sized s
      → (udprelay_init t (some config) s).0 ≡ some u
      → IsStart t config u
  unfolding Yields udprelay_init
  udprelay_init-IsStart config s u h e =
      rw e at
        (Yields-bind (RelayOf config.outward) (StartOf config) (new_relay config.outward)
          (init_relays t config) (new_relay-Yields config.outward) (init_relays-Yields config) s
          h).0
