-- ===== src/Setup/Init.antt =====
-- udprelay_init: the descriptors that it leaves open.
use udprelayd.Base.{
  ℕ, ◌+◌, ◌≡◌, refl, sym, ap, Bool, true, false, Option, none, some, List, [], ◌∷◌, ◌++◌, arith,
  append-nil, length,
}
use udprelayd.Config.{RelayConfig, Config}
use udprelayd.Lookup.{new_lookup}
use udprelayd.Lookup.Tree.{RbTree}
use udprelayd.Relay.{Relay}
use udprelayd.Daemon.{Udprelay}
use udprelayd.Net.{Sys, Cmd, pure}
use udprelayd.Setup.{
  new_relay, close_all, add_or_stop, add_relays, start_or_stop, init_relays, udprelay_init,
}
use udprelayd.Setup.Counts.{
  opened_count, closed_count, occurrences-nil, Owns, Owns-pure, Owns-bind, Owns-frame, Owns-reorder,
  Owns-close_then, occurrences, occurrences-append,
}
use udprelayd.Setup.Create.{relay_fds, new_relay-Owns}

abbrev pub fds : List Relay → List ℕ
fds [] = []
fds (r ∷ rs) = r.fd ∷ fds rs

fds-snoc : (rs : List Relay) (r : Relay) → fds (rs ++ r ∷ []) ≡ fds rs ++ r.fd ∷ []
fds-snoc [] r = refl
fds-snoc (x ∷ rs) r = ap (λ l. x.fd ∷ l) (fds-snoc rs r)

close_all-Owns : (rs : List Relay) (p : List ℕ) → Owns (fds rs ++ p) (close_all rs) (λ u. p)
unfolding close_all
close_all-Owns [] p = Owns-pure tt (λ u. p)
close_all-Owns (r ∷ rs) p =
    Owns-close_then r.fd (fds rs ++ p) (close_all rs) (λ u. p) (close_all-Owns rs p)

abbrev added_fds : List Relay × Bool → List ℕ
added_fds (rs, complete) = fds rs

add_or_stop-Owns :
    (rs : List Relay) (next : List Relay → Cmd (List Relay × Bool)) (relay : Option Relay)
    → ((rs' : List Relay) → Owns (fds rs') (next rs') added_fds)
    → Owns (fds rs ++ relay_fds relay) (add_or_stop rs next relay) added_fds
unfolding add_or_stop
add_or_stop-Owns rs next none h =
    Owns-reorder (fds rs) (fds rs ++ []) (pure (rs, false)) added_fds
      (λ fd. ap (occurrences fd) (append-nil (fds rs))) (Owns-pure (rs, false) added_fds)
add_or_stop-Owns rs next (some r) h =
    Owns-reorder (fds (rs ++ r ∷ [])) (fds rs ++ r.fd ∷ []) (next (rs ++ r ∷ [])) added_fds
      (λ fd. ap (occurrences fd) (sym (fds-snoc rs r))) (h (rs ++ r ∷ []))

add_relays-Owns :
    (rs : List Relay) (cs : List RelayConfig) → Owns (fds rs) (add_relays rs cs) added_fds
unfolding add_relays
add_relays-Owns rs [] = Owns-pure (rs, true) added_fds
add_relays-Owns rs (c ∷ cs) =
    Owns-bind (fds rs) (new_relay c) (λ relay. fds rs ++ relay_fds relay) _ added_fds
      (Owns-reorder (fds rs ++ []) (fds rs) (new_relay c) (λ relay. fds rs ++ relay_fds relay)
        (λ fd. ap (occurrences fd) (sym (append-nil (fds rs))))
        (Owns-frame (fds rs) [] (new_relay c) relay_fds (new_relay-Owns c)))
      (λ relay.
        add_or_stop-Owns rs (λ rs'. add_relays rs' cs) relay (λ rs'. add_relays-Owns rs' cs))

module _ (t : RbTree) where
  abbrev pub daemon_fds : Option (Udprelay t.T) → List ℕ
  daemon_fds none = []
  daemon_fds (some u) = u.outward.fd ∷ fds u.relays

  start_or_stop-Owns :
      (config : Config) (outward : Relay) (added : List Relay × Bool)
      → Owns (outward.fd ∷ added_fds added) (start_or_stop t config outward added) daemon_fds
  unfolding start_or_stop
  start_or_stop-Owns config outward (rs, true) =
      Owns-pure
        (some (record {
          outward = outward;
          relays = rs;
          lookup = new_lookup t config.track;
          relays_num = length rs;
          seq = 0;
        }))
        daemon_fds
  start_or_stop-Owns config outward (rs, false) =
      Owns-reorder (fds rs ++ outward.fd ∷ []) (outward.fd ∷ fds rs) _ daemon_fds (λ fd. swapped fd)
        (Owns-bind (fds rs ++ outward.fd ∷ []) (close_all rs) (λ u. outward.fd ∷ []) _ daemon_fds
          (close_all-Owns rs (outward.fd ∷ []))
          (λ u. Owns-close_then outward.fd [] (pure none) daemon_fds (Owns-pure none daemon_fds)))
    where
      swapped :
          (fd : ℕ)
          → occurrences fd (outward.fd ∷ fds rs) ≡ occurrences fd (fds rs ++ outward.fd ∷ [])
      swapped fd = omega (
        arith,
        occurrences-append fd (outward.fd ∷ []) (fds rs),
        occurrences-append fd (fds rs) (outward.fd ∷ []),
      )

  init_relays-Owns :
      (config : Config) (outward : Option Relay)
      → Owns (relay_fds outward) (init_relays t config outward) daemon_fds
  unfolding init_relays
  init_relays-Owns config none = Owns-pure none daemon_fds
  init_relays-Owns config (some outward) =
      Owns-bind (outward.fd ∷ []) (add_relays [] config.relay_config)
        (λ added. outward.fd ∷ added_fds added) _ daemon_fds
        (Owns-frame (outward.fd ∷ []) [] (add_relays [] config.relay_config) added_fds
          (add_relays-Owns [] config.relay_config))
        (start_or_stop-Owns config outward)

  pub udprelay_init-Owns : (config : Option Config) → Owns [] (udprelay_init t config) daemon_fds
  unfolding udprelay_init
  udprelay_init-Owns none = Owns-pure none daemon_fds
  udprelay_init-Owns (some config) =
      Owns-bind [] (new_relay config.outward) relay_fds _ daemon_fds (new_relay-Owns config.outward)
        (init_relays-Owns config)

  -- Whatever the configuration is, and whatever the resolver and the socket calls answer,
  -- udprelay_init opens and closes each descriptor as often, but for those of the outward relay and
  -- of the relays when it succeeds: these stay open, and after a failure none.
  pub udprelay_init-fds :
      (config : Option Config) (s : Sys) (fd : ℕ)
      → let (u, s') = udprelay_init t config s in
        opened_count fd s'.log + closed_count fd s.log
        ≡ opened_count fd s.log + closed_count fd s'.log + occurrences fd (daemon_fds u)
  unfolding Owns
  udprelay_init-fds config s fd = omega (arith, udprelay_init-Owns config s fd, occurrences-nil fd)
