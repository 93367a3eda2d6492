-- ===== src/Daemon/Loop.antt =====
-- udprelayd.c: the main loop of `main`, a round at a time, and udprelay_cleanup. What `select`
-- returns and whether a signal has come are the inputs of a round.
use udprelayd.Base.{ℕ, Bool, not, ◌||◌, Option, some, List, [], ◌∷◌, ◌==◌, if◌then◌else◌}
use udprelayd.Base.Int.{ℤ, pos}
use udprelayd.Os.{Cmd, Errno, is_eagain}
use udprelayd.Lookup.Tree.{RbTree}
use udprelayd.Relay.{Relay, FdSet, is_neg, relay_receive, relay_handle, free_relay}
use udprelayd.Daemon.{
  Run, pure, call, ◌>>=◌, Udprelay, dispatch_relayed, keep_or_free, link, recount, dispatch_inbound,
  handle_relays,
}

-- The result of `select`: a count and the descriptors that are ready, or an error.
pub data Selected : Type 0 where
  ready : ℕ → FdSet → FdSet → Selected
  select_failed : Errno → Selected

-- How a round ends.
pub data Step (T : Type 0) : Type 0 where
  continue : Udprelay T → Step T
  terminate : Udprelay T → Step T

-- Dispatch inbound.
unfoldable pub inbound : {T : Type 0} → Udprelay T → Run (ℤ × Udprelay T)
inbound u =
    let ((sz, buffer), outward) = relay_receive u.outward in
    let u' = record u { outward = outward } in
    if sz == 0 then pure (pos 0, u') else dispatch_inbound u' buffer

module _ (t : RbTree) where
  -- The packet that one relay has received, if any. The result is the relay, if it stays.
  unfoldable pub relayed_one : Udprelay t.T → Relay → Run (Option Relay × Udprelay t.T)
  relayed_one u r =
      let ((sz, buffer), r') = relay_receive r in
      if sz == 0 then pure (some r', u) else (do
        (ret, u') ← dispatch_relayed t u buffer
        kept ← call (keep_or_free (ret, r'))
        pure (kept, record u' { relays_num = recount kept u'.relays_num }))

  -- Dispatch relayed: the relays that stay, and the rest of the state.
  unfoldable pub relayed : Udprelay t.T → List Relay → Run (List Relay × Udprelay t.T)
  relayed u [] = pure ([], u)
  relayed u (r ∷ rs) = do
    (kept, u) ← relayed_one u r
    (rest, u) ← relayed u rs
    pure (link kept rest, u)

  -- The two dispatches of a round.
  unfoldable pub dispatch : Udprelay t.T → Run (Step t.T)
  dispatch u = do
    (ret, u) ← inbound u
    if is_neg ret
        then pure (terminate u)
        else (do (relays, u) ← relayed u u.relays; pure (continue (record u { relays = relays })))

  -- A round whose `select` found descriptors that are ready.
  unfoldable pub serve : Udprelay t.T → FdSet → FdSet → Run (Step t.T)
  serve u rfds wfds = do
    (ret, outward) ← call (relay_handle u.outward rfds wfds)
    if is_neg ret then pure (terminate (record u { outward = outward })) else (do
      (relays, num) ← call (handle_relays u.relays u.relays_num rfds wfds)
      dispatch (record u { outward = outward; relays = relays; relays_num = num }))

  unfoldable pub round : Udprelay t.T → Selected → Bool → Run (Step t.T)
  round u (select_failed e) sigterm =
      if not (is_eagain e) || sigterm then pure (terminate u) else pure (continue u)
  round u (ready n rfds wfds) sigterm =
      if sigterm
      then pure (terminate u)
      else if n == 0
      then pure (continue u)
      else serve u rfds wfds

  -- The loop, until it breaks or there is no further input.
  unfoldable pub main_loop : List (Selected × Bool) → Udprelay t.T → Run (Step t.T)
  main_loop [] u = pure (continue u)
  main_loop ((selected, sigterm) ∷ inputs) u = do
    step ← round u selected sigterm
    elim step [ continue u' ↦ main_loop inputs u' | terminate u' ↦ pure (terminate u') ]

-- udprelay_cleanup: each relay's descriptor is closed, and then the outward one's.
unfoldable pub close_relays : List Relay → Cmd (Unit {0})
close_relays [] k = (tt, k)
close_relays (r ∷ rs) k = close_relays rs (free_relay r k).1

unfoldable pub udprelay_cleanup : {T : Type 0} → Udprelay T → Cmd (Unit {0})
udprelay_cleanup u k = free_relay u.outward (close_relays u.relays k).1
