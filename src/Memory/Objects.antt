-- ===== src/Memory/Objects.antt =====
-- The blocks of each object, and that giving it back frees exactly these.
use udprelayd.Base.{
  refl, true, ◌==◌, arith, ℕ, ◌≡◌, false, Option, none, some, List, [], ◌∷◌, ◌++◌, has, IsDistinct,
  if◌then◌else◌,
}
use udprelayd.Memory.{
  strreplace, allocate, then_run, Memory, QueueItem, RelayBlocks, free_queue, free_relay,
  RelayConfigBlocks, ConfigBlocks, free_relay_configs, free_config, LookupBlocks, free_lookup,
  DaemonBlocks, free_relays, free_outward, free_seen, cleanup,
}
use udprelayd.Memory.Frees.{
  Allocated, Frees, Frees-skip, Frees-free, Frees-free_if, Frees-then, optional,
}

abbrev pub queue_blocks : List QueueItem → List ℕ
queue_blocks [] = []
queue_blocks (q ∷ queue) = (q.buffer ∷ []) ++ ((q.self ∷ []) ++ queue_blocks queue)

abbrev pub relay_blocks : RelayBlocks → List ℕ
relay_blocks r =
    optional r.send_buffer
    ++ (optional r.recv_buffer
        ++ (queue_blocks r.queue
            ++ (optional r.local_addr ++ (optional r.remote_addr ++ (r.self ∷ [])))))

free_queue-Frees : (qs : List QueueItem) → Frees (queue_blocks qs) (free_queue qs)
unfolding free_queue
free_queue-Frees [] = Frees-skip
free_queue-Frees (q ∷ qs) =
    Frees-then _ _ _ _ (Frees-free q.buffer)
      (Frees-then _ _ _ _ (Frees-free q.self) (free_queue-Frees qs))

free_relay-Frees : (r : RelayBlocks) → Frees (relay_blocks r) (free_relay r)
unfolding free_relay
free_relay-Frees r = Frees-then _ _ _ _ (Frees-free_if r.send_buffer) (
    Frees-then _ _ _ _ (Frees-free_if r.recv_buffer) (
      Frees-then _ _ _ _ (free_queue-Frees r.queue) (
        Frees-then _ _ _ _ (Frees-free_if r.local_addr)
          (Frees-then _ _ _ _ (Frees-free_if r.remote_addr) (Frees-free r.self)))))

abbrev pub line_blocks : List RelayConfigBlocks → List ℕ
line_blocks [] = []
line_blocks (r ∷ rs) =
    optional r.local_addr ++ (optional r.remote_addr ++ ((r.self ∷ []) ++ line_blocks rs))

abbrev pub config_blocks : ConfigBlocks → List ℕ
config_blocks c =
    line_blocks c.relay_config
    ++ (optional c.outward_local ++ (optional c.outward_remote ++ (c.self ∷ [])))

free_relay_configs-Frees :
    (rs : List RelayConfigBlocks) → Frees (line_blocks rs) (free_relay_configs rs)
unfolding free_relay_configs
free_relay_configs-Frees [] = Frees-skip
free_relay_configs-Frees (r ∷ rs) = Frees-then _ _ _ _ (Frees-free_if r.local_addr) (
    Frees-then _ _ _ _ (Frees-free_if r.remote_addr)
      (Frees-then _ _ _ _ (Frees-free r.self) (free_relay_configs-Frees rs)))

free_config_rule : (c : ConfigBlocks) → Frees (config_blocks c) (free_config c)
unfolding free_config
free_config_rule c = Frees-then _ _ _ _ (free_relay_configs-Frees c.relay_config) (
    Frees-then _ _ _ _ (Frees-free_if c.outward_local)
      (Frees-then _ _ _ _ (Frees-free_if c.outward_remote) (Frees-free c.self)))

abbrev pub all_relay_blocks : List RelayBlocks → List ℕ
all_relay_blocks [] = []
all_relay_blocks (r ∷ rs) = relay_blocks r ++ all_relay_blocks rs

abbrev pub outward_blocks : Option RelayBlocks → List ℕ
outward_blocks none = []
outward_blocks (some r) = relay_blocks r

abbrev pub seen_blocks : Option LookupBlocks → List ℕ
seen_blocks none = []
seen_blocks (some lu) = (lu.pool ∷ []) ++ (lu.self ∷ [])

abbrev pub daemon_blocks : DaemonBlocks → List ℕ
daemon_blocks u = all_relay_blocks u.relays ++ (outward_blocks u.outward ++ seen_blocks u.lookup)

free_relays-Frees : (rs : List RelayBlocks) → Frees (all_relay_blocks rs) (free_relays rs)
unfolding free_relays
free_relays-Frees [] = Frees-skip
free_relays-Frees (r ∷ rs) = Frees-then _ _ _ _ (free_relay-Frees r) (free_relays-Frees rs)

free_outward-Frees : (r : Option RelayBlocks) → Frees (outward_blocks r) (free_outward r)
unfolding free_outward
free_outward-Frees none = Frees-skip
free_outward-Frees (some r) = free_relay-Frees r

free_seen-Frees : (lu : Option LookupBlocks) → Frees (seen_blocks lu) (free_seen lu)
unfolding free_seen free_lookup
free_seen-Frees none = Frees-skip
free_seen-Frees (some lu) = Frees-then _ _ _ _ (Frees-free lu.pool) (Frees-free lu.self)

cleanup_rule : (u : DaemonBlocks) → Frees (daemon_blocks u) (cleanup u)
unfolding cleanup
cleanup_rule u =
    Frees-then _ _ _ _ (free_relays-Frees u.relays)
      (Frees-then _ _ _ _ (free_outward-Frees u.outward) (free_seen-Frees u.lookup))

-- If the blocks of the daemon's relays, with all that waits in their queues, and of its lookup are
-- allocated and no two are the same, then udprelay_cleanup returns, and has freed each of them once,
-- and no other block.
pub cleanup-frees :
    (u : DaemonBlocks) (m : Memory)
    → IsDistinct (daemon_blocks u)
    → Allocated m (daemon_blocks u)
    → (m' : Memory) × (cleanup u m ≡ some m')
      × ((a : ℕ) → m' a ≡ (if has a (daemon_blocks u) then false else m a))
unfolding Frees
cleanup-frees u = cleanup_rule u

-- The same holds of free_config, for the configuration, its lines and their strings.
pub free_config-frees :
    (c : ConfigBlocks) (m : Memory)
    → IsDistinct (config_blocks c)
    → Allocated m (config_blocks c)
    → (m' : Memory) × (free_config c m ≡ some m')
      × ((a : ℕ) → m' a ≡ (if has a (config_blocks c) then false else m a))
unfolding Frees
free_config-frees c = free_config_rule c

optional-IsDistinct : (p : Option ℕ) → IsDistinct (optional p)
optional-IsDistinct none = tt
optional-IsDistinct (some p) = (refl, tt)

-- strreplace frees the old string and keeps the new one, whose block is neither allocated nor the old
-- one.
strreplace-keeps :
    (dest : Option ℕ) (block : ℕ) (m : Memory)
    → Allocated m (optional dest)
    → m block ≡ false
    → (m' : Memory) × (strreplace dest block m ≡ some m')
      × ((a : ℕ)
          → m' a ≡ (if a == block then true else if has a (optional dest) then false else m a))
unfolding Frees strreplace then_run allocate
strreplace-keeps dest block m al new =
    let (m₁, done, left) = Frees-free_if dest m (optional-IsDistinct dest) al in
    let still : m₁ block ≡ false = ground (arith, left block) in
    (λ a. if a == block then true else m₁ a, rw done (rw still refl), λ a. ground (arith, left a))
