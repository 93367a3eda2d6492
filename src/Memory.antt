-- ===== src/Memory.antt =====
-- The blocks of memory behind the objects of relay.c, config.c, seen_lookup.c and udprelayd.c, and the
-- functions that give them back. A block is named by a number. To free a block that is not allocated
-- is a fault, `none`. The loops `while((q = list) != NULL)` with CLIST_DEL take the items from the
-- front of their list (see Clist/Drain).
pub mod Frees
pub mod Objects
mod Tests
use udprelayd.Base.{ℕ, Bool, true, false, Option, none, some, List, [], ◌∷◌, ◌==◌, if◌then◌else◌}

-- Which blocks are allocated.
abbrev pub Memory : Type 0
Memory = ℕ → Bool

abbrev pub Cmd : Type 0
Cmd = Memory → Option Memory

abbrev pub skip : Cmd
skip m = some m

unfoldable pub then_run : Cmd → Option Memory → Option Memory
then_run n none = none
then_run n (some m) = n m

infixl 5 ◌>>◌
abbrev pub ◌>>◌ : Cmd → Cmd → Cmd
◌>>◌ c n m = then_run n (c m)

unfoldable pub without : Memory → ℕ → Memory
without m p a = if a == p then false else m a

unfoldable pub free : ℕ → Cmd
free p m = if m p then some (without m p) else none

-- `if(p) free(p)`
unfoldable pub free_if : Option ℕ → Cmd
free_if none = skip
free_if (some p) = free p

-- `malloc`, with the block that it returns: never one that is allocated.
unfoldable pub allocate : ℕ → Cmd
allocate p m = if m p then none else some (λ a. if a == p then true else m a)

-- strreplace, with the block of xstrdup, which becomes `*dest`.
unfoldable pub strreplace : Option ℕ → ℕ → Cmd
strreplace dest block = free_if dest >> allocate block

-- struct _queue_t
pub record QueueItem : Type 0 where
  pub self : ℕ
  pub buffer : ℕ

-- The members of a relay_t that point to its blocks.
pub record RelayBlocks : Type 0 where
  pub self : ℕ
  pub send_buffer : Option ℕ
  pub recv_buffer : Option ℕ
  pub queue : List QueueItem
  pub local_addr : Option ℕ
  pub remote_addr : Option ℕ

unfoldable pub free_queue : List QueueItem → Cmd
free_queue [] = skip
free_queue (q ∷ queue) = free q.buffer >> (free q.self >> free_queue queue)

unfoldable pub free_relay : RelayBlocks → Cmd
free_relay relay =
    free_if relay.send_buffer
    >> (free_if relay.recv_buffer
        >> (free_queue relay.queue
            >> (free_if relay.local_addr >> (free_if relay.remote_addr >> free relay.self))))

-- A relay_config_t, and the strings that it points to.
pub record RelayConfigBlocks : Type 0 where
  pub self : ℕ
  pub local_addr : Option ℕ
  pub remote_addr : Option ℕ

pub record ConfigBlocks : Type 0 where
  pub self : ℕ
  pub relay_config : List RelayConfigBlocks
  pub outward_local : Option ℕ
  pub outward_remote : Option ℕ

unfoldable pub free_relay_configs : List RelayConfigBlocks → Cmd
free_relay_configs [] = skip
free_relay_configs (r ∷ rs) =
    free_if r.local_addr >> (free_if r.remote_addr >> (free r.self >> free_relay_configs rs))

unfoldable pub free_config : ConfigBlocks → Cmd
free_config config =
    free_relay_configs config.relay_config
    >> (free_if config.outward_local >> (free_if config.outward_remote >> free config.self))

pub record LookupBlocks : Type 0 where
  pub self : ℕ
  pub pool : ℕ

unfoldable pub free_lookup : LookupBlocks → Cmd
free_lookup lu = free lu.pool >> free lu.self

-- The daemon's objects; the state itself is on the stack of `main`.
pub record DaemonBlocks : Type 0 where
  pub relays : List RelayBlocks
  pub outward : Option RelayBlocks
  pub lookup : Option LookupBlocks

unfoldable pub free_relays : List RelayBlocks → Cmd
free_relays [] = skip
free_relays (r ∷ rs) = free_relay r >> free_relays rs

unfoldable pub free_outward : Option RelayBlocks → Cmd
free_outward none = skip
free_outward (some r) = free_relay r

unfoldable pub free_seen : Option LookupBlocks → Cmd
free_seen none = skip
free_seen (some lu) = free_lookup lu

unfoldable pub cleanup : DaemonBlocks → Cmd
cleanup u = free_relays u.relays >> (free_outward u.outward >> free_seen u.lookup)
