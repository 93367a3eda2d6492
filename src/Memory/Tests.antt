-- ===== src/Memory/Tests.antt =====
-- The blocks of a small daemon.
use udprelayd.Base.{
  ℕ, ◌≡◌, refl, false, none, some, [], ◌∷◌, has, ltb, IsDistinct, if◌then◌else◌, arith,
}
use udprelayd.Memory.{Memory, RelayBlocks, DaemonBlocks, cleanup}
use udprelayd.Memory.Frees.{Allocated}
use udprelayd.Memory.Objects.{daemon_blocks, cleanup-frees}

-- Two datagrams wait behind the first.
abbrev busy : RelayBlocks
busy = record {
  self = 1;
  send_buffer = some 2;
  recv_buffer = none;
  queue = record { self = 3; buffer = 4 } ∷ record { self = 5; buffer = 6 } ∷ [];
  local_addr = none;
  remote_addr = some 7;
}

abbrev idle : RelayBlocks
idle = record {
  self = 8;
  send_buffer = none;
  recv_buffer = some 9;
  queue = [];
  local_addr = some 10;
  remote_addr = none;
}

abbrev daemon : DaemonBlocks
daemon = record {
  relays = busy ∷ [];
  outward = some idle;
  lookup = some (record { self = 11; pool = 12 });
}

-- The first twenty blocks are allocated.
abbrev memory : Memory
memory a = ltb a 20

blocks-IsDistinct : IsDistinct (daemon_blocks daemon)
blocks-IsDistinct = (
  refl,
  (refl, (refl, (refl, (refl, (refl, (refl, (refl, (refl, (refl, (refl, (refl, tt))))))))))),
)

blocks-Allocated : Allocated memory (daemon_blocks daemon)
blocks-Allocated a i = ground arith

cleanup-frees_example :
    (m' : Memory) × (cleanup daemon memory ≡ some m')
    × ((a : ℕ) → m' a ≡ (if has a (daemon_blocks daemon) then false else memory a))
cleanup-frees_example = cleanup-frees daemon memory blocks-IsDistinct blocks-Allocated
