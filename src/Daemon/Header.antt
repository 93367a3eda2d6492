-- ===== src/Daemon/Header.antt =====
-- udprelayd.c: the sequence number in the header of a packet.
use udprelayd.Base.{ℕ, ◌≡◌, refl, List, ◌++◌, arith, length, drop, ltb, false}
use udprelayd.Daemon.{htons, ntohs, header_size}

-- What `htons` writes, `ntohs` reads, whatever follows.
pub ntohs-htons : (seq : ℕ) (rest : List ℕ) → ntohs (htons seq ++ rest) ≡ seq
unfolding ntohs htons
ntohs-htons seq rest = omega arith

pub drop-htons : (seq : ℕ) (payload : List ℕ) → drop header_size (htons seq ++ payload) ≡ payload
unfolding htons
drop-htons seq payload = refl

pub htons-long :
    (seq : ℕ) (payload : List ℕ) → ltb (length (htons seq ++ payload)) header_size ≡ false
unfolding htons
htons-long seq payload = ground arith
