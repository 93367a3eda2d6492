-- ===== src/Descriptors.antt =====
-- udprelayd.c: who holds which descriptor, from the start of the daemon to its end.
pub mod Holds
pub mod Relays
pub mod Rounds
pub mod Loop
use udprelayd.Base.{ℕ, ◌+◌, List, [], ◌∷◌, ◌==◌, if◌then◌else◌}
use udprelayd.Os.{Event, closed}

-- How often the log has the descriptor closed.
unfoldable pub closes : ℕ → List Event → ℕ
closes fd [] = 0
closes fd (closed a ∷ log) = (if fd == a then 1 else 0) + closes fd log
closes fd (_ ∷ log) = closes fd log
