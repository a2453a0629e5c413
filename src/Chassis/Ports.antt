-- ===== src/Chassis/Ports.antt =====
-- Where the ports of services lie.
use chassis_go.Prelude.{ℕ, ◌+◌, ◌%◌, ◌≤◌, ◌≡◌, none, some, List, pos, arith}
use chassis_go.Chassis.{hash_bytes, checked_port, shift, port}

-- The port of a service, with a standard offset of 0 to 2 or without one, is given without a panic,
-- and lies from 5000 to 48000, and the offset above.
pub port_bounds :
    (name : List ℕ) (offset : ℕ)
    → offset ≤ 2
    → (p : ℕ) × (port name none ≡ some p)
      × (5000 ≤ p)
      × (p ≤ 48000)
      × (port name (some (pos offset)) ≡ some (p + offset))
unfolding port shift checked_port
port_bounds name offset h =
    let p = 5000 + hash_bytes 5381 name % 43001 in
    (p, ground arith, omega arith, omega arith, ground arith)
