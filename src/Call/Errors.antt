-- ===== src/Call/Errors.antt =====
-- The errors of package call. Of an error of other code the model keeps its identity.
use chassis_go.Prelude.{ℕ}

pub data Error : Type 0 where
  err_circuit_open : Error
  external : ℕ → Error
  token_source : Error → Error
