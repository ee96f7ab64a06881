-- ===== src/Protocol/Result.antt =====
-- What the handlers of toxtun/protocol.c return.
use toxsh.Prelude.{ℕ, List}
use toxsh.State.{Site}

-- `done` returns 0 and `error` -1, with what is left of the datagram behind `* currentData`; `fault`
-- is an access through NULL or out of bounds.
pub data Handled : Type 0 where
  done : List ℕ → Site → Handled
  error : List ℕ → Site → Handled
  fault : Handled
