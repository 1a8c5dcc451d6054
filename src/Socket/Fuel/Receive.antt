-- ===== src/Socket/Fuel/Receive.antt =====
-- That the loops of `recv` and `finalizeRecv` do not run out of fuel.
use ece.Msg.{Msg}
