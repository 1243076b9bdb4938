-- ===== src/Boot/Main/Held.antt =====
-- What main holds at its end.
use cominit.Base.Run.{Run}
use cominit.Machine.{Machine}
