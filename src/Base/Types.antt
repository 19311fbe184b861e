-- ===== src/Base/Types.antt =====
-- The identifiers that the program's parts share. A txid is a text that is only compared: it is
-- modelled by a number, in the order of the texts. A time is a count of the clock's smallest unit.
use Prim.Native.Nat.{ℕ}
use mathlib.Core.List.{List}

abbrev pub Txid : Type 0
Txid = ℕ

abbrev pub Time : Type 0
Time = ℕ

-- A `HashSet<String>` of txids.
abbrev pub TxSet : Type 0
TxSet = List Txid
