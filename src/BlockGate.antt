-- ===== src/BlockGate.antt =====
-- api/src/infra/block_gate.rs: the gate between `apply_block` and the reconciler's tick, as the steps
-- of two tasks that interleave, in time. Time is counted in nanoseconds, as `Instant` measures it.
pub mod Steps
pub mod Exclusion
use cluster_mempool_observer.Base.{
  ℕ, zero, suc, ◌+◌, ◌-◌, ◌*◌, ◌≡◌, Bool, true, false, not, ◌||◌, Option, none, some, Time, ltb,
  if◌then◌else◌,
}

-- 300 seconds.
abbrev pub max_hold : ℕ
max_hold = 300000000000

-- `in_flight` is whether a tick has the lock, and `queued` whether an `acquire` is in the lock's queue. The
-- lock is fair: when a tick drops it, it goes to the `acquire` that is queued, and no tick can take it.
pub record BlockGate : Type 0 where
  pub held_since : Option Time
  pub in_flight : Bool
  pub queued : Bool

abbrev pub open_gate : BlockGate
open_gate = record { held_since = none; in_flight = false; queued = false }

-- The test of `is_held`.
abbrev pub within_hold : Time → Option Time → Bool
within_hold now none = false
within_hold now (some acquired_at) = ltb (now - acquired_at) max_hold

-- A hold that is past its limit is cleared.
unfoldable pub is_held : Time → BlockGate → BlockGate × Bool
is_held now gate =
    if within_hold now gate.held_since
    then (gate, true)
    else (record gate { held_since = none }, false)

-- `acquire` up to its wait.
unfoldable pub shut : Time → BlockGate → BlockGate
shut now gate = record gate { held_since = some now }

-- `Drop for BlockGateGuard`.
unfoldable pub drop_guard : BlockGate → BlockGate
drop_guard gate = record gate { held_since = none }

-- The lock of `try_begin_flush`, and the rest of it once the lock is taken: the lease is dropped if
-- the gate is held.
unfoldable pub try_lock : BlockGate → Option BlockGate
try_lock gate =
    if gate.in_flight || gate.queued then none else some (record gate { in_flight = true })

unfoldable pub check_lease : Time → BlockGate → BlockGate × Bool
check_lease now gate =
    let (checked, held) = is_held now gate in
    if held then (record checked { in_flight = false }, false) else (checked, true)

unfoldable pub drop_lease : BlockGate → BlockGate
drop_lease gate = record gate { in_flight = false }

-- Where the task that applies blocks is: since when it has shut the gate, waiting for a tick to end,
-- or done waiting.
pub data BlockTask : Type 0 where
  block_idle : BlockTask
  waiting applying : Time → BlockTask

-- Where the tick is: with the lock taken and the gate not yet looked at, or with its lease.
pub data TickTask : Type 0 where
  tick_idle claimed flushing : TickTask

pub record System : Type 0 where
  pub now : Time
  pub gate : BlockGate
  pub block : BlockTask
  pub tick : TickTask

pub data GateEvent : Type 0 where
  elapse : ℕ → GateEvent
  begin_acquire poll_acquire release claim check finish_flush probe : GateEvent

-- Only a task in the right place can take a step.
unfoldable pub begin_by : BlockTask → System → Option System
begin_by block_idle s = some (record s { gate = shut s.now s.gate; block = waiting s.now })
begin_by _ s = none

-- The wait is polled: it joins the lock's queue while a tick has the lock, and ends when none has it; the
-- lock is then taken and dropped at once.
unfoldable pub poll_by : BlockTask → System → Option System
poll_by (waiting since) s = some (
    if s.gate.in_flight
    then record s { gate = record s.gate { queued = true }; block = waiting since }
    else record s { gate = record s.gate { queued = false }; block = applying since })
poll_by _ s = none

-- An `acquire` that is cancelled leaves the queue and drops its guard too.
unfoldable pub release_by : BlockTask → System → Option System
release_by block_idle s = none
release_by (waiting since) s =
    some (record s { gate = record (drop_guard s.gate) { queued = false }; block = block_idle })
release_by (applying since) s = some (record s { gate = drop_guard s.gate; block = block_idle })

abbrev pub locked : Option BlockGate → System → Option System
locked none s = none
locked (some gate) s = some (record s { gate = gate; tick = claimed })

unfoldable pub claim_by : TickTask → System → Option System
claim_by tick_idle s = locked (try_lock s.gate) s
claim_by _ s = none

unfoldable pub check_by : TickTask → System → Option System
check_by claimed s =
    let (gate, leased) = check_lease s.now s.gate in
    some (record s { gate = gate; tick = if leased then flushing else tick_idle })
check_by _ s = none

unfoldable pub flushed_by : TickTask → System → Option System
flushed_by flushing s = some (record s { gate = drop_lease s.gate; tick = tick_idle })
flushed_by _ s = none

unfoldable pub step : GateEvent → System → Option System
step (elapse d) s = some (record s { now = s.now + d })
step begin_acquire s = begin_by s.block s
step poll_acquire s = poll_by s.block s
step release s = release_by s.block s
step claim s = claim_by s.tick s
step check s = check_by s.tick s
step finish_flush s = flushed_by s.tick s
step probe s = some (record s { gate = (is_held s.now s.gate).0 })

abbrev pub initial : Time → System
initial now = record { now = now; gate = open_gate; block = block_idle; tick = tick_idle }

-- The states that interleavings of the two tasks lead to.
pub data Reachable : System → Type 0 where
  started : (now : Time) → Reachable (initial now)
  stepped : {s s' : System} (e : GateEvent) → Reachable s → step e s ≡ some s' → Reachable s'
