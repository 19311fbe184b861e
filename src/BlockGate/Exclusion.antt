-- ===== src/BlockGate/Exclusion.antt =====
-- api/src/infra/block_gate.rs: a tick and a block that is applied, in every interleaving.
use cluster_mempool_observer.Base.{
  ◌+◌, ◌<◌, ◌≡◌, ◌≢◌, refl, subst, ◌∙◌, true, false, none, some, Time, arith,
}
use cluster_mempool_observer.BlockGate.{
  max_hold, within_hold, is_held, try_lock, check_lease, applying, tick_idle, claimed, flushing,
  System, GateEvent, elapse, begin_acquire, poll_acquire, release, claim, check, finish_flush,
  probe, claim_by, check_by, step, Reachable, started, stepped,
}
use cluster_mempool_observer.BlockGate.Steps.{
  GateFits, IsFit, GateFits-elapse, GateFits-probe, begin_by-IsFit, poll_by-IsFit, release_by-IsFit,
  claim_by-IsFit, check_by-IsFit, flushed_by-IsFit, in_flight-is_held,
}

step-IsFit : (e : GateEvent) (s s' : System) → IsFit s → step e s ≡ some s' → IsFit s'
unfolding step
step-IsFit (elapse d) s s' v h =
    let now : System = record s { now = s.now + d } in
    let e : now ≡ s' = cc in
    subst IsFit e (v.0, GateFits-elapse s.now d s.gate.held_since s.block s.tick v.1)
step-IsFit begin_acquire s s' v h = begin_by-IsFit s.block s s' v.0 h
step-IsFit poll_acquire s s' v h = poll_by-IsFit s.block s s' v.0 v.1 h
step-IsFit release s s' v h = release_by-IsFit s.block s s' v.0 h
step-IsFit claim s s' v h = claim_by-IsFit s.tick s s' v.1 h
step-IsFit check s s' v h = check_by-IsFit s.tick s s' v.0 v.1 h
step-IsFit finish_flush s s' v h = flushed_by-IsFit s.tick s s' v.1 h
step-IsFit probe s s' v h =
    let now : System = record s { gate = (is_held s.now s.gate).0 } in
    let e : now ≡ s' = cc in
    subst IsFit e
      (in_flight-is_held s.now s.gate ∙ v.0, GateFits-probe s.now s.gate s.block s.tick v.1)

Reachable-IsFit : (s : System) → Reachable s → IsFit s
Reachable-IsFit _ (started now) = (refl, refl)
Reachable-IsFit s' (stepped {s} e r h) = step-IsFit e s s' (Reachable-IsFit s r) h

-- In every state that the two tasks can reach, while a block is applied and the gate was shut for it
-- less than the limit ago, counted from before its wait, no tick is flushing.
pub applying-excludes_flush :
    (s : System) (since : Time)
    → Reachable s
    → s.block ≡ applying since
    → s.now < since + max_hold
    → s.tick ≢ flushing
applying-excludes_flush s since r at recent flush =
    let v = Reachable-IsFit s r in
    let fits : GateFits s.now s.gate.held_since (applying since) s.tick =
      subst (λ b. GateFits s.now s.gate.held_since b s.tick) at v.1 in
    let past = fits.2 flush in absurd (omega arith)

-- In every state that the two tasks can reach in which no tick has the lock and no block is in its queue, a
-- tick that claims the gate and looks at it gets to flush, if no block has shut the gate or one did the
-- limit ago or longer.
pub claim-gets_to_flush :
    (s : System)
    → Reachable s
    → s.tick ≡ tick_idle
    → s.gate.queued ≡ false
    → within_hold s.now s.gate.held_since ≡ false
    → (leased : System) × (flushes : System) × (step claim s ≡ some leased)
      × (step check leased ≡ some flushes)
      × (flushes.tick ≡ flushing)
unfolding step
claim-gets_to_flush s r idle empty late =
    let v = Reachable-IsFit s r in
    let free : s.gate.in_flight ≡ false = v.0 ∙ rw idle refl in
    let leased : System = record s { gate = record s.gate { in_flight = true }; tick = claimed } in
    let flushes : System = record leased {
      gate = record leased.gate { held_since = none };
      tick = flushing;
    } in
    (
      leased,
      flushes,
      (rw idle (unfold claim_by try_lock in rw (free, empty) refl)),
      (unfold check_by check_lease is_held in rw late refl),
      refl,
    )
