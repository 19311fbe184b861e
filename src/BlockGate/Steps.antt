-- ===== src/BlockGate/Steps.antt =====
-- api/src/infra/block_gate.rs: what each step of a task makes of the gate.
use cluster_mempool_observer.Base.{
  ℕ, ◌+◌, ◌≤◌, ◌≡◌, ◌≢◌, refl, sym, subst, ◌∙◌, Bool, true, false, ◌||◌, ◌⊎◌, inl, inr, Option,
  none, some, Time, arith, if◌then◌else◌, Bool-cases,
}
use cluster_mempool_observer.BlockGate.{
  max_hold, BlockGate, within_hold, is_held, shut, drop_guard, try_lock, check_lease, drop_lease,
  BlockTask, block_idle, waiting, applying, TickTask, tick_idle, claimed, flushing, System,
  begin_by, poll_by, release_by, claim_by, check_by, flushed_by,
}

-- The gate is shut since the block shut it, or that is too long ago.
abbrev pub IsShut : Time → Option Time → Time → Type 0
IsShut now held since = (held ≡ some since) ⊎ ((held ≡ none) × (since + max_hold ≤ now))

abbrev pub has_lock : TickTask → Bool
has_lock tick_idle = false
has_lock claimed = true
has_lock flushing = true

-- What the gate is, wherever the block's task is.
abbrev pub GateFits : Time → Option Time → BlockTask → TickTask → Type 0
GateFits now held block_idle tick = held ≡ none
GateFits now held (waiting since) tick = (since ≤ now) × IsShut now held since
GateFits now held (applying since) tick =
    (since ≤ now) × IsShut now held since × (tick ≡ flushing → since + max_hold ≤ now)

abbrev pub IsFit : System → Type 0
IsFit s = (s.gate.in_flight ≡ has_lock s.tick) × GateFits s.now s.gate.held_since s.block s.tick

IsShut-elapse :
    (now d : ℕ) (held : Option Time) (since : Time)
    → IsShut now held since
    → IsShut (now + d) held since
IsShut-elapse now d held since (inl shut) = inl shut
IsShut-elapse now d held since (inr gone) = inr (gone.0, omega arith)

pub GateFits-elapse :
    (now d : ℕ) (held : Option Time) (block : BlockTask) (tick : TickTask)
    → GateFits now held block tick
    → GateFits (now + d) held block tick
GateFits-elapse now d held block_idle tick h = h
GateFits-elapse now d held (waiting since) tick h =
    (omega arith, IsShut-elapse now d held since h.1)
GateFits-elapse now d held (applying since) tick h =
    (omega arith, IsShut-elapse now d held since h.1, λ e. let past = h.2 e in omega arith)

-- A gate that is found open while a block holds it has been held too long.
expired :
    (now : Time) (held : Option Time) (since : Time)
    → within_hold now held ≡ false
    → IsShut now held since
    → since + max_hold ≤ now
expired now held since late (inl shut) =
    let past : within_hold now (some since) ≡ false = rw shut at late in ground arith
expired now held since late (inr gone) = gone.1

-- Looking at the gate, which may clear it.
GateFits-cleared :
    (now : ℕ) (held : Option Time) (block : BlockTask) (tick : TickTask)
    → within_hold now held ≡ false
    → GateFits now held block tick
    → GateFits now none block tick
GateFits-cleared now held block_idle tick late h = refl
GateFits-cleared now held (waiting since) tick late h =
    (h.0, inr (refl, expired now held since late h.1))
GateFits-cleared now held (applying since) tick late h =
    (h.0, inr (refl, expired now held since late h.1), h.2)

pub GateFits-probe :
    (now : ℕ) (gate : BlockGate) (block : BlockTask) (tick : TickTask)
    → GateFits now gate.held_since block tick
    → GateFits now (is_held now gate).0.held_since block tick
unfolding is_held
GateFits-probe now gate block tick h = elim (Bool-cases (within_hold now gate.held_since)) [
  | inl held ↦ rw held h
  | inr late ↦ rw late (GateFits-cleared now gate.held_since block tick late h)
]

-- A tick that is not flushing.
GateFits-paused :
    (now : ℕ) (held : Option Time) (block : BlockTask) (tick tick' : TickTask)
    → tick' ≢ flushing
    → GateFits now held block tick
    → GateFits now held block tick'
GateFits-paused now held block_idle tick tick' n h = h
GateFits-paused now held (waiting since) tick tick' n h = h
GateFits-paused now held (applying since) tick tick' n h = (h.0, h.1, λ e. absurd (n e))

-- A tick that found the gate open.
GateFits-flushing :
    (now : ℕ) (held : Option Time) (block : BlockTask) (tick : TickTask)
    → within_hold now held ≡ false
    → GateFits now held block tick
    → GateFits now none block flushing
GateFits-flushing now held block_idle tick late h = refl
GateFits-flushing now held (waiting since) tick late h =
    (h.0, inr (refl, expired now held since late h.1))
GateFits-flushing now held (applying since) tick late h =
    let past = expired now held since late h.1 in (h.0, inr (refl, past), λ e. past)

tick_idle-≢ : tick_idle ≢ flushing
tick_idle-≢ e = absurd (ground arith)

claimed-≢ : claimed ≢ flushing
claimed-≢ e = absurd (ground arith)

pub begin_by-IsFit :
    (b : BlockTask) (s s' : System)
    → s.gate.in_flight ≡ has_lock s.tick
    → begin_by b s ≡ some s'
    → IsFit s'
unfolding begin_by shut
begin_by-IsFit block_idle s s' l h =
    let now : System = record s { gate = shut s.now s.gate; block = waiting s.now } in
    let e : now ≡ s' = cc in subst IsFit e (l, (omega arith, inl refl))
begin_by-IsFit (waiting since) s s' l h = absurd (ground arith)
begin_by-IsFit (applying since) s s' l h = absurd (ground arith)

free-≢ : (tick : TickTask) → has_lock tick ≡ false → tick ≢ flushing
free-≢ tick_idle f e = tick_idle-≢ e
free-≢ claimed f e = absurd (ground arith)
free-≢ flushing f e = absurd (ground arith)

polled :
    (taken : Bool) (joined through s' : System)
    → some (if taken then joined else through) ≡ some s'
    → ((taken ≡ true) × (joined ≡ s')) ⊎ ((taken ≡ false) × (through ≡ s'))
polled true joined through s' h = inl (refl, cc)
polled false joined through s' h = inr (refl, cc)

pub poll_by-IsFit :
    (b : BlockTask) (s s' : System)
    → s.gate.in_flight ≡ has_lock s.tick
    → GateFits s.now s.gate.held_since b s.tick
    → poll_by b s ≡ some s'
    → IsFit s'
unfolding poll_by
poll_by-IsFit block_idle s s' l g h = absurd (ground arith)
poll_by-IsFit (applying since) s s' l g h = absurd (ground arith)
poll_by-IsFit (waiting since) s s' l g h =
    let joined : System = record s {
      gate = record s.gate { queued = true };
      block = waiting since;
    } in
    let through : System = record s {
      gate = record s.gate { queued = false };
      block = applying since;
    } in
    elim (polled s.gate.in_flight joined through s' h) [
      | inl (taken, e) ↦ subst IsFit e (l, g)
      | inr (free, e) ↦
          let rest : has_lock s.tick ≡ false = sym l ∙ free in
          subst IsFit e (l, (g.0, g.1, λ f. absurd (free-≢ s.tick rest f)))
    ]

pub release_by-IsFit :
    (b : BlockTask) (s s' : System)
    → s.gate.in_flight ≡ has_lock s.tick
    → release_by b s ≡ some s'
    → IsFit s'
unfolding release_by drop_guard
release_by-IsFit block_idle s s' l h = absurd (ground arith)
release_by-IsFit (waiting since) s s' l h =
    let now : System = record s {
      gate = record (drop_guard s.gate) { queued = false };
      block = block_idle;
    } in
    let e : now ≡ s' = cc in subst IsFit e (l, refl)
release_by-IsFit (applying since) s s' l h =
    let now : System = record s { gate = drop_guard s.gate; block = block_idle } in
    let e : now ≡ s' = cc in subst IsFit e (l, refl)

pub claim_by-IsFit :
    (t : TickTask) (s s' : System)
    → GateFits s.now s.gate.held_since s.block s.tick
    → claim_by t s ≡ some s'
    → IsFit s'
unfolding claim_by try_lock
claim_by-IsFit claimed s s' g h = absurd (ground arith)
claim_by-IsFit flushing s s' g h = absurd (ground arith)
claim_by-IsFit tick_idle s s' g h = elim (Bool-cases (s.gate.in_flight || s.gate.queued)) [
  | inl taken ↦ let no : none ≡ some s' = rw taken at h in absurd (ground arith)
  | inr free ↦
      let now : System = record s { gate = record s.gate { in_flight = true }; tick = claimed } in
      let same : some now ≡ some s' = rw free at h in
      let e : now ≡ s' = cc in
      subst IsFit e
        (refl, GateFits-paused s.now s.gate.held_since s.block s.tick claimed claimed-≢ g)
]

pub check_by-IsFit :
    (t : TickTask) (s s' : System)
    → s.gate.in_flight ≡ has_lock t
    → GateFits s.now s.gate.held_since s.block s.tick
    → check_by t s ≡ some s'
    → IsFit s'
unfolding check_by check_lease is_held
check_by-IsFit tick_idle s s' l g h = absurd (ground arith)
check_by-IsFit flushing s s' l g h = absurd (ground arith)
check_by-IsFit claimed s s' l g h = elim (Bool-cases (within_hold s.now s.gate.held_since)) [
  | inl held ↦
      let now : System = record s {
        gate = record s.gate { in_flight = false };
        tick = tick_idle;
      } in
      let same : some now ≡ some s' = rw held at h in
      let e : now ≡ s' = cc in
      subst IsFit e
        (refl, GateFits-paused s.now s.gate.held_since s.block s.tick tick_idle tick_idle-≢ g)
  | inr late ↦
      let now : System = record s { gate = record s.gate { held_since = none }; tick = flushing } in
      let same : some now ≡ some s' = rw late at h in
      let e : now ≡ s' = cc in
      subst IsFit e (l, GateFits-flushing s.now s.gate.held_since s.block s.tick late g)
]

pub flushed_by-IsFit :
    (t : TickTask) (s s' : System)
    → GateFits s.now s.gate.held_since s.block s.tick
    → flushed_by t s ≡ some s'
    → IsFit s'
unfolding flushed_by drop_lease
flushed_by-IsFit tick_idle s s' g h = absurd (ground arith)
flushed_by-IsFit claimed s s' g h = absurd (ground arith)
flushed_by-IsFit flushing s s' g h =
    let now : System = record s { gate = drop_lease s.gate; tick = tick_idle } in
    let e : now ≡ s' = cc in
    subst IsFit e
      (refl, GateFits-paused s.now s.gate.held_since s.block s.tick tick_idle tick_idle-≢ g)

pub in_flight-is_held :
    (now : Time) (gate : BlockGate) → (is_held now gate).0.in_flight ≡ gate.in_flight
unfolding is_held
in_flight-is_held now gate = elim (Bool-cases (within_hold now gate.held_since)) [
  | inl held ↦ rw held refl
  | inr late ↦ rw late refl
]
