-- ===== src/NodeHealth/Reports.antt =====
-- api/src/services/node_health.rs: what the rows of system events say of the node.
use cluster_mempool_observer.Base.{
  ℕ, Bool, true, false, ◌≡◌, refl, ◌∙◌, ap, List, [], ◌∷◌, ◌++◌, map, Option, none, some,
  if◌then◌else◌, Bool-cases, inl, inr,
}
use cluster_mempool_observer.NodeHealth.{
  Reachability, unknown, reachable, unreachable, Lifecycle, SystemEvent, lifecycle, node_connected,
  node_disconnected, node_version_changed, NetworkInfo, NodeStatus, told_reachable,
  told_unreachable, Meeting, Health, is_same, transition, record_event, latest_version, is_version,
  check_version, check_known, subversion_of, observe_reachable, observe_unreachable, observe,
  consume,
}

-- What the last row about the node's reachability says.
abbrev pub said : List SystemEvent → Reachability
said [] = unknown
said (lifecycle k ∷ events) = said events
said (node_connected blocks headers subversion ∷ events) = reachable
said (node_disconnected cause ∷ events) = unreachable
said (node_version_changed from to version ∷ events) = said events

-- The node connects only where it was not connected, and disconnects only where it was not disconnected.
abbrev pub IsAlternating : List SystemEvent → Type 0
IsAlternating [] = Unit {0}
IsAlternating (lifecycle k ∷ events) = IsAlternating events
IsAlternating (node_connected blocks headers subversion ∷ events) =
    (is_same (said events) reachable ≡ false) × IsAlternating events
IsAlternating (node_disconnected cause ∷ events) =
    (is_same (said events) unreachable ≡ false) × IsAlternating events
IsAlternating (node_version_changed from to version ∷ events) = IsAlternating events

-- Each change of version is from that of the change before it, and to another.
abbrev pub IsChained : List SystemEvent → Type 0
IsChained [] = Unit {0}
IsChained (lifecycle k ∷ events) = IsChained events
IsChained (node_connected blocks headers subversion ∷ events) = IsChained events
IsChained (node_disconnected cause ∷ events) = IsChained events
IsChained (node_version_changed from to version ∷ events) =
    (from ≡ latest_version events) × (is_version to from ≡ false) × IsChained events

-- The rows alternate, and the state is what the last of them says.
abbrev pub Tells : Reachability → List SystemEvent → Type 0
Tells last events = (said events ≡ last) × IsAlternating events

abbrev pub AreWritten : List (NodeStatus × Meeting) → Type 0
AreWritten [] = Unit {0}
AreWritten (told ∷ stream) = (told.1.event_write_fails ≡ false) × AreWritten stream

abbrev pub AreRead : List (NodeStatus × Meeting) → Type 0
AreRead [] = Unit {0}
AreRead (told ∷ stream) = (told.1.version_read_fails ≡ false) × AreRead stream

if-either : {A : Type 0} (P : A → Type 0) (b : Bool) (x y : A) → P x → P y → P (if b then x else y)
if-either P true x y p q = p
if-either P false x y p q = q

check_known-Tells :
    (m : Meeting) (known : Option NetworkInfo) (last : Reachability) (events : List SystemEvent)
    → Tells last events
    → Tells last (check_known m known events)
unfolding check_known check_version record_event
check_known-Tells m none last events t = t
check_known-Tells m (some info) last events t =
    let from = if m.version_read_fails then none else latest_version events in
    let event = node_version_changed from info.subversion info.version in
    if-either (Tells last) (is_version info.subversion from) events
      (if m.version_write_fails then events else event ∷ events) t
      (if-either (Tells last) m.version_write_fails events (event ∷ events) t t)

record_event-Tells :
    (fails : Bool) (event : SystemEvent) (last : Reachability) (events : List SystemEvent)
    → fails ≡ false
    → Tells last (event ∷ events)
    → Tells last (record_event fails event events)
unfolding record_event
record_event-Tells fails event last events w t = rw w t

connects :
    (m : Meeting) (blocks headers : ℕ) (last : Reachability) (events : List SystemEvent)
    → m.event_write_fails ≡ false
    → Tells last events
    → is_same last reachable ≡ false
    → Tells reachable (
        check_known m m.network_info (
          record_event m.event_write_fails
            (node_connected blocks headers (subversion_of m.network_info))
            events))
connects m blocks headers last events w t changed =
    let event = node_connected blocks headers (subversion_of m.network_info) in
    check_known-Tells m m.network_info reachable (record_event m.event_write_fails event events) (
      record_event-Tells m.event_write_fails event reachable events w
        (refl, (ap (λ s. is_same s reachable) t.0 ∙ changed, t.1)))

disconnects :
    (m : Meeting) (cause : ℕ) (last : Reachability) (events : List SystemEvent)
    → m.event_write_fails ≡ false
    → Tells last events
    → is_same last unreachable ≡ false
    → Tells unreachable (record_event m.event_write_fails (node_disconnected cause) events)
disconnects m cause last events w t changed =
    record_event-Tells m.event_write_fails (node_disconnected cause) unreachable events w
      (refl, (ap (λ s. is_same s unreachable) t.0 ∙ changed, t.1))

observe-Tells :
    (m : Meeting) (told : NodeStatus) (last : Reachability) (events : List SystemEvent)
    → m.event_write_fails ≡ false
    → Tells last events
    → let h = observe m told (record { last = last; events = events }) in Tells h.last h.events
unfolding observe observe_reachable observe_unreachable transition is_same
observe-Tells m (told_reachable blocks headers) unknown events w t =
    connects m blocks headers unknown events w t refl
observe-Tells m (told_reachable blocks headers) reachable events w t = t
observe-Tells m (told_reachable blocks headers) unreachable events w t =
    connects m blocks headers unreachable events w t refl
observe-Tells m (told_unreachable cause) unknown events w t =
    disconnects m cause unknown events w t refl
observe-Tells m (told_unreachable cause) reachable events w t =
    disconnects m cause reachable events w t refl
observe-Tells m (told_unreachable cause) unreachable events w t = t

-- While the rows that say so can be written, the connections and disconnections recorded alternate and
-- the last-known state is what the last of them says, if this was so before: the node is never told to
-- connect or disconnect twice in a row, whatever is reported and whatever other services record.
pub consume-Tells :
    (stream : List (NodeStatus × Meeting)) (h : Health)
    → AreWritten stream
    → Tells h.last h.events
    → let h' = consume stream h in Tells h'.last h'.events
unfolding consume
consume-Tells [] h w t = t
consume-Tells (told ∷ stream) h w t =
    let others = map lifecycle told.1.others in
    let h' = observe told.1 told.0 record h { events = others ++ h.events } in
    consume-Tells stream h' w.1
      (observe-Tells told.1 told.0 h.last (others ++ h.events) w.0 (go told.1.others))
  where
    go : (others : List Lifecycle) → Tells h.last (map lifecycle others ++ h.events)
    go [] = t
    go (k ∷ others) = go others

check_version-IsChained :
    (m : Meeting) (info : NetworkInfo) (events : List SystemEvent)
    → m.version_read_fails ≡ false
    → IsChained events
    → IsChained (check_version m info events)
unfolding check_version record_event
check_version-IsChained m info events r c =
    rw r (elim (Bool-cases (is_version info.subversion (latest_version events))) [
      | inl same ↦ rw same c
      | inr other ↦
          let event = node_version_changed (latest_version events) info.subversion info.version in
          rw other
            (if-either IsChained m.version_write_fails events (event ∷ events) c (refl, other, c))
    ])

check_known-IsChained :
    (m : Meeting) (known : Option NetworkInfo) (events : List SystemEvent)
    → m.version_read_fails ≡ false
    → IsChained events
    → IsChained (check_known m known events)
unfolding check_known
check_known-IsChained m none events r c = c
check_known-IsChained m (some info) events r c = check_version-IsChained m info events r c

observe-IsChained :
    (m : Meeting) (told : NodeStatus) (h : Health)
    → m.version_read_fails ≡ false
    → IsChained h.events
    → IsChained (observe m told h).events
unfolding observe observe_reachable observe_unreachable record_event
observe-IsChained m (told_reachable blocks headers) h r c =
    let event = node_connected blocks headers (subversion_of m.network_info) in
    let p = transition reachable h.last in
    let events = check_known m m.network_info (record_event m.event_write_fails event h.events) in
    if-either (λ h'. IsChained h'.events) p.0 (record { last = p.1; events = events }) h
      (check_known-IsChained m m.network_info (record_event m.event_write_fails event h.events) r
        (if-either IsChained m.event_write_fails h.events (event ∷ h.events) c c))
      c
observe-IsChained m (told_unreachable cause) h r c =
    let event = node_disconnected cause in
    let p = transition unreachable h.last in
    let events = record_event m.event_write_fails event h.events in
    if-either (λ h'. IsChained h'.events) p.0 (record { last = p.1; events = events }) h
      (if-either IsChained m.event_write_fails h.events (event ∷ h.events) c c) c

-- While the last change of version can be read, each change that is recorded is from the version that the
-- change before it went to, and to another one, if this was so before, whatever rows are lost.
pub consume-IsChained :
    (stream : List (NodeStatus × Meeting)) (h : Health)
    → AreRead stream
    → IsChained h.events
    → IsChained (consume stream h).events
unfolding consume
consume-IsChained [] h r c = c
consume-IsChained (told ∷ stream) h r c =
    let others = map lifecycle told.1.others in
    let h' = observe told.1 told.0 record h { events = others ++ h.events } in
    consume-IsChained stream h' r.1 (
      observe-IsChained told.1 told.0 record h { events = others ++ h.events } r.0
        (go told.1.others))
  where
    go : (others : List Lifecycle) → IsChained (map lifecycle others ++ h.events)
    go [] = c
    go (k ∷ others) = go others
