-- ===== src/NodeHealth.antt =====
-- api/src/services/node_health.rs, and `consume` of api/src/services/node_status.rs: the health of the
-- node as it is told, and the rows of system events that record its changes. The texts of errors and
-- versions are only compared and stored: they are modelled by numbers.
pub mod Reports
use cluster_mempool_observer.Base.{
  ℕ, Bool, true, false, List, [], ◌∷◌, ◌++◌, map, Option, none, some, ◌==◌, if◌then◌else◌,
}

pub data Reachability : Type 0 where
  unknown reachable unreachable : Reachability

-- The kinds that other services record, whose details are not read.
pub data Lifecycle : Type 0 where
  server_started server_stopped bootstrap_started bootstrap_completed : Lifecycle

-- A row of system_events: its kind and its details.
pub data SystemEvent : Type 0 where
  lifecycle : Lifecycle → SystemEvent
  node_connected : (blocks headers : ℕ) → (subversion : Option ℕ) → SystemEvent
  node_disconnected : (cause : ℕ) → SystemEvent
  node_version_changed : (from : Option ℕ) → (to version : ℕ) → SystemEvent

pub record NetworkInfo : Type 0 where
  pub subversion : ℕ
  pub version : ℕ

-- `NodeStatusEvent`.
pub data NodeStatus : Type 0 where
  told_reachable : (blocks headers : ℕ) → NodeStatus
  told_unreachable : (cause : ℕ) → NodeStatus

-- What one report of the node's status meets: what other services recorded before it, the node's answer to
-- `get_network_info`, if it succeeds, and which statements of the database fail.
pub record Meeting : Type 0 where
  pub others : List Lifecycle
  pub network_info : Option NetworkInfo
  pub event_write_fails : Bool
  pub version_read_fails : Bool
  pub version_write_fails : Bool

-- The last-known state, and the rows, the last one recorded first.
pub record Health : Type 0 where
  pub last : Reachability
  pub events : List SystemEvent

unfoldable pub is_same : Reachability → Reachability → Bool
is_same unknown unknown = true
is_same unknown reachable = false
is_same unknown unreachable = false
is_same reachable unknown = false
is_same reachable reachable = true
is_same reachable unreachable = false
is_same unreachable unknown = false
is_same unreachable reachable = false
is_same unreachable unreachable = true

-- Whether the observation changed the state, and the state.
unfoldable pub transition : Reachability → Reachability → Bool × Reachability
transition observed last = if is_same last observed then (false, last) else (true, observed)

-- `record`, which only logs a failure.
unfoldable pub record_event : Bool → SystemEvent → List SystemEvent → List SystemEvent
record_event fails event events = if fails then events else event ∷ events

-- `latest_of_kind` of the changes of version, and the `to` of the row.
unfoldable pub latest_version : List SystemEvent → Option ℕ
latest_version [] = none
latest_version (lifecycle k ∷ events) = latest_version events
latest_version (node_connected blocks headers subversion ∷ events) = latest_version events
latest_version (node_disconnected cause ∷ events) = latest_version events
latest_version (node_version_changed from to version ∷ events) = some to

unfoldable pub is_version : ℕ → Option ℕ → Bool
is_version subversion none = false
is_version subversion (some from) = from == subversion

-- A version that cannot be read counts as none.
unfoldable pub check_version : Meeting → NetworkInfo → List SystemEvent → List SystemEvent
check_version m info events =
    let from = if m.version_read_fails then none else latest_version events in
    if is_version info.subversion from
    then events
    else record_event m.version_write_fails (node_version_changed from info.subversion info.version)
        events

abbrev pub subversion_of : Option NetworkInfo → Option ℕ
subversion_of none = none
subversion_of (some info) = some info.subversion

unfoldable pub check_known : Meeting → Option NetworkInfo → List SystemEvent → List SystemEvent
check_known m none events = events
check_known m (some info) events = check_version m info events

unfoldable pub observe_reachable : Meeting → ℕ → ℕ → Health → Health
observe_reachable m blocks headers h =
    let p = transition reachable h.last in
    let event = node_connected blocks headers (subversion_of m.network_info) in
    if p.0
    then record {
      last = p.1;
      events = check_known m m.network_info (record_event m.event_write_fails event h.events);
    }
    else h

unfoldable pub observe_unreachable : Meeting → ℕ → Health → Health
observe_unreachable m cause h =
    let p = transition unreachable h.last in
    if p.0
    then record {
      last = p.1;
      events = record_event m.event_write_fails (node_disconnected cause) h.events;
    }
    else h

unfoldable pub observe : Meeting → NodeStatus → Health → Health
observe m (told_reachable blocks headers) h = observe_reachable m blocks headers h
observe m (told_unreachable cause) h = observe_unreachable m cause h

unfoldable pub consume : List (NodeStatus × Meeting) → Health → Health
consume [] h = h
consume (told ∷ stream) h =
    consume stream
      (observe told.1 told.0 record h { events = map lifecycle told.1.others ++ h.events })
