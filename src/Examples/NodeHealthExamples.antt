-- ===== src/Examples/NodeHealthExamples.antt =====
-- api/src/services/node_health.rs: a stream of reports, and the theorems at it.
use cluster_mempool_observer.Base.{false, ◌≡◌, refl, List, [], ◌∷◌, none, some}
use cluster_mempool_observer.NodeHealth.{
  unknown, bootstrap_completed, lifecycle, node_connected, node_disconnected, node_version_changed,
  NodeStatus, told_reachable, told_unreachable, Meeting, Health, is_same, transition, record_event,
  latest_version, is_version, check_version, check_known, observe_reachable, observe_unreachable,
  observe, consume,
}
use cluster_mempool_observer.NodeHealth.Reports.{Tells, IsChained, consume-Tells, consume-IsChained}

abbrev answers : Meeting
answers = record {
  others = [];
  network_info = some (record { subversion = 30; version = 300000 });
  event_write_fails = false;
  version_read_fails = false;
  version_write_fails = false;
}

abbrev upgraded : Meeting
upgraded = record answers {
  others = bootstrap_completed ∷ [];
  network_info = some (record { subversion = 31; version = 310000 });
}

abbrev stream : List (NodeStatus × Meeting)
stream =
    (told_reachable 5 6, answers)
    ∷ (told_reachable 6 6, answers)
    ∷ (told_unreachable 1, answers)
    ∷ (told_unreachable 2, answers)
    ∷ (told_reachable 7 7, upgraded)
    ∷ []

abbrev at_start : Health
at_start = record { last = unknown; events = [] }

stream_events :
    (consume stream at_start).events
    ≡ node_version_changed (some 30) 31 310000
      ∷ node_connected 7 7 (some 31)
      ∷ lifecycle bootstrap_completed
      ∷ node_disconnected 1
      ∷ node_version_changed none 30 300000
      ∷ node_connected 5 6 (some 30)
      ∷ []
unfolding consume observe observe_reachable observe_unreachable transition is_same record_event
    check_known check_version latest_version is_version
stream_events = refl

consume-Tells_example : Tells (consume stream at_start).last (consume stream at_start).events
consume-Tells_example =
    consume-Tells stream at_start (refl, (refl, (refl, (refl, (refl, tt))))) (refl, tt)

consume-IsChained_example : IsChained (consume stream at_start).events
consume-IsChained_example =
    consume-IsChained stream at_start (refl, (refl, (refl, (refl, (refl, tt))))) tt
