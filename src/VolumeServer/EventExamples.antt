-- ===== src/VolumeServer/EventExamples.antt =====
-- Two events, of which one lies in the window of the filter.
use ceph_provider.Prelude.{ℕ, true, some, [], ◌∷◌, arith}
use ceph_provider.Exec.{ok}
use ceph_provider.Api.Meta.{with_id}
use ceph_provider.External.{AnnotationUtils, Event}
use ceph_provider.VolumeServer.Events.{EventFilter, list_events}
use ceph_provider.VolumeServer.EventLists.{Selected, Lists, list_events-Lists}

abbrev utils : AnnotationUtils
utils = record {
  get_labels_annotation = λ m key. ok [];
  get_annotations_annotation = λ m key. ok [];
}

abbrev event_at : ℕ → Event
event_at t = record {
  involved_object_meta = with_id "a";
  reason = "SetWwn";
  message = "";
  kind = "Normal";
  event_time = t;
}

abbrev window : EventFilter
window = record { label_selector = []; events_from_time = 3; events_to_time = 9 }

list_events-Lists_example :
    Lists utils
      (λ s l. true)
      (Selected utils (λ s l. true) (some window))
      (event_at 2 ∷ event_at 5 ∷ [])
      (list_events utils (λ s l. true) (event_at 2 ∷ event_at 5 ∷ []) (some window))
list_events-Lists_example =
    list_events-Lists utils (λ s l. true) (event_at 2 ∷ event_at 5 ∷ []) (some window) (omega arith)
      (omega arith)
