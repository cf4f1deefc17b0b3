-- ===== src/VolumeServer/Events.antt =====
-- event_list.go of internal/volumeserver, over the events that the event store lists.
use ceph_provider.Prelude.{
  ℕ, String, Bool, Option, none, some, List, [], ◌∷◌, Map, ◌&&◌, ◌||◌, if◌then◌else◌,
}
use ceph_provider.Prelude.Words.{int64_lt}
use ceph_provider.Errors.{wrap, convert_internal_error_to_grpc}
use ceph_provider.Exec.{Result, ok, err}
use ceph_provider.Api.{labels_annotation}
use ceph_provider.ApiUtils.{ObjectMetadata, get_object_metadata}
use ceph_provider.External.{AnnotationUtils, Event}

-- iri.EventFilter
pub record EventFilter : Type 0 where
  pub label_selector : Map String
  pub events_from_time : ℕ
  pub events_to_time : ℕ

-- irievent.EventSpec
pub record IriEvent : Type 0 where
  pub involved_object_meta : ObjectMetadata
  pub reason : String
  pub message : String
  pub kind : String
  pub event_time : ℕ

-- Whether a time lies outside the window of a filter that has both its ends.
unfoldable pub is_outside : EventFilter → ℕ → Bool
is_outside filter time =
    (int64_lt 0 filter.events_from_time && int64_lt 0 filter.events_to_time)
    && (int64_lt time filter.events_from_time || int64_lt filter.events_to_time time)

module _ (utils : AnnotationUtils) (matches : Map String → Map String → Bool) where
  -- The loop of filterEvents.
  unfoldable pub select_events : EventFilter → List Event → List Event
  unfolding is_outside
  select_events filter [] = []
  select_events filter (event ∷ events) =
      let rest = select_events filter events in
      elim (utils.get_labels_annotation event.involved_object_meta labels_annotation) [
        | err e ↦ rest
        | ok labels ↦
            if matches filter.label_selector labels
            then (if is_outside filter event.event_time then rest else event ∷ rest)
            else rest
      ]

  unfoldable pub filter_events : List Event → Option EventFilter → List Event
  unfolding select_events
  filter_events events none = events
  filter_events events (some filter) = select_events filter events

  abbrev pub iri_event : Event → ObjectMetadata → IriEvent
  iri_event event metadata = record {
    involved_object_meta = metadata;
    reason = event.reason;
    message = event.message;
    kind = event.kind;
    event_time = event.event_time;
  }

  unfoldable pub convert_event_to_iri_event : List Event → Result (List IriEvent)
  unfolding get_object_metadata
  convert_event_to_iri_event [] = ok []
  convert_event_to_iri_event (event ∷ events) =
      let rest = convert_event_to_iri_event events in
      elim (get_object_metadata utils event.involved_object_meta) [
        | err e ↦ err (wrap "failed to get object metadata" e)
        | ok metadata ↦ elim rest [
          | err e ↦ err e
          | ok others ↦ ok (iri_event event metadata ∷ others)
        ]
      ]

  -- ListEvents, of the events that the store has.
  unfoldable pub list_events : List Event → Option EventFilter → Result (List IriEvent)
  unfolding filter_events convert_event_to_iri_event convert_internal_error_to_grpc
  list_events events filter = elim (convert_event_to_iri_event (filter_events events filter)) [
    | err e ↦ err (convert_internal_error_to_grpc e)
    | ok listed ↦ ok listed
  ]
