-- ===== src/VolumeServer/EventLists.antt =====
-- Which events ListEvents of internal/volumeserver gives, at times that are not negative.
use ceph_provider.Prelude.{
  ℕ, ◌+◌, ◌%◌, ◌≤◌, ◌<◌, String, Bool, true, false, Option, none, some, List, [], ◌∷◌, Map, ◌≡◌,
  refl, ltb, Bool-cases, inl, inr, ◌⊎◌, ◌&&◌, ◌||◌, arith, ltb→lt, if◌then◌else◌,
}
use ceph_provider.Prelude.Words.{int64_lt, two_63, two_64}
use ceph_provider.Errors.{Error, wrap, convert_internal_error_to_grpc}
use ceph_provider.Exec.{Result, ok, err}
use ceph_provider.Api.{labels_annotation}
use ceph_provider.ApiUtils.{ObjectMetadata, get_object_metadata}
use ceph_provider.External.{AnnotationUtils, Event}
use ceph_provider.VolumeServer.Events.{
  EventFilter, IriEvent, is_outside, select_events, filter_events, iri_event,
  convert_event_to_iri_event, list_events,
}

-- A time is in the window of a filter unless the filter has both ends and the time is before or after.
abbrev pub InWindow : EventFilter → ℕ → Type 0
InWindow f t =
    0 < f.events_from_time
    → 0 < f.events_to_time
    → (f.events_from_time ≤ t) × (t ≤ f.events_to_time)

-- Numbers below 2 ^ 63 are the int64 that are not negative.
abbrev pub IsTimely : List Event → Type 0
IsTimely [] = Unit
IsTimely (e ∷ es) = (e.event_time < two_63) × IsTimely es

abbrev pub IsTimelyFilter : Option EventFilter → Type 0
IsTimelyFilter none = Unit
IsTimelyFilter (some f) = (f.events_from_time < two_63) × (f.events_to_time < two_63)

int64_lt-ltb : (a b : ℕ) → a < two_63 → b < two_63 → int64_lt a b ≡ ltb a b
int64_lt-ltb a b h k =
    let e : (a + two_63) % two_64 ≡ a + two_63 = omega arith in
    let e' : (b + two_63) % two_64 ≡ b + two_63 = omega arith in rw (e, e') (ground arith)

-- A Boolean that decides the window.
abbrev Decides : Bool → Type 0 → Type 0
Decides b P = ((b ≡ true) × ¬ P) ⊎ ((b ≡ false) × P)

window_cases :
    (from to t : ℕ)
    → Decides
        ((ltb 0 from && ltb 0 to) && (ltb t from || ltb to t))
        (0 < from → 0 < to → (from ≤ t) × (t ≤ to))
window_cases from to t = elim (Bool-cases (ltb 0 from)) [
  | inr n ↦ inr (rw n refl, λ a b. absurd (ground arith))
  | inl y ↦ elim (Bool-cases (ltb 0 to)) [
    | inr n ↦ inr (rw (y, n) refl, λ a b. absurd (ground arith))
    | inl z ↦ elim (Bool-cases (ltb t from)) [
      | inl before ↦
          inl (rw (y, z, before) refl, λ w. ground (arith, w (ltb→lt _ _ y) (ltb→lt _ _ z)))
      | inr n ↦ elim (Bool-cases (ltb to t)) [
        | inl after ↦
            inl (rw (y, z, n, after) refl, λ w. ground (arith, w (ltb→lt _ _ y) (ltb→lt _ _ z)))
        | inr m ↦ inr (rw (y, z, n, m) refl, λ a b. (ground arith, ground arith))
      ]
    ]
  ]
]

is_outside_cases :
    (f : EventFilter) (t : ℕ)
    → f.events_from_time < two_63
    → f.events_to_time < two_63
    → t < two_63
    → Decides (is_outside f t) (InWindow f t)
unfolding is_outside
is_outside_cases f t h k l =
    rw
      (
        int64_lt-ltb 0 f.events_from_time (omega arith) h,
        int64_lt-ltb 0 f.events_to_time (omega arith) k,
        int64_lt-ltb t f.events_from_time l h,
        int64_lt-ltb f.events_to_time t k l,
      )
      (window_cases f.events_from_time f.events_to_time t)

module _ (utils : AnnotationUtils) (matches : Map String → Map String → Bool) where
  -- The events that a request asks for: those whose labels can be read and match, in the window.
  abbrev pub Selected : Option EventFilter → Event → Type 0
  Selected none e = Unit {0}
  Selected (some f) e =
      (labels : Map String) × (utils.get_labels_annotation e.involved_object_meta labels_annotation
        ≡ ok labels)
      × (matches f.label_selector labels ≡ true)
      × InWindow f e.event_time

  abbrev pub unreadable : Error → Error
  unreadable x = convert_internal_error_to_grpc (wrap "failed to get object metadata" x)

  -- What a request for the events that `P` has may return: all of them in their order, or the error
  -- of the first whose metadata cannot be read.
  pub data Lists (P : Event → Type 0) : List Event → Result (List IriEvent) → Type 0 where
    done : Lists P [] (ok [])
    skip :
        {e : Event} {es : List Event} {r : Result (List IriEvent)}
        → ¬ P e
        → Lists P es r
        → Lists P (e ∷ es) r
    keep :
        {e : Event} {es : List Event} {m : ObjectMetadata} {out : List IriEvent}
        → P e
        → get_object_metadata utils e.involved_object_meta ≡ ok m
        → Lists P es (ok out)
        → Lists P (e ∷ es) (ok (iri_event utils matches e m ∷ out))
    broken :
        {e : Event} {es : List Event} {x : Error}
        → P e
        → get_object_metadata utils e.involved_object_meta ≡ err x
        → Lists P (e ∷ es) (err (unreadable x))
    later :
        {e : Event} {es : List Event} {m : ObjectMetadata} {x : Error}
        → P e
        → get_object_metadata utils e.involved_object_meta ≡ ok m
        → Lists P es (err x)
        → Lists P (e ∷ es) (err x)

  abbrev final : Result (List IriEvent) → Result (List IriEvent)
  final r = elim r [ err e ↦ err (convert_internal_error_to_grpc e) | ok listed ↦ ok listed ]

  step :
      {P : Event → Type 0} (e : Event) (es chosen : List Event)
      → P e
      → Lists P es (final (convert_event_to_iri_event utils matches chosen))
      → Lists P (e ∷ es) (final (convert_event_to_iri_event utils matches (e ∷ chosen)))
  unfolding convert_event_to_iri_event
  step {P} e es chosen p l =
      cases (get_object_metadata utils e.involved_object_meta)
        (convert_event_to_iri_event utils matches chosen) refl l
    where
      cases :
          (m : Result ObjectMetadata) (rest : Result (List IriEvent))
          → get_object_metadata utils e.involved_object_meta ≡ m
          → Lists P es (final rest)
          → Lists P (e ∷ es) (
              final (elim m [
                | err x ↦ err (wrap "failed to get object metadata" x)
                | ok metadata ↦ elim rest [
                  | err x ↦ err x
                  | ok others ↦ ok (iri_event utils matches e metadata ∷ others)
                ]
              ]))
      cases (err x) rest h l = broken p h
      cases (ok m) (err x) h l = later p h l
      cases (ok m) (ok out) h l = keep p h l

  all_listed :
      (es : List Event)
      → Lists (Selected none) es (final (convert_event_to_iri_event utils matches es))
  unfolding convert_event_to_iri_event
  all_listed [] = done
  all_listed (e ∷ es) = step e es es tt (all_listed es)

  select_listed :
      (f : EventFilter) (es : List Event)
      → IsTimelyFilter (some f)
      → IsTimely es
      → Lists
          (Selected (some f))
          es
          (final (convert_event_to_iri_event utils matches (select_events utils matches f es)))
  unfolding convert_event_to_iri_event select_events
  select_listed f [] h t = done
  select_listed f (e ∷ es) h t = let ih = select_listed f es h t.1 in labelled _ refl ih
    where
      Goal : List Event → Type 0
      Goal chosen =
          Lists (Selected (some f)) (e ∷ es)
            (final (convert_event_to_iri_event utils matches chosen))

      labelled :
          (r : Result (Map String))
          → utils.get_labels_annotation e.involved_object_meta labels_annotation ≡ r
          → Lists
              (Selected (some f))
              es
              (final (convert_event_to_iri_event utils matches (select_events utils matches f es)))
          → Lists (Selected (some f)) (e ∷ es) (
              final (
                convert_event_to_iri_event utils matches (elim r [
                  | err x ↦ select_events utils matches f es
                  | ok labels ↦
                      if matches f.label_selector labels
                      then (if is_outside f e.event_time
                          then select_events utils matches f es
                          else e ∷ select_events utils matches f es)
                      else select_events utils matches f es
                ])))
      labelled (err x) r ih = skip (λ s. cc (r, s.1)) ih
      labelled (ok labels) r ih = elim (Bool-cases (matches f.label_selector labels)) [
        | inr n ↦ rw n (skip (λ s. cc (s.1, r, s.2, n)) ih)
        | inl y ↦ elim (is_outside_cases f e.event_time h.0 h.1 t.0) [
          | inl (out, never) ↦ rw (y, out) (skip (λ s. never s.3) ih)
          | inr (inside, w) ↦ rw (y, inside) (step e es _ (labels, r, y, w) ih)
        ]
      ]

  -- ListEvents returns the events that the request asks for, all of them and in their order: without
  -- a filter every event; with one those whose labels can be read and match its selector, in its time
  -- window if both ends are set. It fails only where the metadata of such an event cannot be read,
  -- with the error of the first. No time is negative.
  pub list_events-Lists :
      (es : List Event) (filter : Option EventFilter)
      → IsTimelyFilter filter
      → IsTimely es
      → Lists (Selected filter) es (list_events utils matches es filter)
  unfolding list_events filter_events
  list_events-Lists es none h t = all_listed es
  list_events-Lists es (some f) h t = select_listed f es h t
