-- ===== src/BucketServer/Classes.antt =====
-- bucketclass_list.go and event_list.go of internal/bucketserver.
use ceph_provider.Prelude.{String, Bool, Option, none, some, List, [], ◌∷◌, Map, if◌then◌else◌}
use ceph_provider.Classes.{Class, Registry, list_bucket_classes as registered}
use ceph_provider.VolumeServer.Events.{EventFilter, IriEvent, is_outside}

unfoldable pub list_bucket_classes : Registry → List Class
unfolding registered
list_bucket_classes bucket_classes = registered bucket_classes

-- filterEvents, which nothing calls yet.
unfoldable pub filter_bucket_events :
    (Map String → Map String → Bool) → List IriEvent → Option EventFilter → List IriEvent
unfolding is_outside
filter_bucket_events matches events none = events
filter_bucket_events matches [] (some filter) = []
filter_bucket_events matches (event ∷ events) (some filter) =
    let rest = filter_bucket_events matches events (some filter) in
    if matches filter.label_selector event.involved_object_meta.labels
    then (if is_outside filter event.event_time then rest else event ∷ rest)
    else rest

-- ListEvents lists nothing.
unfoldable pub list_bucket_events : Option EventFilter → List IriEvent
list_bucket_events filter = []
