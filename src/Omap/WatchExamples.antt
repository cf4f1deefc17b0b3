-- ===== src/Omap/WatchExamples.antt =====
-- Two watches, of which the reader of one waits when the store has an event.
use ceph_provider.Prelude.{ℕ, [], ◌∷◌, List, ◌≡◌, ◌&&◌, if◌then◌else◌}
use ceph_provider.Omap.{WatchEvent, created, member}
use ceph_provider.Omap.Watches.{HubCall, opens, waits, run, sends, events_of, enqueue-delivers}

abbrev event : WatchEvent ℕ
event = record { kind = created; object = 7 }

abbrev history : List (HubCall ℕ)
history = waits 1 ∷ opens ∷ opens ∷ []

enqueue-delivers_example : events_of 1 (run (sends event ∷ history)) ≡ (
    if member 1 (run history).watches && member 1 (run history).receivers
    then event ∷ events_of 1 (run history)
    else events_of 1 (run history))
enqueue-delivers_example = enqueue-delivers history event 1
