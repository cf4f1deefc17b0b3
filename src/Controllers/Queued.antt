-- ===== src/Controllers/Queued.antt =====
-- Which images the handler of the events of snapshots, in Start of
-- internal/controllers/image_controller.go, gives to the work queue.
use mathlib.Core.List.{append_assoc, append-nil}
use ceph_provider.Prelude.{
  ◌⊎◌, String, Bool, true, false, Option, none, some, List, [], ◌∷◌, ◌++◌, ◌≡◌, ◌≢◌, refl, sym, ap,
  ◌∙◌, str_eq, eq_iff, Bool-cases, inl, inr,
}
use ceph_provider.Exec.{Result, ok, err, pure, catch, Exec, resume}
use ceph_provider.Exec.Triple.{Triple, Triple-bind, Triple-pure}
use ceph_provider.Api.{Image, Snapshot, snapshot_state_ready}
use ceph_provider.Api.Meta.{Metadata}
use ceph_provider.Store.{Store}
use ceph_provider.External.{WorkQueue, Recorder, EventType, normal}
use ceph_provider.Controllers.Start.{
  ChangeType, created, updated, deleted, refers_to, record_pulled, queue_images, on_snapshot_change,
}

-- `ids` are those of the images that refer to the snapshot, in their order.
pub data Referring (snapshot : String) : List Image → List String → Type 0 where
  done : Referring snapshot [] []
  refers :
      {image : Image} {images : List Image} {ids : List String}
      → image.spec.snapshot_ref ≡ some snapshot
      → Referring snapshot images ids
      → Referring snapshot (image ∷ images) (image.metadata.id ∷ ids)
  other :
      {image : Image} {images : List Image} {ids : List String}
      → image.spec.snapshot_ref ≢ some snapshot
      → Referring snapshot images ids
      → Referring snapshot (image ∷ images) ids

-- `added` has the ids that have been added to the queue, the latest last. Add returns no error.
pub record QueueLaws {C : Type 0} (queue : WorkQueue C) (recorder : Recorder C)
    (added : C → List String) : Type 0 where
  pub adds :
      (ids : List String) (id : String)
      → Triple (λ c. added c ≡ ids) (queue.add id) (λ r c. (r ≡ ok tt) × (added c ≡ ids ++ id ∷ []))
  pub event_keeps :
      (m : Metadata) (kind : EventType) (reason : String) (c : C)
      → added (recorder.eventf m kind reason c) ≡ added c

refers_to_cases :
    (id : String) (image : Image) (b : Bool)
    → refers_to id image ≡ b
    → (b ≡ true → image.spec.snapshot_ref ≡ some id)
      × (b ≡ false → image.spec.snapshot_ref ≢ some id)
refers_to_cases id image b = go image.spec.snapshot_ref
  where
    go :
        (ref : Option String)
        → (elim ref [ none ↦ false | some r ↦ str_eq r id ]) ≡ b
        → (b ≡ true → ref ≡ some id) × (b ≡ false → ref ≢ some id)
    go none h = ((λ y. absurd (cc (h, y))), λ n e. cc e)
    go (some r) h = (
      (λ y. ap (λ x. some x) ((eq_iff r id).0 (h ∙ y))),
      λ n e. let same : r ≡ id = cc e in cc ((eq_iff r id).1 same, h, n),
    )

module _ {C : Type 0} (queue : WorkQueue C) (images : Store C Image) (recorder : Recorder C)
    {added : C → List String} (laws : QueueLaws queue recorder added) where
  abbrev Queues : String → List Image → List String → Result (Unit {0}) → C → Type 0
  Queues id all before r c =
      (r ≡ ok tt) × ((ids : List String) × Referring id all ids × (added c ≡ before ++ ids))

  second :
      {A : Type 0} {K : Type 0} {P : C → Type 0} {m : Exec C A} {Q : Result A → C → Type 0}
      → Triple P m Q
      → Triple (λ c. K × P c) m Q
  second t = record { at = λ c h. t.at c h.1 }

  pulled :
      (image : Image) (before : List String)
      → Triple
          (λ c. added c ≡ before)
          (record_pulled queue images recorder image)
          (λ r c. (r ≡ ok tt) × (added c ≡ before))
  unfolding record_pulled
  pulled image before = record {
    at = λ c h. (refl, laws.event_keeps image.metadata normal "ImagePullSucceeded" c ∙ h);
  }

  queue_images-Queues :
      (id : String) (all : List Image) (before : List String)
      → Triple
          (λ c. added c ≡ before)
          (queue_images queue images recorder id all)
          (Queues id all before)
  unfolding queue_images
  queue_images-Queues id [] before =
      Triple-pure tt λ c h. (refl, ([], done, h ∙ sym (append-nil before)))
  queue_images-Queues id (image ∷ all) before = elim (Bool-cases (refers_to id image)) [
    | inr n ↦ rw n (record {
      at = λ c h.
          let (r, (ids, p, q)) = (queue_images-Queues id all before).at c h in
          (r, (ids, other ((refers_to_cases id image false n).1 refl) p, q));
    })
    | inl y ↦ rw y (
        Triple-bind (λ r c. (r ≡ ok tt) × (added c ≡ before)) _ _ (pulled image before)
          (λ e c h. absurd (cc (h.0)))
          (λ u. second (
            Triple-bind (λ r c. (r ≡ ok tt) × (added c ≡ before ++ image.metadata.id ∷ [])) _ _
              (laws.adds before image.metadata.id) (λ e c h. absurd (cc (h.0)))
              (λ u'. record {
                at = λ c h.
                    let (r, (ids, p, q)) =
                      (queue_images-Queues id all (before ++ image.metadata.id ∷ [])).at c h.1 in
                    (
                      r,
                      (
                        image.metadata.id ∷ ids,
                        refers ((refers_to_cases id image true y).0 refl) p,
                        q ∙ append_assoc before (image.metadata.id ∷ []) ids,
                      ),
                    );
              }))))
  ]

  -- The ids that an event has to queue, from the result of the listing of the images.
  abbrev pub Expected : ChangeType → Snapshot → Result (List Image) → List String → Type 0
  Expected updated snapshot (ok all) ids =
      ((snapshot.status.state ≡ snapshot_state_ready) × Referring snapshot.metadata.id all ids)
      ⊎ ((snapshot.status.state ≢ snapshot_state_ready) × (ids ≡ []))
  Expected updated snapshot (err e) ids = ids ≡ []
  Expected created snapshot listed ids = ids ≡ []
  Expected deleted snapshot listed ids = ids ≡ []

  abbrev pub Adds :
      ChangeType → Snapshot → Result (List Image) → List String → Result (Unit {0}) × C → Type 0
  Adds kind snapshot listed before (r, c) =
      (r ≡ ok tt)
      × ((ids : List String) × Expected kind snapshot listed ids × (added c ≡ before ++ ids))

  none_added : (c : C) (before : List String) → added c ≡ before → added c ≡ before ++ []
  none_added c before h = h ∙ sym (append-nil before)

  ready_listed :
      (snapshot : Snapshot) (listed : Result (List Image)) (c : C) (before : List String)
      → snapshot.status.state ≡ snapshot_state_ready
      → added c ≡ before
      → Adds updated snapshot listed before (
          resume
            (λ e. pure tt)
            (queue_images queue images recorder snapshot.metadata.id)
            (listed, c))
  unfolding pure
  ready_listed snapshot (err e) c before y h = (refl, ([], refl, none_added c before h))
  ready_listed snapshot (ok all) c before y h =
      let (r, (ids, p, q)) = (queue_images-Queues snapshot.metadata.id all before).at c h in
      (r, (ids, inl (y, p), q))

  unready :
      (snapshot : Snapshot) (listed : Result (List Image))
      → snapshot.status.state ≢ snapshot_state_ready
      → Expected updated snapshot listed []
  unready snapshot (ok all) n = inr (n, refl)
  unready snapshot (err e) n = refl

  -- The image controller's handler of an event of a snapshot gives the ids of exactly the stored
  -- images that refer to the snapshot to the queue, in the order of the store, where the event is an
  -- update and the snapshot is Ready; on any other event, and where the images cannot be listed, it
  -- adds none. It never fails.
  pub on_snapshot_change-Adds :
      (kind : ChangeType) (snapshot : Snapshot) (c c' : C) (listed : Result (List Image))
      → images.list c ≡ (listed, c')
      → added c' ≡ added c
      → Adds kind snapshot listed
          (added c)
          (on_snapshot_change queue images recorder kind snapshot c)
  unfolding on_snapshot_change catch pure
  on_snapshot_change-Adds created snapshot c c' listed h k = (refl, ([], refl, none_added c _ refl))
  on_snapshot_change-Adds deleted snapshot c c' listed h k = (refl, ([], refl, none_added c _ refl))
  on_snapshot_change-Adds updated snapshot c c' listed h k =
      elim (Bool-cases (str_eq snapshot.status.state snapshot_state_ready)) [
        | inl y ↦
            rw (y, h)
              (ready_listed snapshot listed c' (added c)
                ((eq_iff snapshot.status.state snapshot_state_ready).0 y) k)
        | inr n ↦ rw n (
          refl,
          (
            [],
            unready snapshot listed
                (λ e. cc ((eq_iff snapshot.status.state snapshot_state_ready).1 e, n)),
            none_added c _ refl,
          ),
        )
      ]
