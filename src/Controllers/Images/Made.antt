-- ===== src/Controllers/Images/Made.antt =====
-- The rbd image of an image with its limits: what the calls of the image controller do to them.
use ceph_provider.Prelude.{ℕ, String, true, none, List, [], ◌∷◌, ◌++◌, Map, ◌≡◌, refl, str_append}
use ceph_provider.Prelude.Texts.{format_int}
use ceph_provider.Errors.{Error, wrap, is, rbd_not_found}
use ceph_provider.Exec.{Exec, Result, ok, err, fail, catch}
use ceph_provider.Exec.Keeps.{Keeps}
use ceph_provider.Exec.Triple.{
  Triple, Triple-catch, Triple-bind, Triple-pure, Triple-fail, Triple-if, Triple-deferring,
  Triple-of,
}
use ceph_provider.Round.{off_bytes}
use ceph_provider.Api.{Bytes, Image, image_state_available}
use ceph_provider.Api.Meta.{Metadata}
use ceph_provider.External.{EventType}
use ceph_provider.Controllers.Common.{image_id_to_rbd_id, open_image, with_image}
use ceph_provider.Controllers.Images.{
  ImageReconciler, limit_metadata_prefix, header_set, member, event, fail_with,
}
use ceph_provider.Controllers.Images.Frame.{CallsKeep}
use ceph_provider.Controllers.Snapshots.Order.{IsDone}

abbrev pub rbd_name : Image → String
rbd_name image = image_id_to_rbd_id image.metadata.id

-- The same rbd image with the same limits.
abbrev pub SameSpec : Image → Image → Type 0
SameSpec o image = (o.metadata.id ≡ image.metadata.id) × (o.spec.limits ≡ image.spec.limits)

-- What the calls do to a world in `P`, and to one that is `Made done`: the rbd image of `image`
-- exists, and the limits `done` are set on it.
pub record AvailableLaws {C Io Img H : Type 0} (r : ImageReconciler C Io Img H) (P : C → Type 0)
    (Made : Map ℕ → C → Type 0) (io : Io) (image : Image) : Type 0 where
  pub calls : CallsKeep r P
  -- the rbd image of an open one
  pub name_of : Img → String
  pub lists : Triple P (r.rbd.get_image_names io) (λ x c.
      P c
      × ((names : List String) → x ≡ ok names → member r names (rbd_name image) ≡ true → Made [] c))
  pub creates :
      (options : String)
      → Triple P
          (r.rbd.create_image io (rbd_name image) (off_bytes image.spec.size) options)
          (λ x c. P c × (IsDone x → Made [] c))
  pub clones :
      (io2 : Io) (parent snap options : String)
      → Triple P
          (r.rbd.clone_image io2 parent snap io (rbd_name image) options)
          (λ x c. P c × (IsDone x → Made [] c))
  pub opens :
      (done : Map ℕ)
      → Triple
          (λ c. P c × Made done c)
          (r.rbd.open_image io (rbd_name image) none)
          (λ x c. (P c × Made done c) × ((img : Img) → x ≡ ok img → name_of img ≡ rbd_name image))
  pub closes : (done : Map ℕ) (img : Img) → Keeps (λ c. P c × Made done c) (r.rbd.close img)
  pub resizes :
      (done : Map ℕ) (img : Img) (n : ℕ) → Keeps (λ c. P c × Made done c) (r.rbd.resize img n)
  pub sets :
      (done : Map ℕ) (img : Img) (key value : String)
      → Keeps (λ c. P c × Made done c) (r.rbd.set_metadata img key value)
  pub limits :
      (done : Map ℕ) (img : Img) (limit : String) (value : ℕ)
      → name_of img ≡ rbd_name image
      → Triple
          (λ c. P c × Made done c)
          (r.rbd.set_metadata img (str_append limit_metadata_prefix limit) (format_int value))
          (λ x c. P c × (IsDone x → Made (done ++ (limit, value) ∷ []) c))
  pub formats :
      (done : Map ℕ) (img : Img) (b : Bytes)
      → Keeps (λ c. P c × Made done c) (r.rbd.encryption_format img b)
  pub commands :
      (done : Map ℕ) (cmd : String) → Keeps (λ c. P c × Made done c) (r.rbd.mon_command cmd)
  pub events :
      (done : Map ℕ) (m : Metadata) (kind : EventType) (reason : String) (c : C)
      → P c × Made done c
      → P (r.recorder.eventf m kind reason c) × Made done (r.recorder.eventf m kind reason c)
  pub headers :
      (done : Map ℕ)
      → Triple
          (λ c. P c × Made done c)
          (r.images.update (header_set r image))
          (λ x c. (P c × Made done c) × ((o : Image) → x ≡ ok o → SameSpec o image))
  pub makes :
      (o : Image)
      → o.status.state ≡ image_state_available
      → Triple (λ c. P c × Made image.spec.limits c) (r.images.update o) (λ x c. P c)

module _ {C Io Img H : Type 0} (r : ImageReconciler C Io Img H) {P : C → Type 0}
    {Made : Map ℕ → C → Type 0} {io : Io} {image : Image}
    (laws : AvailableLaws r P Made io image) where
  abbrev pub At : Map ℕ → C → Type 0
  At done c = P c × Made done c

  -- A call that succeeds leaves the limits `done` set.
  abbrev pub Leaves : {A : Type 0} → Map ℕ → Result A → C → Type 0
  Leaves done x c = P c × (IsDone x → Made done c)

  pub leaving :
      {A : Type 0} {m : Exec C A} (done : Map ℕ)
      → Keeps (At done) m
      → Triple (At done) m (Leaves done)
  leaving done km = record { at = λ c h. let q = km.after c h in (q.0, λ d. q.1) }

  -- A cleanup after a call that may have left the limits set.
  tidy :
      {A : Type 0} (done : Map ℕ) (img : Img) (x : Result A)
      → Triple (Leaves done x) (r.rbd.close img) (λ y c. Leaves done x c)
  tidy done img (ok a) = record {
    at = λ c h. let q = (laws.closes done img).after c (h.0, h.1 tt) in (q.0, λ d. q.1);
  }
  tidy done img (err e) = record {
    at = λ c h. ((laws.calls.rbd.close img).after c h.0, λ d. absurd d);
  }

  open_image-named :
      (done : Map ℕ)
      → Triple
          (At done)
          (open_image r.rbd io (rbd_name image))
          (λ x c. At done c × ((img : Img) → x ≡ ok img → laws.name_of img ≡ rbd_name image))
  unfolding open_image
  open_image-named done =
      Triple-catch _ _ _ _ (laws.opens done)
        (λ e.
          Triple-if (is e rbd_not_found) (fail e) (fail (wrap "failed to open image" e))
            (λ y. Triple-fail e λ c h. (h.0, λ img q. absurd (cc q)))
            (λ n. Triple-fail (wrap "failed to open image" e) λ c h. (h.0, λ img q. absurd (cc q))))
        (λ img. Triple-pure img (λ c h. h))

  -- A function on the open rbd image of the image, and what is known of its result.
  pub with_image-Known :
      {A : Type 0} {Known : Result A → Type 0} (before after : Map ℕ) (body : Img → Exec C A)
      → ((e : Error) → Known (err e))
      → ((img : Img)
          → laws.name_of img ≡ rbd_name image
          → Triple (At before) (body img) (λ x c. Leaves after x c × Known x))
      → Triple
          (At before)
          (with_image r.rbd io (rbd_name image) body)
          (λ x c. Leaves after x c × Known x)
  unfolding with_image
  with_image-Known {Known = Known} before after body known tb =
      Triple-bind _ _ _ (open_image-named before) (λ e c h. ((h.0.0, λ d. absurd d), known e))
        λ img. record {
          at = λ c h.
              (Triple-deferring {Q = λ x c. Leaves after x c × Known x}
                  (λ x c. Leaves after x c × Known x) _ _ (tb img (h.1 img refl))
                  (λ x. record { at = λ c h. ((tidy after img x).at c h.0, h.1) })).at
                c h.0;
        }

  pub with_image-Leaves :
      {A : Type 0} (before after : Map ℕ) (body : Img → Exec C A)
      → ((img : Img)
          → laws.name_of img ≡ rbd_name image
          → Triple (At before) (body img) (Leaves after))
      → Triple (At before) (with_image r.rbd io (rbd_name image) body) (Leaves after)
  with_image-Leaves before after body tb =
      Triple-of _
        (with_image-Known {Known = λ x. Unit {0}} before after body (λ e. tt)
          (λ img named. Triple-of _ (tb img named) (λ x c h. (h, tt))))
        (λ x c h. h.0)

  pub event-Leaves :
      (done : Map ℕ) (i : Image) (kind : EventType) (reason : String)
      → Keeps (At done) (event r i kind reason)
  unfolding event
  event-Leaves done i kind reason = record {
    after = λ c h. laws.events done i.metadata kind reason c h;
  }

  -- An event and an error.
  pub fail_with-Leaves :
      {A : Type 0} {R : C → Type 0} (done : Map ℕ) (i : Image) (kind : EventType) (reason : String)
      (e : Error)
      → Triple (λ c. P c × R c) (fail_with r {A = A} i kind reason e) (Leaves done)
  unfolding fail_with event catch fail
  fail_with-Leaves done i kind reason e = record {
    at = λ c h. (laws.calls.eventf i.metadata kind reason c h.0, λ d. absurd d);
  }
