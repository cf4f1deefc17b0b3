-- ===== src/Controllers/Images.antt =====
-- internal/controllers/image_controller.go: ImageReconciler and the steps of its reconciliation. The
-- image that Go changes in place is handed on from step to step.
pub mod Clone
pub mod Delete
pub mod Frame
pub mod Reconcile
pub mod Order
pub mod Made
pub mod Limited
pub mod Cloned
pub mod Configured
pub mod Available
mod Examples
mod AvailableExamples
use ceph_provider.Prelude.{
  ℕ, String, Bool, true, false, not, Option, none, some, List, [], ◌∷◌, Map, str_eq, str_append,
  lookup, contains, ◌||◌, if◌then◌else◌,
}
use ceph_provider.Prelude.Texts.{format_int, trim_prefix}
use ceph_provider.Errors.{Error, new, wrap}
use ceph_provider.Exec.{
  Exec, Result, ok, err, pure, fail, lift, catch, deferring, annotate, when, ◌>>=◌, ◌>>◌,
}
use ceph_provider.Round.{off_bytes}
use ceph_provider.Api.{
  Image, Snapshot, EncryptionSpec, encryption_type_unencrypted, encryption_state_header_set,
}
use ceph_provider.Api.Meta.{Metadata}
use ceph_provider.Store.{Store}
use ceph_provider.External.{
  Rbd, Registry, Recorder, EventType, normal, warning, MetaUtils, Json, Encryptor,
}
use ceph_provider.Controllers.Common.{image_id_to_rbd_id, with_image}

abbrev pub limit_metadata_prefix : String
limit_metadata_prefix = "conf_"

abbrev pub wwn_key : String
wwn_key = "wwn"

abbrev pub image_digest_label : String
image_digest_label = "image-digest"

abbrev pub image_finalizer : String
image_finalizer = "image"

pub record ImageReconciler (C Io Img H : Type 0) : Type 0 where
  pub rbd : Rbd C Io Img
  pub registry : Registry C H
  pub images : Store C Image
  pub snapshots : Store C Snapshot
  pub recorder : Recorder C
  pub key_encryption : Encryptor C
  pub meta : MetaUtils
  pub json : Json
  pub monitors : String
  pub client : String
  pub pool : String

abbrev pub with_finalizers : List String → Image → Image
with_finalizers fs i = record i { metadata = record i.metadata { finalizers = fs } }

module _ {C Io Img H : Type 0} (r : ImageReconciler C Io Img H) where
  unfoldable pub event : Image → EventType → String → Exec C Unit
  event image kind reason s = (ok tt, r.recorder.eventf image.metadata kind reason s)

  -- An event, and then the error that follows it.
  unfoldable pub fail_with : {A : Type 0} → Image → EventType → String → Error → Exec C A
  unfolding event
  fail_with image kind reason e = event image kind reason >> fail e

  unfoldable pub member : List String → String → Bool
  member [] name = false
  member (img ∷ imgs) name = str_eq name img || member imgs name

  unfoldable pub is_image_existing : Io → String → Exec C Bool
  unfolding member image_id_to_rbd_id
  is_image_existing io image_id = do
    images ← annotate "failed to list images" (r.rbd.get_image_names io)
    pure (member images (image_id_to_rbd_id image_id))

  -- The user and the key of the client.
  unfoldable pub fetch_auth : Exec C (String × String)
  unfolding trim_prefix
  fetch_auth = do
    cmd ← annotate "unable to marshal command" (
        lift (
          r.json.marshal
            (("prefix", "auth get-key") ∷ ("entity", r.client) ∷ ("format", "json") ∷ [])))
    reply ← annotate "failed to execute mon command" (r.rbd.mon_command cmd)
    key ← annotate "unable to unmarshal response" (lift (r.json.unmarshal_key reply))
    pure (trim_prefix r.client "client.", key)

  -- One entry of the limits after the other, with an event for each.
  unfoldable pub set_limits : Image → Img → Map ℕ → Exec C Unit
  unfolding event fail_with format_int
  set_limits image img [] = pure tt
  set_limits image img ((limit, value) ∷ limits) =
      let rest = set_limits image img limits in
      catch (r.rbd.set_metadata img (str_append limit_metadata_prefix limit) (format_int value))
        (λ e. fail_with image normal "SetImageLimitFailed" (wrap "failed to set limit" e))
        (λ _. event image normal "SetImageLimitSucceeded" >> rest)

  abbrev pub is_empty : Map ℕ → Bool
  is_empty [] = true
  is_empty (x ∷ m) = false

  unfoldable pub set_image_limits : Io → Image → Exec C Unit
  unfolding with_image set_limits image_id_to_rbd_id
  set_image_limits io image =
      if is_empty image.spec.limits
      then pure tt
      else with_image r.rbd io (image_id_to_rbd_id image.metadata.id)
          (λ img. set_limits image img image.spec.limits)

  unfoldable pub set_wwn : Io → Image → Exec C Unit
  unfolding with_image image_id_to_rbd_id
  set_wwn io image =
      with_image r.rbd io (image_id_to_rbd_id image.metadata.id)
        λ img. annotate "failed to set wwn" (r.rbd.set_metadata img wwn_key image.spec.wwn)

  -- Whether setEncryptionHeader returns at once.
  unfoldable pub skips_encryption : Image → Bool
  skips_encryption image = elim image.spec.encryption [
    | none ↦ true
    | some e ↦
        str_eq e.kind ""
        || (str_eq e.kind encryption_type_unencrypted
            || str_eq image.status.encryption encryption_state_header_set)
  ]

  abbrev pub header_set : Image → Image
  header_set image = record image {
    status = record image.status { encryption = encryption_state_header_set };
  }

  -- The open image is closed after the update, error or not.
  unfoldable pub format_encryption : Io → Image → EncryptionSpec → Exec C Image
  unfolding with_image image_id_to_rbd_id event
  format_encryption io image encryption = do
    passphrase ←
        annotate "failed to decrypt passphrase"
          (lift (r.key_encryption.decrypt encryption.encrypted_passphrase))
    with_image r.rbd io (image_id_to_rbd_id image.metadata.id) λ img. do
      annotate "failed to set encryption format" (r.rbd.encryption_format img passphrase)
      image' ←
          annotate "failed to update image encryption state" (r.images.update (header_set image))
      event image' normal "ConfigureEncryptionSucceeded"
      pure image'

  unfoldable pub set_encryption_header : Io → Image → Exec C Image
  unfolding skips_encryption format_encryption
  set_encryption_header io image =
      if skips_encryption image then pure image else elim image.spec.encryption [
        | none ↦ pure image
        | some encryption ↦ format_encryption io image encryption
      ]

  unfoldable pub create_empty_image : Io → Image → String → Exec C Unit
  unfolding event fail_with off_bytes image_id_to_rbd_id
  create_empty_image io image options =
      catch
        (r.rbd.create_image io (image_id_to_rbd_id image.metadata.id) (off_bytes image.spec.size)
          options)
        (λ e.
          fail_with image warning "EmptyImageCreationFailed" (wrap "failed to create rbd image" e))
        (λ _. event image normal "EmptyImageCreationSucceeded")
