-- ===== src/Controllers/Snapshots/Frame.antt =====
-- The invariants that the steps of the snapshot controller keep where its single calls do.
use ceph_provider.Prelude.{
  String, Option, none, some, List, [], ◌∷◌, ℕ, length, ◌==◌, if◌then◌else◌,
}
use ceph_provider.Errors.{Error, new}
use ceph_provider.Exec.{Exec, pure, fail, catch, annotate, ◌>>=◌}
use ceph_provider.Exec.Keeps.{
  Keeps, Keeps-catch, Keeps-fail, Keeps-pure, Keeps-if, Keeps-annotate, Keeps-when, keeps_rules,
}
use ceph_provider.Api.{Bytes, Snapshot}
use ceph_provider.External.{Platform}
use ceph_provider.Controllers.Common.{create_os_image_source}
use ceph_provider.Controllers.Frame.{
  RbdKeeps, RegistryKeeps, AllKeep, with_image-Keeps, create_snapshot-Keeps,
}
use ceph_provider.Controllers.Snapshots.{
  SnapshotReconciler, copy_buffer, populate_image, prepare_snapshot_content,
  open_ironcore_image_source, reconcile_ironcore_image_snapshot, reconcile_volume_image_snapshot,
}

-- Every call of librbd and of the registry keeps `P`, and so do the reads of images.
pub record CallsKeep {C Io Img H : Type 0} (r : SnapshotReconciler C Io Img H) (P : C → Type 0)
    : Type 0 where
  pub rbd : RbdKeeps r.rbd P
  pub registry : RegistryKeeps r.registry P
  pub image_get : (id : String) → Keeps P (r.images.get id)

module _ {C Io Img H : Type 0} (r : SnapshotReconciler C Io Img H) {P : C → Type 0}
    (k : CallsKeep r P) where
  copy_buffer-Keeps :
      (img : Img) (reads : List (Exec C (Bytes × Option Error)))
      → AllKeep P reads
      → Keeps P (copy_buffer r.rbd img reads)
  unfolding copy_buffer
  copy_buffer-Keeps img [] h = Keeps-pure tt
  copy_buffer-Keeps img (read ∷ reads) (reads_one, others) =
      Keeps-catch _ _ _ reads_one Keeps-fail λ got.
        Keeps-catch _ _ _ (Keeps-when _ _ (λ _. writes got.0)) Keeps-fail
          λ u. ended (copy_buffer-Keeps img reads others) got.1
    where
      writes :
          (chunk : Bytes)
          → Keeps P (do
            written ← r.rbd.write img chunk
            if written == length chunk then pure tt else fail (new "short write"))
      writes chunk =
          Keeps-catch _ _ _ (k.rbd.write img chunk) Keeps-fail λ written.
            Keeps-if (written == length chunk) _ _ (λ _. Keeps-pure tt) (λ _. Keeps-fail _)

      ended :
          Keeps P (copy_buffer r.rbd img reads)
          → (o : Option Error)
          → Keeps P (elim o [ none ↦ copy_buffer r.rbd img reads | some e ↦ fail e ])
      ended h none = h
      ended h (some e) = Keeps-fail e

  populate_image-Keeps : (img : Img) (src : H) → Keeps P (populate_image r img src)
  unfolding populate_image
  populate_image-Keeps img src =
      Keeps-annotate _ _ (copy_buffer-Keeps img (r.registry.reads src) (k.registry.reads src))

  pub prepare_snapshot_content-Keeps :
      (io : Io) (name : String) (src : H) → Keeps P (prepare_snapshot_content r io name src)
  unfolding prepare_snapshot_content
  prepare_snapshot_content-Keeps io name src =
      search (keeps_rules, with_image-Keeps r.rbd k.rbd, populate_image-Keeps)

  create_os_image_source-Keeps :
      (p : Option Platform) → Keeps P (create_os_image_source r.registry p)
  unfolding create_os_image_source
  create_os_image_source-Keeps none = k.registry.docker_registry
  create_os_image_source-Keeps (some p) = k.registry.docker_registry_with_platform p

  pub open_ironcore_image_source-Keeps :
      (name : String) (p : Option Platform) → Keeps P (open_ironcore_image_source r name p)
  unfolding open_ironcore_image_source
  open_ironcore_image_source-Keeps name p =
      Keeps-catch _ _ _ (Keeps-annotate _ _ (create_os_image_source-Keeps p)) Keeps-fail λ source.
        Keeps-catch _ _ _ (Keeps-annotate _ _ (k.registry.resolve source name)) Keeps-fail λ img.
          Keeps-catch _ _ _ (Keeps-annotate _ _ (k.registry.resolve_root_fs img)) Keeps-fail
            (found img)
    where
      found :
          (img : H) (root_fs : Option (H × ℕ))
          → Keeps {A = H × ℕ × String} P (elim root_fs [
            | none ↦ fail (new "image has no root fs")
            | some (fs, size) ↦
                catch
                  (annotate "failed to get root fs content" (r.registry.content fs))
                  fail
                  (λ content. pure (content, size, r.registry.digest img))
          ])
      found img none = Keeps-fail _
      found img (some (fs, size)) =
          Keeps-catch _ _ _ (Keeps-annotate _ _ (k.registry.content fs)) Keeps-fail
            (λ content. Keeps-pure _)

  pub reconcile_ironcore_image_snapshot-Keeps :
      (io : Io) (s : Snapshot) → Keeps P (reconcile_ironcore_image_snapshot r io s)
  unfolding reconcile_ironcore_image_snapshot
  reconcile_ironcore_image_snapshot-Keeps io s =
      search
        (
          keeps_rules,
          open_ironcore_image_source-Keeps,
          k.registry.close_reader,
          k.rbd.data_pool_options,
          k.rbd.create_image,
          prepare_snapshot_content-Keeps,
          create_snapshot-Keeps r.rbd k.rbd,
        )
        depth 16

  pub reconcile_volume_image_snapshot-Keeps :
      (io : Io) (s : Snapshot) → Keeps P (reconcile_volume_image_snapshot r io s)
  unfolding reconcile_volume_image_snapshot
  reconcile_volume_image_snapshot-Keeps io s =
      search (keeps_rules, k.image_get, create_snapshot-Keeps r.rbd k.rbd) depth 12
