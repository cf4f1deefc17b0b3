-- ===== src/Controllers/Images/Configured.antt =====
-- setWWN, setEncryptionHeader and fetchAuth of internal/controllers/image_controller.go: what they
-- leave of the rbd image and of the image.
use ceph_provider.Prelude.{ℕ, String, Option, none, some, [], Map, ◌≡◌, refl, subst}
use ceph_provider.Errors.{Error, wrap}
use ceph_provider.Exec.{Exec, Result, ok, err, pure, fail, catch, annotate, ◌>>◌}
use ceph_provider.Exec.Keeps.{Keeps-annotate, Keeps-catch, Keeps-fail, Keeps-pure, Keeps-lift}
use ceph_provider.Exec.Triple.{
  Triple, Triple-catch, Triple-bind, Triple-pure, Triple-if, Triple-annotate,
}
use ceph_provider.Api.{Image, EncryptionSpec}
use ceph_provider.External.{warning, normal}
use ceph_provider.Controllers.Images.{
  ImageReconciler, fail_with, set_wwn, format_encryption, set_encryption_header, skips_encryption,
  fetch_auth, event, wwn_key,
}
use ceph_provider.Controllers.Images.Made.{
  SameSpec, AvailableLaws, At, Leaves, leaving, with_image-Leaves, with_image-Known, event-Leaves,
}

module _ {C Io Img H : Type 0} (r : ImageReconciler C Io Img H) {P : C → Type 0}
    {Made : Map ℕ → C → Type 0} {io : Io} {image : Image}
    (laws : AvailableLaws r P Made io image) where
  -- The image that a call has returned is the same rbd image with the same limits.
  abbrev IsSame : Result Image → Type 0
  IsSame x = (o : Image) → x ≡ ok o → SameSpec o image

  abbrev pub Returns : Result Image → C → Type 0
  Returns x c = Leaves r laws [] x c × IsSame x

  no_image : (e : Error) → IsSame (err e)
  no_image e o q = absurd (cc q)

  -- A call that has succeeded, and the rest.
  pub next :
      {A B : Type 0} {Q : Result B → C → Type 0} (done : Map ℕ) (text : String) {m : Exec C A}
      {f : A → Exec C B} {S : C → Type 0}
      → Triple S m (Leaves r laws done)
      → ((e : Error) (c : C) → P c → Q (err e) c)
      → ((a : A) → Triple (At r laws done) (f a) Q)
      → Triple S (catch (annotate text m) fail f) Q
  next done text tm he tf =
      Triple-bind (Leaves r laws done) _ _
        (Triple-annotate (Leaves r laws done) _ _ tm (λ e c h. (h.0, λ d. absurd d)) (λ a c h. h))
        (λ e c h. he _ c h.0) (λ a. record { at = λ c h. (tf a).at c (h.0, h.1 tt) })

  pub set_wwn-Leaves : Triple (At r laws []) (set_wwn r io image) (Leaves r laws [])
  unfolding set_wwn
  set_wwn-Leaves = with_image-Leaves r laws [] [] _ (λ img named.
      leaving r laws [] (Keeps-annotate _ _ (laws.sets [] img wwn_key image.spec.wwn)))

  pub fetch_auth-Leaves :
      (done : Map ℕ) → Triple (At r laws done) (fetch_auth r) (Leaves r laws done)
  unfolding fetch_auth
  fetch_auth-Leaves done = leaving r laws done (
      Keeps-catch _ _ _ (Keeps-annotate _ _ (Keeps-lift _)) Keeps-fail λ cmd.
        Keeps-catch _ _ _ (Keeps-annotate _ _ (laws.commands done cmd)) Keeps-fail λ reply.
          Keeps-catch _ _ _ (Keeps-annotate _ _ (Keeps-lift _)) Keeps-fail λ key. Keeps-pure _)

  format_encryption-Returns :
      (encryption : EncryptionSpec)
      → Triple (At r laws []) (format_encryption r io image encryption) Returns
  unfolding format_encryption
  format_encryption-Returns encryption =
      next [] _ (leaving r laws [] (Keeps-lift _)) failing λ passphrase.
        with_image-Known r laws [] [] _ no_image λ img named.
          next [] _ (leaving r laws [] (laws.formats [] img passphrase)) failing λ u.
            Triple-bind (λ x c. At r laws [] c × IsSame x) _ _
              (Triple-annotate (λ x c. At r laws [] c × IsSame x) _ _ (laws.headers [])
                (λ e c h. (h.0, no_image _)) (λ o c h. h))
              (λ e c h. failing e c h.0.0) (λ o. sent o)
    where
      failing : (e : Error) (c : C) → P c → Returns (err e) c
      failing e c h = ((h, λ d. absurd d), no_image e)

      sent :
          (o : Image)
          → Triple
              (λ c. At r laws [] c × IsSame (ok o))
              (do event r o normal "ConfigureEncryptionSucceeded"; pure o)
              Returns
      sent o =
          Triple-bind (λ x c. At r laws [] c × IsSame (ok o)) _ _
            (record { at = λ c h. ((event-Leaves r laws [] o normal _).after c h.0, h.1) })
            (λ e c h. failing e c h.0.0) (λ u. Triple-pure o λ c h. ((h.0.0, λ d. h.0.1), h.1))

  set_encryption_header-Returns : Triple (At r laws []) (set_encryption_header r io image) Returns
  unfolding set_encryption_header
  set_encryption_header-Returns =
      Triple-if (skips_encryption r image) _ _ (λ y. unchanged) λ n. chosen image.spec.encryption
    where
      unchanged : Triple (At r laws []) (pure image) Returns
      unchanged = Triple-pure image λ c h. (
        (h.0, λ d. h.1),
        λ o q. let e : image ≡ o = cc q in subst (λ o. SameSpec o image) e (refl, refl),
      )

      chosen :
          (encryption : Option EncryptionSpec)
          → Triple
              (At r laws [])
              (elim encryption [
                | none ↦ pure image
                | some encryption ↦ format_encryption r io image encryption
              ])
              Returns
      chosen none = unchanged
      chosen (some encryption) = format_encryption-Returns encryption

  pub configured :
      Triple
        (At r laws [])
        (catch
          (set_encryption_header r io image)
          (λ e.
            fail_with r image warning "ConfigureEncryptionFailed"
              (wrap "failed to set encryption header" e))
          pure)
        Returns
  unfolding fail_with event catch fail
  configured =
      Triple-catch Returns _ _ _ set_encryption_header-Returns
        (λ e. record {
          at = λ c h. (
            (
              laws.calls.eventf image.metadata warning "ConfigureEncryptionFailed" c h.0.0,
              λ d. absurd d,
            ),
            no_image _,
          );
        })
        (λ o. Triple-pure o λ c h. h)
