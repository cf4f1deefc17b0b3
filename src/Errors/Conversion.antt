-- ===== src/Errors/Conversion.antt =====
-- What ConvertInternalErrorToGRPC of internal/utils/errors.go makes of an error.
use ceph_provider.Prelude.{
  ℕ, Bool, true, false, ◌≡◌, refl, ap, sym, ◌∙◌, inl, inr, Bool-cases, ◌⊎◌, ◌||◌, ◌==◌,
  if◌then◌else◌, arith, subst, ==_iff,
}
use ceph_provider.Prelude.{String}
use ceph_provider.Errors.{
  Error, Code, Sentinel, internal, not_found, invalid_argument, sentinel, new, wrap, join, status,
  is, number, is_status, code_of, convert_internal_error_to_grpc, store_not_found, already_exists,
  resource_version_not_latest, rados_not_found, rbd_not_found, image_not_open, volume_not_found,
  bucket_not_found, volume_isnt_managed, bucket_isnt_managed, snapshot_not_found,
  snapshot_isnt_managed, api_not_found,
}

-- The sentinel is among those that an error wraps or joins, at any depth above a gRPC status.
pub data Holds (t : Sentinel) : Error → Type 0 where
  here : Holds t (sentinel t)
  wrapped : {m : String} {e : Error} → Holds t e → Holds t (wrap m e)
  first : {e f : Error} → Holds t e → Holds t (join e f)
  second : {e f : Error} → Holds t f → Holds t (join e f)

-- An error that is a gRPC status, or wraps or joins one.
pub data HoldsStatus : Error → Type 0 where
  here : {c : Code} {e : Error} → HoldsStatus (status c e)
  wrapped : {m : String} {e : Error} → HoldsStatus e → HoldsStatus (wrap m e)
  first : {e f : Error} → HoldsStatus e → HoldsStatus (join e f)
  second : {e f : Error} → HoldsStatus f → HoldsStatus (join e f)

-- The sentinels of an object that is not there, and of one that another program manages.
pub data IsAbsence : Sentinel → Type 0 where
  bucket : IsAbsence bucket_not_found
  volume : IsAbsence volume_not_found
  snapshot : IsAbsence snapshot_not_found

pub data IsUnmanaged : Sentinel → Type 0 where
  bucket : IsUnmanaged bucket_isnt_managed
  volume : IsUnmanaged volume_isnt_managed
  snapshot : IsUnmanaged snapshot_isnt_managed

abbrev pub HoldsOne : (Sentinel → Type 0) → Error → Type 0
HoldsOne Kind e = (t : Sentinel) × Kind t × Holds t e

-- What an error may become.
pub data Converts (e : Error) : Error → Type 0 where
  kept : HoldsStatus e → Converts e e
  missing : ¬ HoldsStatus e → HoldsOne IsAbsence e → Converts e (status not_found e)
  refused :
      ¬ HoldsStatus e
      → ¬ HoldsOne IsAbsence e
      → HoldsOne IsUnmanaged e
      → Converts e (status invalid_argument e)
  other :
      ¬ HoldsStatus e
      → ¬ HoldsOne IsAbsence e
      → ¬ HoldsOne IsUnmanaged e
      → Converts e (status internal e)

-- The sentinel with a number.
named : ℕ → Sentinel
named n =
    if n == 0
    then store_not_found
    else if n == 1
    then already_exists
    else if n == 2
    then resource_version_not_latest
    else if n == 3
    then rados_not_found
    else if n == 4
    then rbd_not_found
    else if n == 5
    then image_not_open
    else if n == 6
    then volume_not_found
    else if n == 7
    then bucket_not_found
    else if n == 8
    then volume_isnt_managed
    else if n == 9
    then bucket_isnt_managed
    else if n == 10
    then snapshot_not_found
    else if n == 11
    then snapshot_isnt_managed
    else api_not_found

named-number : (s : Sentinel) → named (number s) ≡ s
unfolding number named
named-number store_not_found = refl
named-number already_exists = refl
named-number resource_version_not_latest = refl
named-number rados_not_found = refl
named-number rbd_not_found = refl
named-number image_not_open = refl
named-number volume_not_found = refl
named-number bucket_not_found = refl
named-number volume_isnt_managed = refl
named-number bucket_isnt_managed = refl
named-number snapshot_not_found = refl
named-number snapshot_isnt_managed = refl
named-number api_not_found = refl

number_injective : (s t : Sentinel) → (number s == number t) ≡ true → s ≡ t
number_injective s t h =
    sym (named-number s) ∙ ap named ((==_iff (number s) (number t)).0 h) ∙ named-number t

or_cases : (a b : Bool) → (a || b) ≡ true → (a ≡ true) ⊎ (b ≡ true)
or_cases true b h = inl refl
or_cases false b h = inr h

or_first : (a b : Bool) → a ≡ true → (a || b) ≡ true
or_first a b h = ground arith

or_second : (a b : Bool) → b ≡ true → (a || b) ≡ true
or_second a b h = ground arith

is-Holds : (t : Sentinel) (e : Error) → is e t ≡ true → Holds t e
unfolding is
is-Holds t (sentinel s) h = subst (λ u. Holds u (sentinel s)) (number_injective s t h) here
is-Holds t (new m) h = absurd (cc h)
is-Holds t (wrap m e) h = wrapped (is-Holds t e h)
is-Holds t (join e f) h = elim (or_cases (is e t) (is f t) h) [
  | inl y ↦ first (is-Holds t e y)
  | inr y ↦ second (is-Holds t f y)
]
is-Holds t (status c e) h = absurd (cc h)

Holds-is : (t : Sentinel) (e : Error) → Holds t e → is e t ≡ true
unfolding is
Holds-is t _ here = (==_iff (number t) (number t)).1 refl
Holds-is t (wrap m e) (wrapped h) = Holds-is t e h
Holds-is t (join e f) (first h) = or_first (is e t) (is f t) (Holds-is t e h)
Holds-is t (join e f) (second h) = or_second (is e t) (is f t) (Holds-is t f h)

is_status-HoldsStatus : (e : Error) → is_status e ≡ true → HoldsStatus e
unfolding is_status
is_status-HoldsStatus (sentinel s) h = absurd (cc h)
is_status-HoldsStatus (new m) h = absurd (cc h)
is_status-HoldsStatus (wrap m e) h = wrapped (is_status-HoldsStatus e h)
is_status-HoldsStatus (join e f) h = elim (or_cases (is_status e) (is_status f) h) [
  | inl y ↦ first (is_status-HoldsStatus e y)
  | inr y ↦ second (is_status-HoldsStatus f y)
]
is_status-HoldsStatus (status c e) h = here

HoldsStatus-is_status : (e : Error) → HoldsStatus e → is_status e ≡ true
unfolding is_status
HoldsStatus-is_status _ here = refl
HoldsStatus-is_status (wrap m e) (wrapped h) = HoldsStatus-is_status e h
HoldsStatus-is_status (join e f) (first h) =
    or_first (is_status e) (is_status f) (HoldsStatus-is_status e h)
HoldsStatus-is_status (join e f) (second h) =
    or_second (is_status e) (is_status f) (HoldsStatus-is_status f h)

or_three : (a b c : Bool) → (a || b || c) ≡ true → (a ≡ true) ⊎ ((b ≡ true) ⊎ (c ≡ true))
or_three a b c h = ground arith

-- The tests of the switch.
abbrev any_absence : Error → Bool
any_absence e = is e bucket_not_found || is e volume_not_found || is e snapshot_not_found

abbrev any_unmanaged : Error → Bool
any_unmanaged e = is e bucket_isnt_managed || is e volume_isnt_managed || is e snapshot_isnt_managed

absent : (e : Error) → any_absence e ≡ true → HoldsOne IsAbsence e
absent e h =
    elim (or_three (is e bucket_not_found) (is e volume_not_found) (is e snapshot_not_found) h) [
      | inl y ↦ (bucket_not_found, bucket, is-Holds bucket_not_found e y)
      | inr (inl y) ↦ (volume_not_found, volume, is-Holds volume_not_found e y)
      | inr (inr y) ↦ (snapshot_not_found, snapshot, is-Holds snapshot_not_found e y)
    ]

not_absent : (e : Error) → any_absence e ≡ false → ¬ HoldsOne IsAbsence e
not_absent e n (_, bucket, h) = let y = Holds-is bucket_not_found e h in ground arith
not_absent e n (_, volume, h) = let y = Holds-is volume_not_found e h in ground arith
not_absent e n (_, snapshot, h) = let y = Holds-is snapshot_not_found e h in ground arith

unmanaged : (e : Error) → any_unmanaged e ≡ true → HoldsOne IsUnmanaged e
unmanaged e h =
    elim (or_three (is e bucket_isnt_managed) (is e volume_isnt_managed)
      (is e snapshot_isnt_managed) h) [
        | inl y ↦ (bucket_isnt_managed, bucket, is-Holds bucket_isnt_managed e y)
        | inr (inl y) ↦ (volume_isnt_managed, volume, is-Holds volume_isnt_managed e y)
        | inr (inr y) ↦ (snapshot_isnt_managed, snapshot, is-Holds snapshot_isnt_managed e y)
      ]

not_unmanaged : (e : Error) → any_unmanaged e ≡ false → ¬ HoldsOne IsUnmanaged e
not_unmanaged e n (_, bucket, h) = let y = Holds-is bucket_isnt_managed e h in ground arith
not_unmanaged e n (_, volume, h) = let y = Holds-is volume_isnt_managed e h in ground arith
not_unmanaged e n (_, snapshot, h) = let y = Holds-is snapshot_isnt_managed e h in ground arith

-- An error that is or holds a gRPC status is returned as it is. Any other becomes a status round it:
-- NotFound where it holds the sentinel of a bucket, a volume or a snapshot that is not there, else
-- InvalidArgument where it holds that of one that is managed by another program, else Internal.
pub convert_internal_error_to_grpc-Converts :
    (e : Error) → Converts e (convert_internal_error_to_grpc e)
unfolding convert_internal_error_to_grpc code_of
convert_internal_error_to_grpc-Converts e = elim (Bool-cases (is_status e)) [
  | inl y ↦ rw y (kept (is_status-HoldsStatus e y))
  | inr n ↦ rw n (converted λ h. cc (n, HoldsStatus-is_status e h))
]
  where
    converted : ¬ HoldsStatus e → Converts e (status (code_of e) e)
    converted n = elim (Bool-cases (any_absence e)) [
      | inl y ↦ rw y (missing n (absent e y))
      | inr a ↦ elim (Bool-cases (any_unmanaged e)) [
        | inl y ↦ rw (a, y) (refused n (not_absent e a) (unmanaged e y))
        | inr f ↦ rw (a, f) (other n (not_absent e a) (not_unmanaged e f))
      ]
    ]
