-- ===== src/Omap/Interleaving/Atomic.antt =====
-- A request of internal/omap/omap.go is atomic: nothing that other threads do between its get and
-- its write changes what the get has found.
use ceph_provider.Prelude.{
  ℕ, false, none, some, ◌==◌, ◌≡◌, refl, sym, ap, ◌∙◌, inl, inr, str_eq, eq_iff, ==_iff, Bool-cases,
}
use ceph_provider.Sync.Threads.{starts, holding}
use ceph_provider.Sync.Exclusion.{mutual_exclusion}
use ceph_provider.Omap.{OmapStore}
use ceph_provider.Omap.Laws.{Contents, RadosLaws, CodecLaws, EnvLaws, ObjectLaws}
use ceph_provider.Omap.Reads.{get-Got}
use ceph_provider.Omap.Phases.{write_phase, read_phase-FoundAt, write_phase-Meets, Meets}
use ceph_provider.Omap.Interleaving.{
  Pending, pending_id, Clients, assign, ClientStep, locks, reads, read_fails, writes, gets, lists,
  Interleaved, opens, goes,
}
use ceph_provider.Omap.Interleaving.Movers.{assign-none}
use ceph_provider.Omap.Interleaving.Coherence.{Coherent, unchanged, locks-Coherent, reads-Coherent}
use ceph_provider.Omap.Interleaving.Frame.{
  WellFormed, OnlyAt, Got-other, Meets-OnlyAt, Meets-IsWellFormed, list_keeps,
}

module _ {C Io E : Type 0} (st : OmapStore C Io E) {view : C → Contents}
    (laws : RadosLaws st.rados view) (codec_laws : CodecLaws st.codec)
    (object_laws : ObjectLaws st.object) (env_laws : EnvLaws st view) where
  open st use {omap_name}

  abbrev pub Atomic : Clients C Io E → Pending Io E → Type 0
  Atomic s p =
      let done = write_phase st p.request p.io p.found s.world in
      Meets st laws codec_laws object_laws env_laws (view s.world) p.request done.0 (view done.1)
      × OnlyAt omap_name (view s.world) (pending_id st p) (view done.1)

  Coherent-Atomic :
      (s : Clients C Io E) (i : ℕ) (p : Pending Io E)
      → s.pending i ≡ some p
      → Coherent st laws codec_laws object_laws env_laws s
      → Atomic s p
  Coherent-Atomic s i p at_i c =
      (met, Meets-OnlyAt st laws codec_laws object_laws env_laws _ _ p.request _ c.formed met)
    where
      met :
          Meets st laws codec_laws object_laws env_laws
            (view s.world)
            p.request
            (write_phase st p.request p.io p.found s.world).0
            (view (write_phase st p.request p.io p.found s.world).1)
      met =
          (write_phase-Meets st laws codec_laws object_laws env_laws (view s.world) p.request p.io
              p.found (c.fresh i p at_i)).at
            s.world refl

  -- Two threads with begun requests have different ids.
  apart :
      (s : Clients C Io E) (i j : ℕ) (p q : Pending Io E)
      → Coherent st laws codec_laws object_laws env_laws s
      → (i == j) ≡ false
      → s.pending i ≡ some p
      → s.pending j ≡ some q
      → str_eq (pending_id st p) (pending_id st q) ≡ false
  apart s i j p q c n at_i at_j = elim (Bool-cases (str_eq (pending_id st p) (pending_id st q))) [
    | inr different ↦ different
    | inl same ↦
        let (e, hi) = c.held i p at_i in
        let (d, hj) = c.held j q at_j in
        let together : i ≡ j = mutual_exclusion s.locks i j (pending_id st p) e d c.reachable hi (
          hj
          ∙ ap (λ k. some (holding k d))
              (sym ((eq_iff (pending_id st p) (pending_id st q)).0 same))) in
        absurd (cc ((==_iff i j).1 together, n))
  ]

  -- A write of one thread touches no id that another thread has got.
  writes-Coherent :
      (s : Clients C Io E) (i : ℕ) (p : Pending Io E)
      → s.pending i ≡ some p
      → Coherent st laws codec_laws object_laws env_laws s
      → Coherent st laws codec_laws object_laws env_laws (record s {
        world = (write_phase st p.request p.io p.found s.world).1;
        pending = assign i none s.pending;
      })
  writes-Coherent s i p at_i c = record {
    reachable = c.reachable;
    formed =
        Meets-IsWellFormed st laws codec_laws object_laws env_laws _ _ p.request _ c.formed
          (Coherent-Atomic s i p at_i c).0;
    held = λ j q h. c.held j q (assign-none i j s.pending q h).1;
    fresh = λ j q h.
        let (n, at_j) = assign-none i j s.pending q h in
        Got-other st laws codec_laws object_laws env_laws _ _ (pending_id st p) (pending_id st q)
          q.found (Coherent-Atomic s i p at_i c).1 (apart s i j p q c n at_i at_j)
          (c.fresh j q at_j);
  }

  step-Coherent :
      (s t : Clients C Io E)
      → ClientStep st s t
      → Coherent st laws codec_laws object_laws env_laws s
      → Coherent st laws codec_laws object_laws env_laws t
  step-Coherent s t (locks {t = l} x) c =
      locks-Coherent st laws codec_laws object_laws env_laws s l x c
  step-Coherent s t (reads i e q io r w at_key found) c =
      reads-Coherent st laws codec_laws object_laws env_laws s i e q io r w at_key found c
  step-Coherent s t (read_fails i e key at_key) c =
      unchanged st laws codec_laws object_laws env_laws s _ c
        ((read_phase-FoundAt st laws codec_laws object_laws env_laws (view s.world) key).at s.world
          refl).0
  step-Coherent s t (writes i p at_i) c = writes-Coherent s i p at_i c
  step-Coherent s t (gets id) c =
      unchanged st laws codec_laws object_laws env_laws s _ c
        ((get-Got st laws codec_laws (view s.world) id).at s.world refl).0
  step-Coherent s t lists c =
      unchanged st laws codec_laws object_laws env_laws s _ c
        ((list_keeps st laws codec_laws object_laws env_laws (view s.world)).at s.world refl)

  all-Coherent :
      (c : C) (s : Clients C Io E)
      → WellFormed st laws codec_laws object_laws env_laws (view c)
      → Interleaved st c s
      → Coherent st laws codec_laws object_laws env_laws s
  all-Coherent c s wf (opens n) = record {
    reachable = starts n;
    formed = wf;
    held = λ i p h. absurd (cc h);
    fresh = λ i p h. absurd (cc h);
  }
  all-Coherent c s wf (goes {s = r} before x) = step-Coherent r s x (all-Coherent c r wf before)

  -- A request is atomic: after any interleaving of the steps of any threads, from omaps in which each
  -- object is stored under its own id, the rest of a request that a thread has begun does to the
  -- contents of that moment, and returns, what the contract of the store allows to a call that runs
  -- alone, although what it works on was got before; and it changes nothing but its own id.
  pub write_phase-Atomic :
      (c : C) (s : Clients C Io E) (i : ℕ) (p : Pending Io E)
      → WellFormed st laws codec_laws object_laws env_laws (view c)
      → Interleaved st c s
      → s.pending i ≡ some p
      → Atomic s p
  write_phase-Atomic c s i p wf r at_i = Coherent-Atomic s i p at_i (all-Coherent c s wf r)
