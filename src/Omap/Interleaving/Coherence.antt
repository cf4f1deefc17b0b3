-- ===== src/Omap/Interleaving/Coherence.antt =====
-- What holds of the clients of internal/omap/omap.go after any steps: the steps of the mutexes, the
-- gets, and the steps that leave the omaps as they are.
use ceph_provider.Prelude.{ℕ, none, some, ◌≡◌, refl, sym, ◌∙◌, subst, inl, inr}
use ceph_provider.Exec.{Result, ok}
use ceph_provider.Sync.Threads.{System, Step, Reachable, steps, holding, phase_of}
use ceph_provider.Omap.{OmapStore}
use ceph_provider.Omap.Laws.{Contents, RadosLaws, CodecLaws, EnvLaws, ObjectLaws}
use ceph_provider.Omap.Reads.{Got}
use ceph_provider.Omap.Phases.{Request, request_id, read_phase, read_phase-FoundAt, FoundAt}
use ceph_provider.Omap.Interleaving.{Pending, pending_id, Clients, assign, mover}
use ceph_provider.Omap.Interleaving.Movers.{phase_of-mover, assign-none, assign-some}
use ceph_provider.Omap.Interleaving.Frame.{WellFormed}

module _ {C Io E : Type 0} (st : OmapStore C Io E) {view : C → Contents}
    (laws : RadosLaws st.rados view) (codec_laws : CodecLaws st.codec)
    (object_laws : ObjectLaws st.object) (env_laws : EnvLaws st view) where
  open st use {omap_name}

  -- What holds after any steps: a thread with a begun request holds the mutex of its id, and what its
  -- get has found is there.
  pub record Coherent (s : Clients C Io E) : Type 0 where
    pub reachable : Reachable s.locks
    pub formed : WellFormed st laws codec_laws object_laws env_laws (view s.world)
    pub held :
        (i : ℕ) (p : Pending Io E)
        → s.pending i ≡ some p
        → (e : ℕ) × (phase_of i s.locks.threads ≡ some (holding (pending_id st p) e))
    pub fresh :
        (i : ℕ) (p : Pending Io E)
        → s.pending i ≡ some p
        → Got st laws (view s.world) (pending_id st p) p.found

  abbrev at_world : Clients C Io E → C → Clients C Io E
  at_world s w = record s { world = w }

  -- A step that leaves the omaps as they are.
  pub unchanged :
      (s : Clients C Io E) (w : C) → Coherent s → view w ≡ view s.world → Coherent (at_world s w)
  unchanged s w c same = record {
    reachable = c.reachable;
    formed = subst (WellFormed st laws codec_laws object_laws env_laws) (sym same) c.formed;
    held = c.held;
    fresh =
        λ i p h. subst (λ v. Got st laws v (pending_id st p) p.found) (sym same) (c.fresh i p h);
  }

  pub locks-Coherent :
      (s : Clients C Io E) (t : System) (x : Step s.locks t)
      → Coherent s
      → Coherent (record s { locks = t; pending = assign (mover x) none s.pending })
  locks-Coherent s t x c = record {
    reachable = steps c.reachable x;
    formed = c.formed;
    held = λ i p h.
        let (n, at_i) = assign-none (mover x) i s.pending p h in
        let (e, at_key) = c.held i p at_i in (e, phase_of-mover x i n ∙ at_key);
    fresh = λ i p h. c.fresh i p (assign-none (mover x) i s.pending p h).1;
  }

  -- A thread that holds the mutex of an id gets what is stored at it.
  pub reads-Coherent :
      (s : Clients C Io E) (i e : ℕ) (q : Request E) (io : Io) (r : Result E) (w : C)
      → phase_of i s.locks.threads ≡ some (holding (request_id st q) e)
      → read_phase st (request_id st q) s.world ≡ (ok (io, r), w)
      → Coherent s
      → Coherent (record s {
        world = w;
        pending = assign i (some (record { request = q; io = io; found = r })) s.pending;
      })
  reads-Coherent s i e q io r w at_key found c = record {
    reachable = c.reachable;
    formed = c'.formed;
    held = λ j p h. elim (assign-some i j s.pending p begun h) [
      | inl (here, same) ↦ (
        e,
        subst (λ k. phase_of k s.locks.threads ≡ some (holding (pending_id st p) e)) here
            (subst (λ x. phase_of i s.locks.threads ≡ some (holding (pending_id st x) e)) (sym same)
              at_key),
      )
      | inr before ↦ c.held j p before
    ];
    fresh = λ j p h. elim (assign-some i j s.pending p begun h) [
      | inl (here, same) ↦
          subst (λ x. Got st laws (view w) (pending_id st x) x.found) (sym same) got.1
      | inr before ↦ c'.fresh j p before
    ];
  }
    where
      begun : Pending Io E
      begun = record { request = q; io = io; found = r }

      got : (view w ≡ view s.world) × Got st laws (view w) (request_id st q) r
      got =
          let (same, there) =
            subst
              (λ (x : Result (Io × Result E) × C).
                (view x.1 ≡ view s.world)
                × FoundAt st laws codec_laws object_laws env_laws (view s.world) (request_id st q)
                    x.0)
              found
              ((read_phase-FoundAt st laws codec_laws object_laws env_laws (view s.world)
                  (request_id st q)).at
                s.world refl) in
          (same, subst (λ v. Got st laws v (request_id st q) r) (sym same) there)

      c' : Coherent (at_world s w)
      c' = unchanged s w c got.0
