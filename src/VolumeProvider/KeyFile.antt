-- ===== src/VolumeProvider/KeyFile.antt =====
-- The temporary file with the ceph key that Run makes from a keyring.
use ceph_provider.Prelude.{String, List, not, Option, none, some, str_eq, ◌&&◌}
use ceph_provider.Prelude.Words.{int64_lt}
use ceph_provider.Errors.{new, wrap}
use ceph_provider.Exec.{Exec, Result, ok, err, pure, fail, lift, catch, deferring, annotate}
use ceph_provider.Exec.Keeps.{
  Keeps, Keeps-pure, Keeps-fail, Keeps-catch, Keeps-annotate, Keeps-lift, Keeps-if, Keeps-deferring,
  keeps_rules,
}
use ceph_provider.Exec.Triple.{
  Triple, Triple-catch, Triple-bind, Triple-pure, Triple-fail, Triple-if, Triple-deferring,
}
use ceph_provider.Encryption.{Crypto, new_aes_gcm_encryptor}
use ceph_provider.Ceph.{Cluster, Credentials, connect_to_rados, check_if_pool_exists}
use ceph_provider.Ceph.Keyring.{Runes, get_key_from_keyring}
use ceph_provider.Classes.{ClassFiles, load_volume_classes_file}
use ceph_provider.VolumeProvider.{
  Host, Task, Options, CephOptions, configure_ceph_auth, cleanup, start_tasks, serve, run,
}

abbrev pub Created :
    {C : Type 0} → (C → Type 0) → (String → C → Type 0) → Result String → C → Type 0
Created P Left (ok name) c = Left name c
Created P Left (err e) c = P c

-- A write that succeeded.
abbrev pub Written : {A : Type 0} → Result A → Type 0 → Type 0
Written (ok a) P = P
Written (err e) P = ⊥

module _ {C B K F : Type 0} (host : Host C) (crypto : Crypto C B) (cluster : Cluster C K)
    (files : ClassFiles C F) where
  -- The calls that Run makes besides those on the temporary file.
  pub record CallsKeep (P : C → Type 0) : Type 0 where
    pub kek : (path : String) → Keeps P (crypto.read_file path)
    pub new_conn : (user : String) → Keeps P (cluster.new_conn_with_user user)
    pub parse : (k : K) (args : List String) → Keeps P (cluster.parse_cmd_line_args k args)
    pub connect : (k : K) → Keeps P (cluster.connect k)
    pub list_pools : (k : K) → Keeps P (cluster.list_pools k)
    pub new_image_events : Keeps P host.new_image_events
    pub new_snapshot_events : Keeps P host.new_snapshot_events
    pub go : (t : Task) → Keeps P (host.go t)
    pub wait : Keeps P host.wait
    pub open_file : (path : String) → Keeps P (files.open_file path)
    pub decode : (f : F) → Keeps P (files.decode f)
    pub close : (f : F) → Keeps P (files.close f)

  module _ {P : C → Type 0} (k : CallsKeep P) where
    connect_to_rados-Keeps : (c : Credentials) → Keeps P (connect_to_rados cluster c)
    unfolding connect_to_rados
    connect_to_rados-Keeps c =
        Keeps-catch _ _ _ (Keeps-annotate _ _ (k.new_conn c.user)) Keeps-fail λ conn.
          Keeps-catch _ _ _ (Keeps-annotate _ _ (k.parse conn _)) Keeps-fail
            λ u. Keeps-catch _ _ _ (k.connect conn) Keeps-fail (raced conn)
      where
        raced :
            (conn : K) (o : Option (Result (Unit {0})))
            → Keeps {A = K} P (elim o [
              | none ↦ fail (new "ceph connect timeout")
              | some outcome ↦
                  catch (annotate "connecting failed" (lift outcome)) fail (λ u. pure conn)
            ])
        raced conn none = Keeps-fail _
        raced conn (some outcome) = search keeps_rules

    new_aes_gcm_encryptor-Keeps : (path : String) → Keeps P (new_aes_gcm_encryptor crypto path)
    unfolding new_aes_gcm_encryptor
    new_aes_gcm_encryptor-Keeps path = search (keeps_rules, k.kek) depth 14

    check_if_pool_exists-Keeps :
        (conn : K) (pool : String) → Keeps P (check_if_pool_exists cluster conn pool)
    unfolding check_if_pool_exists
    check_if_pool_exists-Keeps conn pool = search (keeps_rules, k.list_pools) depth 10

    load_volume_classes_file-Keeps : (path : String) → Keeps P (load_volume_classes_file files path)
    unfolding load_volume_classes_file
    load_volume_classes_file-Keeps path =
        search (keeps_rules, k.open_file, k.decode, k.close) depth 10

    first :
        {A A' : Type 0} {m : Exec C A} {f : A → Exec C A'}
        → Keeps P m
        → ((a : A) → Keeps P (f a))
        → Keeps P (catch m fail f)
    first km kf = Keeps-catch _ _ _ km Keeps-fail kf

    checked : {A : Type 0} (text : String) (x : Result A) → Keeps P (annotate text (lift x))
    checked text x = Keeps-annotate _ _ (Keeps-lift x)

    start_tasks-Keeps : (o : Options) → Keeps P (start_tasks host crypto cluster files o)
    unfolding start_tasks
    start_tasks-Keeps o = first (checked _ _) λ u1. first (k.go _) λ u2. first (checked _ _) λ u3.
        first (k.go _) λ u4. first (k.go _) λ u5. first (k.go _) λ u6. first (k.go _) λ u7.
          first (Keeps-annotate _ _ (load_volume_classes_file-Keeps _))
            λ classes. first (checked _ _) λ u8. first (k.go _) λ u9. k.wait

    serve-Keeps : (o : Options) → Keeps P (serve host crypto cluster files o)
    unfolding serve
    serve-Keeps o = first (Keeps-annotate _ _ (new_aes_gcm_encryptor-Keeps _)) λ encryptor.
        first (Keeps-annotate _ _ (connect_to_rados-Keeps _)) λ conn.
          first (Keeps-annotate _ _ (check_if_pool_exists-Keeps conn _)) λ u1.
            first (checked _ _) λ u2. first (Keeps-annotate _ _ k.new_image_events) λ u3.
              first (checked _ _)
                λ u4. first (Keeps-annotate _ _ k.new_snapshot_events) λ u5. start_tasks-Keeps o

  -- What the calls on the temporary file do: `Left name c` is a world in which the file `name` is left,
  -- and which is in `P` but for that. The key is written, and the file can be removed.
  pub record FileLaws (P : C → Type 0) (Left : String → C → Type 0) : Type 0 where
    pub clean : CallsKeep P
    pub dirty : (name : String) → CallsKeep (Left name)
    pub reads : (path : String) → Keeps P (host.read_file path)
    pub creates : Triple P host.create_temp (Created P Left)
    pub writes :
        (name : String) (key : Runes)
        → Triple (Left name) (host.write_string name key) (λ x c. Written x (Left name c))
    pub removes : (name : String) → Triple (Left name) (host.remove name) (λ x c. P c)

  module _ {P : C → Type 0} {Left : String → C → Type 0} (laws : FileLaws P Left) where
    -- After configureCephAuth: its cleanup has a file to remove, or none.
    abbrev Configured : Result (Option String × Result CephOptions) → C → Type 0
    Configured (err e) c = P c
    Configured (ok (none, r)) c = P c
    Configured (ok (some name, ok opts)) c = Left name c
    Configured (ok (some name, err e)) c = ⊥

    keyring-Keeps : (path : String) → Keeps P (get_key_from_keyring host.read_file path)
    unfolding get_key_from_keyring
    keyring-Keeps path = search (keeps_rules, laws.reads) depth 8

    configure_ceph_auth-Configured :
        (opts : CephOptions) → Triple P (configure_ceph_auth host opts) Configured
    unfolding configure_ceph_auth
    configure_ceph_auth-Configured opts =
        Triple-if (str_eq opts.key_file "" && str_eq opts.keyring_file "") _ _
          (λ y. Triple-pure (none, err _) (λ c h. h))
          λ n.
            Triple-if (not (str_eq opts.key_file "")) _ _
              (λ y. Triple-pure (none, ok opts) (λ c h. h))
              λ n'.
                Triple-catch (λ x c. P c) _ _ _ (record { at = (keyring-Keeps _).after })
                  (λ e. Triple-pure (none, err _) (λ c h. h))
                  λ key.
                    Triple-catch (Created P Left) _ _ _ laws.creates
                      (λ e. Triple-pure (none, err _) (λ c h. h))
                      λ name.
                        Triple-catch (λ x c. Written x (Left name c)) _ _ _ (laws.writes name key)
                          (λ e. record { at = λ c h. absurd h })
                          (λ u. Triple-pure (some name, ok _) (λ c h. h))

    -- The rest of Run after the configuration.
    abbrev configured : Options → Option String → Result CephOptions → Exec C Unit
    configured opts file r = elim r [
      | err e ↦ fail (wrap "failed to configure ceph auth" e)
      | ok ceph ↦
          deferring (cleanup host file)
            (serve host crypto cluster files (record opts { ceph = ceph }))
    ]

    configured-Keeps :
        (opts : Options) (file : Option String) (r : Result CephOptions)
        → Triple (Configured (ok (file, r))) (configured opts file r) (λ x c. P c)
    unfolding cleanup
    configured-Keeps opts none (err e) = Triple-fail _ (λ c h. h)
    configured-Keeps opts none (ok ceph) = record {
      at = (Keeps-deferring _ _ (Keeps-pure tt) (serve-Keeps laws.clean _)).after;
    }
    configured-Keeps opts (some name) (err e) = record { at = λ c h. absurd h }
    configured-Keeps opts (some name) (ok ceph) =
        Triple-deferring (λ x c. Left name c) _ _
          (record { at = (serve-Keeps (laws.dirty name) _).after }) (λ x. laws.removes name)

    -- Run leaves no temporary file with the ceph key, whether it ends with an error or not: what its
    -- other calls keep, it keeps, if the key that it has read can be written to the file that it has
    -- created, and if this file can be removed.
    pub run-Keeps : (opts : Options) → Keeps P (run host crypto cluster files opts)
    unfolding run
    run-Keeps opts =
        Keeps-if (int64_lt 1 opts.ceph.worker_size) _ _
          (λ y. record {
            after =
                (Triple-bind Configured _ _ (configure_ceph_auth-Configured opts.ceph) (λ e c h. h)
                  (λ a. configured-Keeps opts a.0 a.1)).at;
          })
          (λ n. Keeps-fail _)
