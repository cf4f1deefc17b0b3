-- ===== src/Store.antt =====
-- The store.Store interface of the object stores as its clients see it, over the shared state `C`.
-- `update` hands back the object whose resource version it has advanced: Go advances it in the
-- caller's object. internal/omap implements it: `Omap.store`.
use ceph_provider.Prelude.{Option, List, String}
use ceph_provider.Errors.{Error}
use ceph_provider.Exec.{Exec}

pub record Store (C E : Type 0) : Type 0 where
  pub create : E → Exec C E
  pub get : String → Exec C E
  pub update : E → Exec C E
  pub delete : String → Exec C Unit
  pub list : Exec C (List E)
  -- store.IgnoreErrNotFound; none is Go's nil
  pub ignore_not_found : Error → Option Error
