-- ===== src/Lib.antt =====
-- The ceph provider: it stores volumes (images) and their snapshots as JSON objects in rados omaps,
-- and reconciles each object with the rbd images of a ceph cluster.
--
-- How the parts interact. The volume server (internal/volumeserver) checks a request, and creates,
-- updates or deletes an object in the omap store (internal/omap). The store tells its watches; the
-- controllers (internal/controllers) take the id of each object that changed from a work queue, and
-- make librbd calls until the rbd image or snapshot is what the object says. Both share the
-- rounding of sizes (internal/round) and the error conversion (internal/utils). The store holds the
-- mutex of an id (internal/sync) while it changes the object of the id.
--
-- Files. Prelude and its children: numbers, texts, lists and maps that all other files share.
-- Errors: internal/utils/errors.go, Go's errors as data with errors.Is. Utils:
-- internal/utils/utils.go. Exec: Go functions that change the outside world and may fail, with the
-- invariants (Exec.Keeps) and triples (Exec.Triple) of such functions. Api, Api.Meta and ApiUtils:
-- api/. Store: the interface of a store that the servers and controllers hold; Omap, with Calls,
-- implements it as internal/omap/omap.go does. Sync: internal/sync/sync.go, with threads as a step
-- relation. External: librbd, the container registry, the work queue, the event recorder, JSON and
-- the encryptor, which are parameters of the model. Round: internal/round/size.go. Limits:
-- internal/limits/calc.go. Strategy: internal/strategy/strategy.go. Classes:
-- internal/vcr/registry.go, and internal/bcr/registry.go, which is the same text. Encryption:
-- internal/encryption/encryption.go. Ceph with Keyring: internal/ceph. Rater:
-- internal/rater/rater.go. Version: version.go of the two servers. Controllers.Common:
-- internal/controllers/common.go. Controllers.Snapshots:
-- internal/controllers/snapshot_controller.go. Controllers.Images with Clone, Delete and Reconcile:
-- internal/controllers/image_controller.go. Controllers.Start: the construction and the start of
-- both. VolumeServer with Create, Change, Lists, Events and Start: internal/volumeserver.
-- BucketServer with Lists, Classes and Start: internal/bucketserver. ApiUtils.Kubernetes: the part
-- of api/utils.go on Kubernetes objects. VolumeProvider and BucketProvider: app.go of
-- cmd/volumeprovider/app and of cmd/bucketprovider/app, with their gRPC servers in Grpc. The other
-- modules below a part have its laws, its proofs, and examples that run the theorems at concrete
-- worlds.
--
-- State and operations. A Go method becomes a function of the same name in snake case. State is
-- passed explicitly: `Exec C A` takes the outside world `C` to a result or an error, and to the
-- world that is left, also after an error. An object that Go changes in place is returned changed.
-- A call of the store, from Create, Update or Delete, is one step; in Omap.Phases it is a get and
-- what follows it, which the threads of Omap.Interleaving interleave under the mutexes of Sync. The
-- omap of a store is the function `view` of the outside world, and the laws of rados that the
-- theorems assume are the record `RadosLaws`, which `Omap.Memory` shows a rados in memory to
-- satisfy. A write that returns an error may or may not have been applied.
--
-- Bounds. A uint64 is a number below 2 ^ 64, and an int64 the same number read in two's complement;
-- sums and products wrap. Loops are by recursion on the list that they range over; the conversion
-- to float64 tries the 11 exponents that a uint64 can have above 2 ^ 53. The loop of a worker runs
-- on fuel: it ends one round after the last item of the queue.
--
-- Not modelled: logging, contexts and their cancellation, the release of IO contexts, the parsing
-- of flags, the race of the goroutines that Run and Start make, the interceptors of the gRPC
-- servers, and internal/rook (default values that nothing uses). AES-GCM, JSON, YAML and the
-- formatting of floats are parameters. A property that names the calls of a controller is about any
-- invariant `P` of the world: `Keeps P m` says that `m` leaves a world in `P` wherever it started
-- in one, with a result or with an error.
mod Prelude
pub mod Errors
pub mod Exec
pub mod Utils
pub mod Api
pub mod Store
pub mod Omap
pub mod External
pub mod ApiUtils
pub mod Controllers
pub mod Round
pub mod Sync
pub mod Limits
pub mod Strategy
pub mod Classes
pub mod VolumeServer
pub mod BucketServer
pub mod Encryption
pub mod Rater
pub mod Ceph
pub mod VolumeProvider
pub mod BucketProvider
pub mod Grpc
pub mod Version
