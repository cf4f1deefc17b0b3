-- ===== src/Grpc.antt =====
-- The gRPC server of the two providers: runGRPCServer of cmd/volumeprovider/app/app.go, and the end of
-- Run of cmd/bucketprovider/app/app.go. The interceptor of the requests only logs.
use ceph_provider.Prelude.{String}
use ceph_provider.Exec.{Exec, annotate, deferring, ◌>>=◌, ◌>>◌}

-- CleanupSocketIfExists, net.Listen on a unix socket, with the listener as a handle `L`, and Serve.
pub record Sockets (C L : Type 0) : Type 0 where
  pub cleanup_socket_if_exists : String → Exec C Unit
  pub listen : String → Exec C L
  pub close : L → Exec C Unit
  pub serve : L → Exec C Unit

module _ {C L : Type 0} (sockets : Sockets C L) where
  unfoldable pub run_grpc_server : String → Exec C Unit
  run_grpc_server address = do
    annotate "error cleaning up socket" (sockets.cleanup_socket_if_exists address)
    l ← annotate "failed to listen" (sockets.listen address)
    deferring (sockets.close l) (annotate "error serving grpc" (sockets.serve l))

  unfoldable pub serve_buckets : String → Exec C Unit
  serve_buckets address = do
    annotate "error cleaning up socket" (sockets.cleanup_socket_if_exists address)
    l ← annotate "failed to listen" (sockets.listen address)
    deferring (sockets.close l) (annotate "error serving" (sockets.serve l))
