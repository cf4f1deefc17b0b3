-- ===== src/VolumeServer/ListExamples.antt =====
-- A store with an image of this provider and one of another.
use ceph_provider.Prelude.{ℕ, Option, some, [], ◌∷◌, List, refl}
use ceph_provider.Exec.{pure}
use ceph_provider.Api.{Image, manager_label, volume_manager}
use ceph_provider.Controllers.Still.{still_store}
use ceph_provider.VolumeServer.{Server}
use ceph_provider.VolumeServer.Lists.{Filter, list_volumes}
use ceph_provider.VolumeServer.VolumeLists.{Lists, Selected, list_volumes-Lists}
use ceph_provider.VolumeServer.Examples.{server, sized}

abbrev managed : Image
managed = record (sized 5) {
  metadata = record (sized 5).metadata { labels = (manager_label, volume_manager) ∷ [] };
}

abbrev two : List Image
two = managed ∷ sized 3 ∷ []

abbrev listing : Server ℕ
listing = record server { image_store = record (still_store Image) { list = pure two } }

abbrev everything : Option Filter
everything = some (record { id = ""; label_selector = [] })

list_volumes-Lists_example :
    Lists listing (Selected listing everything) two (list_volumes listing everything 7).0
unfolding pure
list_volumes-Lists_example = list_volumes-Lists listing everything 7 refl
