-- ===== src/Classes/Examples.antt =====
-- A registry of two classes.
use ceph_provider.Prelude.{String, [], ◌∷◌, some, ◌≡◌, refl, lookup, insert}
use ceph_provider.Classes.{Class, Registry, get_class, new_class_registry}
use ceph_provider.Classes.Names.{IsListed, new_class_registry-IsListed}

abbrev fast : Class
fast = record { name = "fast"; tps = 20; iops = 10 }

abbrev slow : Class
slow = record { name = "slow"; tps = 2; iops = 1 }

abbrev two : Registry
two = ("fast", fast) ∷ ("slow", slow) ∷ []

new_class_registry-IsListed_example :
    (IsListed fast (fast ∷ slow ∷ []) → get_class two "fast" ≡ some fast)
    × (get_class two "slow" ≡ some fast
        → (◌≡◌ {A = String} "slow" "fast") × IsListed fast (fast ∷ slow ∷ []))
unfolding new_class_registry lookup insert
new_class_registry-IsListed_example =
    new_class_registry-IsListed (fast ∷ slow ∷ []) two "slow" fast refl
