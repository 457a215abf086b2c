-- ===== src/Examples/Controllers.antt =====
-- The theorems on the cluster controller and on commands at concrete inputs.
use kubesan.Prelude.{String, List, [], ◌∷◌, true, false, ◌≡◌}
use kubesan.Prelude.Int.{pos}
use kubesan.Api.{ThinPoolLv}
use kubesan.Exec.{ok}
use kubesan.Commands.Munge.{munge, unmunge, bytes, IsTagText, munge_lem}
use kubesan.Commands.Counter.{prune_loop, counter_loop, prune_loop-counter_loop}
use kubesan.NodePool.Removal.{HasRemoved}
use kubesan.ClusterPool.{reconcile_deleting, reconcile_not_deleting}
use kubesan.ClusterPool.Deletion.{IsGuarded, is_in_use, reconcile_deleting_lem}
use kubesan.ClusterPool.Creation.{IsSecured, reconcile_not_deleting_lem}
use kubesan.Examples.World.{world, pool_of}

-- a pool that nothing uses
abbrev idle : ThinPoolLv
idle = pool_of [] [] "" ""

reconcile_deleting_lem_example :
    (is_in_use world idle ≡ true → reconcile_deleting idle world [] ≡ (ok tt, []))
    × IsGuarded idle (reconcile_deleting idle world []).1
    × (is_in_use world idle ≡ false
        → (reconcile_deleting idle world []).0 ≡ ok tt
        → HasRemoved idle "pool" (reconcile_deleting idle world []).1)
reconcile_deleting_lem_example = reconcile_deleting_lem idle world [] tt

-- a pool that has just been asked for
abbrev fresh : ThinPoolLv
fresh = record idle { status = record idle.status { conditions = [] } }

reconcile_not_deleting_lem_example : IsSecured world fresh (reconcile_not_deleting fresh world []).1
reconcile_not_deleting_lem_example = reconcile_not_deleting_lem world fresh [] tt

munge_lem_example :
    IsTagText (bytes (munge "ns/my claim"))
    × (unmunge (bytes (munge "ns/my claim")) ≡ bytes "ns/my claim")
munge_lem_example = munge_lem "ns/my claim"

abbrev tags : List String
tags = "kubesan/gen=3" ∷ "other" ∷ "kubesan/gen=7" ∷ []

prune_loop-counter_loop_example :
    (prune_loop "vg" "lv" "kubesan/gen" tags (pos 5) world []).0
    ≡ ok (counter_loop "kubesan/gen" tags (pos 5))
prune_loop-counter_loop_example =
    prune_loop-counter_loop "vg" "lv" "kubesan/gen" tags (pos 5) world []
