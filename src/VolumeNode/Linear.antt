-- ===== src/VolumeNode/Linear.antt =====
-- internal/manager/node/volume_node_controller.go: `reconcileLinear`, which activates a linear volume
-- on this node as long as the volume belongs here.
use kubesan.Prelude.{Bool, true, false, if◌then◌else◌}
use kubesan.Api.{Volume}
use kubesan.Exec.{Env, Exec, pure, ask, ◌>>=◌, ◌>>◌}
use kubesan.Commands.{path_exists_on_host}
use kubesan.VolumeController.{status_update}
use kubesan.VolumeNode.{with_local_node, without_local_node}
use kubesan.VolumeNode.Thin.{should_be_attached}
use kubesan.VolumeNode.Population.{linear_path, change_activation}

-- the LV is activated or deactivated; whether it is active afterwards
unfoldable pub switch : Volume → Bool → Bool → Exec Bool
unfolding change_activation pure ◌>>=◌
switch volume true false = do change_activation volume "sy"; pure true
switch volume false true = do change_activation volume "n"; pure false
switch volume true true = pure true
switch volume false false = pure false

-- the status follows
unfoldable pub linear_status : Env → Volume → Bool → Volume × Bool
unfolding with_local_node without_local_node
linear_status env volume true = with_local_node env volume
linear_status env volume false = without_local_node env volume

unfoldable pub note_linear : Volume → Bool → Exec (Unit {0})
unfolding linear_status status_update ask pure ◌>>=◌
note_linear volume active = do
  env ← ask
  let (noted, changed) = linear_status env volume active
  if changed then (do status_update noted; pure tt) else pure tt

unfoldable pub reconcile_linear : Volume → Exec (Unit {0})
unfolding switch note_linear should_be_attached path_exists_on_host ask ◌>>=◌
reconcile_linear volume = do
  env ← ask
  found ← path_exists_on_host (linear_path volume)
  active ← switch volume (should_be_attached env volume) found
  note_linear volume active
