-- ===== src/Examples/Staging.antt =====
-- The theorems on the node service at concrete requests.
use kubesan.Prelude.{[], ◌∷◌, some, ◌≡◌, refl}
use kubesan.Exec.{Env, ok}
use kubesan.Csi.{AccessType, AccessMode}
use kubesan.Csi.Node.{StageRequest, node_stage_volume, node_unstage_volume}
use kubesan.Csi.Node.Attachment.{AttachesFirst, node_stage_volume-AttachesFirst}
use kubesan.Csi.Node.Order.{UnmountsFirst, node_unstage_volume-UnmountsFirst}
use kubesan.Examples.World.{world, linear_volume}

-- a cluster with a volume that is attached to this node
abbrev attached : Env
attached = record world {
  get_volume = λ t name. ok (linear_volume ("node-1" ∷ []));
  write_volume = λ t verb volume. ok volume;
}

abbrev request : StageRequest
request = record {
  volume_id = "pvc";
  publish_context = [];
  staging_target_path = "/staging";
  capability =
      some (record {
        access_type = AccessType.block;
        access_mode = some AccessMode.single_node_writer;
      });
}

staged : (node_stage_volume 3 request attached []).0 ≡ ok tt
unfolding node_stage_volume kubesan.Csi.Names.validate_volume_context
    kubesan.Csi.Names.validate_volume_capability kubesan.Csi.Volumes.Change.retry_on_conflict
    kubesan.Csi.Client.watch_volume_until
staged = refl

node_stage_volume-AttachesFirst_example :
    AttachesFirst attached (node_stage_volume 3 request attached []).1
node_stage_volume-AttachesFirst_example = node_stage_volume-AttachesFirst attached 3 request

-- the same, once the volume is detached
abbrev detached : Env
detached = record attached { get_volume = λ t name. ok (linear_volume []) }

unstaged : (node_unstage_volume 3 "pvc" "/staging" detached []).0 ≡ ok tt
unfolding node_unstage_volume kubesan.Csi.Volumes.Change.retry_on_conflict
    kubesan.Csi.Client.watch_volume_until
unstaged = refl

node_unstage_volume-UnmountsFirst_example :
    UnmountsFirst "/staging" (node_unstage_volume 3 "pvc" "/staging" detached []).1
node_unstage_volume-UnmountsFirst_example =
    node_unstage_volume-UnmountsFirst detached 3 "pvc" "/staging"
