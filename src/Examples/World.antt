-- ===== src/Examples/World.antt =====
-- The environment of the examples.
use kubesan.Prelude.{
  String, List, [], ◌∷◌, ◌++◌, Option, none, some, Bool, true, false, ◌==◌, string_eq, ◌≡◌, ◌≢◌,
  eq_iff, sym, ◌∙◌, if◌then◌else◌,
}
use kubesan.Slices.{contains}
use kubesan.Api.{
  Condition, ConditionStatus, condition_true, ObjectMeta, ThinPoolLv, ThinLvSpec, ThinLvStatus,
  Volume, VolumeMode, VolumeWipePolicy, VolumeContentsType, VolumeAccessMode, ThinLvSpecStateName,
  ThinLvStatusStateName, ThinLvContentsType,
}
use kubesan.Exec.{Env, returned, ok, err, not_found, exited}

is_true : ConditionStatus → Bool
is_true condition_true = true
is_true _ = false

unfoldable pub find_condition : List Condition → String → Option Condition
find_condition [] type = none
find_condition (c ∷ cs) type = if c.type == type then some c else find_condition cs type

unfoldable pub is_condition_true : List Condition → String → Bool
unfolding is_true
is_condition_true [] type = false
is_condition_true (c ∷ cs) type =
    if c.type == type then is_true c.status else is_condition_true cs type

without : List String → String → List String
without [] f = []
without (g ∷ gs) f = if g == f then without gs f else g ∷ without gs f

unfoldable pub add_finalizer : ObjectMeta → String → ObjectMeta × Bool
unfolding contains
add_finalizer m f =
    if contains m.finalizers f
    then (m, false)
    else (record m { finalizers = m.finalizers ++ f ∷ [] }, true)

unfoldable pub remove_finalizer : ObjectMeta → String → ObjectMeta × Bool
unfolding contains without
remove_finalizer m f =
    if contains m.finalizers f
    then (record m { finalizers = without m.finalizers f }, true)
    else (m, false)

abbrev pub available : Condition
available = record {
  type = "Available";
  status = condition_true;
  reason = "Created";
  message = "";
  last_transition_time = 1;
}

-- a volume is made at once
abbrev pub stored : Volume → Volume
stored volume = record volume {
  status = record volume.status {
    conditions = available ∷ [];
    size_bytes = volume.spec.size_bytes;
  };
}

abbrev pub world : Env
world = record {
  local_node_name = "node-1";
  pod_ip = "10.0.0.1";
  domain = "kubesan.gitlab.io";
  get_pool = λ t name. err not_found;
  write_pool = λ t verb pool. ok pool;
  delete_pool = λ t pool. ok tt;
  get_volume = λ t name. err not_found;
  write_volume = λ t verb volume. ok (stored volume);
  get_snapshot = λ t name. err not_found;
  write_snapshot = λ t verb snapshot. ok snapshot;
  delete_volume = λ t volume. ok tt;
  delete_snapshot = λ t name. ok tt;
  list_volumes = λ t. ok [];
  list_snapshots = λ t. ok [];
  get_export = λ t name. err not_found;
  write_export = λ t verb e. ok e;
  delete_export = λ t e. ok tt;
  list_exports = λ t. ok [];
  connect_qmp = λ t. ok tt;
  run_qmp = λ t command. returned;
  query_exports = λ t. ok [];
  poll_work = λ t name. some (ok tt);
  reads_before_call = false;
  run_command = λ t command. exited 0 "";
  stat_path = λ t path. ok false;
  file_op = λ t op. ok false;
  is_status_condition_true = is_condition_true;
  find_status_condition = find_condition;
  set_status_condition = λ conditions condition. (conditions ++ condition ∷ [], true);
  is_dns_label = λ name. [];
  add_finalizer = add_finalizer;
  remove_finalizer = remove_finalizer;
  set_owner_reference = λ owner m. ok m;
  remove_owner_reference = λ owner m. m;
  set_controller_reference = λ owner m. ok m;
}

abbrev pub meta : String → ObjectMeta
meta name = record {
  name = name;
  labels = none;
  finalizers = [];
  owner_references = [];
  deletion_timestamp = none;
  generation = 1;
  resource_version = 7;
}

abbrev pub lv_spec : String → ThinLvSpecStateName → ThinLvSpec
lv_spec name state = record {
  name = name;
  binding = "ns/claim";
  contents = record { contents_type = ThinLvContentsType.empty; source_thin_lv_name = none };
  read_only = false;
  size_bytes = 4194304;
  state = state;
}

abbrev pub lv_status : String → ThinLvStatusStateName → ThinLvStatus
lv_status name state = record {
  name = name;
  state = record { name = state; path = none };
  size_bytes = 4194304;
}

abbrev pub pool_of : List ThinLvSpec → List ThinLvStatus → String → String → ThinPoolLv
pool_of specs statuses wanted_on active_on = record {
  metadata = meta "pool";
  spec = record {
    vg_name = "vg";
    size_bytes = 8388608;
    thin_lvs = specs;
    active_on_node = wanted_on;
  };
  status = record {
    observed_generation = 1;
    conditions = available ∷ [];
    active_on_node = active_on;
    thin_lvs = statuses;
  };
}

abbrev pub completed : Condition
completed = record {
  type = "DataSourceCompleted";
  status = condition_true;
  reason = "Completed";
  message = "";
  last_transition_time = 1;
}

-- a linear volume that is attached to the nodes
abbrev pub linear_volume : List String → Volume
linear_volume nodes = record {
  metadata = record (meta "pvc") { finalizers = "kubesan.gitlab.io/finalizer" ∷ [] };
  spec = record {
    vg_name = "vg";
    binding = "ns/claim";
    mode = VolumeMode.linear;
    wipe_policy = VolumeWipePolicy.full;
    type = record { block = some tt; filesystem = none };
    contents = record {
      contents_type = VolumeContentsType.empty;
      source_volume = none;
      source_snapshot = none;
    };
    access_modes = VolumeAccessMode.single_node_multi_writer ∷ [];
    size_bytes = 8388608;
    attach_to_nodes = [];
  };
  status = record {
    observed_generation = 1;
    conditions = completed ∷ available ∷ [];
    size_bytes = 4194304;
    attached_to_nodes = nodes;
    path = "/dev/vg/pvc";
    nbd_export = "";
  };
}

pub different : (a b : String) → (a == b) ≡ false → a ≢ b
different a b h e = true≢false (sym ((eq_iff a b).1 e) ∙ h)
  where
    true≢false : true ≡ false → ⊥
    true≢false p = cc
