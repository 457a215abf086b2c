-- ===== src/VolumeNode/Attached.antt =====
-- What `updateStatusAttachedToNodes` and `reconcileLinear` make of a volume's status.
use kubesan.Prelude.{
  ℕ, ◌≤◌, String, [], ◌∷◌, ◌++◌, Option, none, some, Bool, true, false, ◌||◌, ◌≡◌, ◌≢◌, refl, inl,
  inr, ◌==◌, string_eq, eq_iff, arith, ltb, Bool-cases,
}
use kubesan.Slices.{contains, remove_all}
use kubesan.Slices.Laws.{contains-append, contains-remove_all}
use kubesan.Api.{Volume, ThinPoolLv, ThinLvStatus}
use kubesan.Exec.{Env}
use kubesan.ThinPool.{volume_to_thin_lv_name}
use kubesan.VolumeNode.{
  with_local_node, without_local_node, with_larger_size, is_thin_lv_active_on_local_node,
  attached_status,
}

-- the status has this node exactly if it is attached, and the other nodes as before; its size does not
-- shrink; a volume that is not flagged is the old one
pub record IsNoted (env : Env) (volume : Volume) (attached : Bool) (r : Volume × Bool)
    : Type 0 where
  pub here : contains r.0.status.attached_to_nodes env.local_node_name ≡ attached
  pub elsewhere :
      (node : String)
      → (node == env.local_node_name) ≡ false
      → contains r.0.status.attached_to_nodes node ≡ contains volume.status.attached_to_nodes node
  pub larger : volume.status.size_bytes ≤ r.0.status.size_bytes
  pub unchanged : r.1 ≡ false → r.0 ≡ volume

same : (s : String) → (s == s) ≡ true
same s = (eq_iff s s).1 refl

appended-IsNoted :
    (env : Env) (volume : Volume)
    → IsNoted env volume true (
      record volume {
        status = record volume.status {
          attached_to_nodes = volume.status.attached_to_nodes ++ env.local_node_name ∷ [];
        };
      },
      true,
    )
unfolding contains
appended-IsNoted env volume = record {
  here = rw (contains-append, same env.local_node_name) (or_true _);
  elsewhere = λ node other. rw (contains-append, other) (or_false _);
  larger = omega arith;
  unchanged = λ changed. absurd (true≢false changed);
}
  where
    or_true : (b : Bool) → (b || true) ≡ true
    or_true b = ground arith

    or_false : (b : Bool) → (b || false) ≡ b
    or_false b = ground arith

    true≢false : true ≢ false
    true≢false p = cc

with_local_node-IsNoted :
    (env : Env) (volume : Volume) → IsNoted env volume true (with_local_node env volume)
unfolding with_local_node
with_local_node-IsNoted env volume =
    elim (Bool-cases (contains volume.status.attached_to_nodes env.local_node_name)) [
      | inl there ↦ rw there (record {
        here = there;
        elsewhere = λ node other. refl;
        larger = omega arith;
        unchanged = λ same. refl;
      })
      | inr missing ↦ rw missing (appended-IsNoted env volume)
    ]

removed-IsNoted :
    (env : Env) (volume : Volume)
    → IsNoted env volume false (
      record volume {
        status = record volume.status {
          attached_to_nodes = remove_all volume.status.attached_to_nodes env.local_node_name;
        };
      },
      true,
    )
removed-IsNoted env volume = record {
  here = rw (contains-remove_all, same env.local_node_name) refl;
  elsewhere = λ node other. rw (contains-remove_all, other) refl;
  larger = omega arith;
  unchanged = λ changed. absurd (true≢false changed);
}
  where
    true≢false : true ≢ false
    true≢false p = cc

pub without_local_node-IsNoted :
    (env : Env) (volume : Volume) → IsNoted env volume false (without_local_node env volume)
unfolding without_local_node
without_local_node-IsNoted env volume =
    elim (Bool-cases (contains volume.status.attached_to_nodes env.local_node_name)) [
      | inl there ↦ rw there (removed-IsNoted env volume)
      | inr missing ↦ rw missing (record {
        here = missing;
        elsewhere = λ node other. refl;
        larger = omega arith;
        unchanged = λ same. refl;
      })
    ]

with_larger_size-IsNoted :
    (env : Env) (volume : Volume) (r : Volume × Bool) (status : Option ThinLvStatus)
    → IsNoted env volume true r
    → IsNoted env volume true (with_larger_size r status)
unfolding with_larger_size
with_larger_size-IsNoted env volume r none k = k
with_larger_size-IsNoted env volume r (some status) k =
    elim (Bool-cases (ltb r.0.status.size_bytes status.size_bytes)) [
      | inl larger ↦ rw larger (record {
        here = k.here;
        elsewhere = k.elsewhere;
        larger = grows (lt_of larger) k.larger;
        unchanged = λ changed. absurd (true≢false changed);
      })
      | inr kept ↦ rw kept k
    ]
  where
    true≢false : true ≢ false
    true≢false p = cc

    lt_of : {a b : ℕ} → ltb a b ≡ true → a ≤ b
    lt_of h = ground arith

    grows : {a b c : ℕ} → b ≤ c → a ≤ b → a ≤ c
    grows h k = omega arith

-- `updateStatusAttachedToNodes` notes whether the volume is attached: afterwards this node is among the
-- nodes of the status exactly if it is, the other nodes are there as before, the size has not become
-- smaller, and a volume that is not flagged as changed is the old one.
pub attached_status-IsNoted :
    (env : Env) (volume : Volume) (attached : Bool) (pool : ThinPoolLv)
    → IsNoted env volume attached (attached_status env volume attached pool)
unfolding attached_status
attached_status-IsNoted env volume false pool = without_local_node-IsNoted env volume
attached_status-IsNoted env volume true pool =
    elim (Bool-cases
      (is_thin_lv_active_on_local_node env pool (volume_to_thin_lv_name volume.metadata.name))) [
        | inl active ↦
            rw active (with_larger_size-IsNoted env volume _ _ (with_local_node-IsNoted env volume))
        | inr elsewhere ↦ rw elsewhere (with_local_node-IsNoted env volume)
      ]
