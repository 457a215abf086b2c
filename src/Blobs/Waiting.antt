-- ===== src/Blobs/Waiting.antt =====
-- What a blob that is reported as created has in the status of its pool.
use kubesan.Prelude.{
  ℕ, String, Option, none, some, Bool, true, false, ◌≤◌, ◌≡◌, refl, leb→le, if◌then◌else◌,
}
use kubesan.Api.{ThinPoolLv, ThinLvStatus, ThinLvContents, find_thin_lv_status}
use kubesan.Exec.{Err, ok, Env, Trace, Exec, throw, pure, watch_pending, ◌>>=◌}
use kubesan.Exec.Rules.{>>=-eq-ok}
use kubesan.ThinPool.{volume_to_thin_lv_name, update_thin_pool_lv}
use kubesan.Blobs.{Copies, create_thin_lv, check_thin_lv_exists, exists_with_size}
use kubesan.Blobs.Create.{
  finish_creation, create_and_wait, create_pool_object, create_blob, empty_contents,
}

-- the pool's status has the thin LV, with at least the size
abbrev pub HasSize : String → ℕ → ThinPoolLv → Type 0
HasSize name size pool =
    (status : ThinLvStatus) × (find_thin_lv_status pool name ≡ some status)
    × (size ≤ status.size_bytes)

exists_with_size-HasSize :
    (pool : ThinPoolLv) (name : String) (size : ℕ) (found : Option ThinLvStatus)
    → find_thin_lv_status pool name ≡ found
    → exists_with_size found size ≡ true
    → HasSize name size pool
unfolding exists_with_size
exists_with_size-HasSize pool name size none e h = cc
exists_with_size-HasSize pool name size (some status) e h =
    (status, e, leb→le size status.size_bytes h)

check-HasSize :
    (pool : ThinPoolLv) (name : String) (size : ℕ)
    → check_thin_lv_exists pool name size ≡ true
    → HasSize name size pool
unfolding check_thin_lv_exists
check-HasSize pool name size h = exists_with_size-HasSize pool name size _ refl h

if-throw :
    {A : Type 0} (b : Bool) (m : Exec A) (e : Err) (a : A) (env : Env) (t : Trace)
    → ((if b then m else throw e) env t).0 ≡ ok a
    → b ≡ true
unfolding throw
if-throw true m e a env t h = refl
if-throw false m e a env t h = cc

finish-HasSize :
    (message name : String) (size : ℕ) (created : Copies) (env : Env) (t : Trace)
    → (finish_creation message name size created env t).0 ≡ ok tt
    → HasSize name size created.1
unfolding finish_creation
finish-HasSize message name size created env t h = check-HasSize created.1 name size (
    if-throw (check_thin_lv_exists created.1 name size)
      (update_thin_pool_lv created.0 created.1 >>= λ u. pure tt) (watch_pending message) tt env t h)

create_and_wait-HasSize :
    (message : String) (old pool : ThinPoolLv) (name binding : String) (size : ℕ)
    (contents : ThinLvContents) (env : Env) (t : Trace)
    → (create_and_wait message old pool name binding size contents env t).0 ≡ ok tt
    → (created : Copies) × ((create_thin_lv (some old) pool name binding size contents env t).0
        ≡ ok created)
      × HasSize name size created.1
unfolding create_and_wait
create_and_wait-HasSize message old pool name binding size contents env t h =
    let (created, answered, rest) =
      >>=-eq-ok (create_thin_lv (some old) pool name binding size contents)
        (finish_creation message name size) env t tt h in
    (
      created,
      answered,
      finish-HasSize message name size created env
          (create_thin_lv (some old) pool name binding size contents env t).1 rest,
    )

-- If `CreateBlob` succeeds, then it has got a pool from `createThinPoolLv` and `createThinLv` has
-- answered with a pool whose status has the thin LV of the blob with at least the size asked for.
pub create_blob-HasSize :
    (vg_name name binding : String) (size : ℕ) (owner : String) (env : Env) (t : Trace)
    → (create_blob vg_name name binding size owner env t).0 ≡ ok tt
    → (pool : ThinPoolLv) × (created : Copies) × ((create_pool_object vg_name name size owner env
          t).0
        ≡ ok pool)
      × ((create_thin_lv
            (some pool)
            pool
            (volume_to_thin_lv_name name)
            binding
            size
            empty_contents
            env
            (create_pool_object vg_name name size owner env t).1).0
          ≡ ok created)
      × HasSize (volume_to_thin_lv_name name) size created.1
unfolding create_blob
create_blob-HasSize vg_name name binding size owner env t h =
    let (pool, got, rest) =
      >>=-eq-ok (create_pool_object vg_name name size owner)
        (λ p.
          create_and_wait "waiting for thin pool creation" p p (volume_to_thin_lv_name name) binding
            size empty_contents)
        env t tt h in
    let (created, answered, large) =
      create_and_wait-HasSize "waiting for thin pool creation" pool pool
        (volume_to_thin_lv_name name) binding size empty_contents env _ rest in
    (pool, created, got, answered, large)
