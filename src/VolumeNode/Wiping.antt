-- ===== src/VolumeNode/Wiping.antt =====
-- Where the wipes of a linear volume start.
use kubesan.Prelude.{
  ℕ, zero, suc, String, List, [], ◌∷◌, Option, none, some, Bool, true, false, not, ◌&&◌, ◌≡◌, refl,
  sym, inl, inr, arith,
}
use mathlib.Core.Path.{subst}
use kubesan.Prelude.Int.{ℤ, pos, negsuc, ltb_ℤ}
use kubesan.Process.{Process}
use kubesan.Api.{Volume}
use kubesan.Exec.{
  Env, Trace, begun, Exec, Result, ok, Exit, dd, blkdiscard, spawned, ran, stat, pure, throw, try,
  ask, stat_path, ◌>>=◌, ◌>>◌,
}
use kubesan.Exec.Rules.{
  Keeps, Keeps-bind, Keeps-bind_known, Keeps-pure, Keeps-throw, Keeps-try, Keeps-if, Keeps-ask,
  Keeps-elim_result, Yields, Yields-bind, Yields-if, Yields-pure, Result-cases, >>=-ok, >>=-err,
}
use kubesan.Commands.{must, lvm, lvm_size, path_exists_on_host}
use kubesan.Commands.Tagging.{
  must_lvm-Keeps, lvm_size-Keeps, get_counter-Keeps, update_counter-Keeps,
}
use kubesan.Commands.Counter.{decimal_int, lvm_lv_get_counter, lvm_lv_update_counter_if_lower}
use kubesan.Workers
use kubesan.Workers.Traces.{IgnoresWork, run-Keeps, cancel-Keeps, HasDone}
use kubesan.VolumeNode.Population.{
  path_exists, copy_source, copy_or_cancel, reconcile_source_populating, is_empty_contents, is_zero,
  change_activation, safe_offset_key, note_safe, populate_linear, blkdiscard_work_name,
  is_unsafe_fast, wipe_rest, wipe_block, wipe_or_cancel, reconcile_linear_populating, dd_name,
  source_path, linear_path,
}

-- `P` does not look at commands, look-ups of paths, the pool of workers, nor the start of a copy
pub record IgnoresCopies (P : Trace → Type 0) : Type 0 where
  on_command : (c : List String) (e : Exit) (t : Trace) → P t → P (ran c e ∷ t)
  on_stat : (p : String) (r : Result Bool) (t : Trace) → P t → P (stat p r ∷ t)
  on_copy : (n a b : String) (t : Trace) → P t → P (spawned n (dd a b) ∷ t)
  on_work : IgnoresWork P

module _ {P : Trace → Type 0} (i : IgnoresCopies P) (env : Env) where
  command_ran : (c : List String) (t : Trace) → P t → P (ran c (env.run_command t c) ∷ t)
  command_ran c t h = i.on_command c (env.run_command t c) t h

  stat_path-Keeps : (p : String) → Keeps env P (path_exists_on_host p)
  unfolding path_exists_on_host stat_path
  stat_path-Keeps p = record { at = λ t h. i.on_stat _ _ t h }

  path_exists-Keeps : (p : String) → Keeps env P (path_exists p)
  unfolding path_exists
  path_exists-Keeps p =
      Keeps-bind (try (path_exists_on_host p)) _ (Keeps-try _ (stat_path-Keeps p))
        (λ r. Keeps-elim_result r _ _ (λ b e. Keeps-pure b) (λ x e. Keeps-pure false))

  copy_source-Keeps : (v : Volume) (p : String) → Keeps env P (copy_source v p)
  unfolding copy_source
  copy_source-Keeps v p = Keeps-bind (path_exists _) _ (path_exists-Keeps _) (λ source.
      Keeps-if (not source) _ _ (λ e. Keeps-throw _)
        (λ e. Keeps-bind (path_exists p) _ (path_exists-Keeps p) (λ target.
          Keeps-if (not target) _ _ (λ e'. Keeps-throw _)
            (λ e'.
              Keeps-bind (Workers.run (dd_name v) (dd p (source_path v))) _
                (run-Keeps i.on_work (dd_name v) (dd p (source_path v)) (i.on_copy _ _ _))
                (λ u. lvm_size-Keeps command_ran _ _)))))

  copy_or_cancel-Keeps :
      (v : Volume) (p : String) (d : Option ℕ) → Keeps env P (copy_or_cancel v p d)
  unfolding copy_or_cancel
  copy_or_cancel-Keeps v p none = copy_source-Keeps v p
  copy_or_cancel-Keeps v p (some when) =
      Keeps-bind (Workers.cancel (dd_name v)) _ (cancel-Keeps i.on_work (dd_name v))
        (λ u. Keeps-pure 0)

  source-Keeps : (v : Volume) (p : String) → Keeps env P (reconcile_source_populating v p)
  unfolding reconcile_source_populating
  source-Keeps v p =
      Keeps-if (is_empty_contents v.spec.contents.contents_type) (throw _)
        (copy_or_cancel v p v.metadata.deletion_timestamp) (λ e. Keeps-throw _)
        (λ e. copy_or_cancel-Keeps v p v.metadata.deletion_timestamp)

  pub note_safe-Keeps : (v : Volume) (size : ℕ) → Keeps env P (note_safe v size)
  unfolding note_safe
  note_safe-Keeps v size = Keeps-bind ask _ Keeps-ask (λ e.
      Keeps-bind (lvm_lv_update_counter_if_lower _ _ _ (pos size)) _
        (update_counter-Keeps command_ran _ _ _ (pos size)) (λ c. Keeps-pure tt))

  pub change-Keeps : (v : Volume) (mode : String) → Keeps env P (change_activation v mode)
  unfolding change_activation
  change-Keeps v mode =
      Keeps-bind (must (lvm _)) _ (must_lvm-Keeps command_ran _) (λ o. Keeps-pure tt)

  populate-Keeps : (v : Volume) (offset : ℤ) → Keeps env P (populate_linear v offset)
  unfolding populate_linear
  populate-Keeps v offset =
      Keeps-if (not (is_empty_contents v.spec.contents.contents_type) && is_zero offset) _
        (pure offset)
        (λ e.
          Keeps-bind (reconcile_source_populating v (linear_path v)) _
            (source-Keeps v (linear_path v))
            (λ size.
              Keeps-bind (note_safe v size) _ (note_safe-Keeps v size)
                (λ u. Keeps-pure (pos size))))
        (λ e. Keeps-pure offset)

-- each wipe starts at an offset that is not in front of the counter
abbrev pub WipesBehind : ℤ → Trace → Type 0
WipesBehind counter [] = Unit
WipesBehind counter (spawned n (blkdiscard device offset) ∷ t) =
    ((o : ℤ) × (ltb_ℤ o counter ≡ false) × (offset ≡ decimal_int o)) × WipesBehind counter t
WipesBehind counter (_ ∷ t) = WipesBehind counter t

WipesBehind-IgnoresCopies : (counter : ℤ) → IgnoresCopies (WipesBehind counter)
WipesBehind-IgnoresCopies counter = record {
  on_command = λ c e t h. h;
  on_stat = λ p r t h. h;
  on_copy = λ n a b t h. h;
  on_work = record { on_poll = λ n r t h. h; on_store = λ p t h. h; on_cancel = λ n t h. h };
}

pub HasDone-IgnoresCopies : (name : String) → IgnoresCopies (HasDone name)
HasDone-IgnoresCopies name = record {
  on_command = λ c e t h. h;
  on_stat = λ p r t h. h;
  on_copy = λ n a b t h. h;
  on_work = record { on_poll = λ n r t h. inr h; on_store = λ p t h. h; on_cancel = λ n t h. h };
}

ltb_irrefl : (z : ℤ) → ltb_ℤ z z ≡ false
ltb_irrefl (pos n) = ground arith
ltb_irrefl (negsuc n) = ground arith

-- the copy ends behind the counter
copied-lem : (offset : ℤ) (size : ℕ) → is_zero offset ≡ true → ltb_ℤ (pos size) offset ≡ false
unfolding is_zero
copied-lem (pos zero) size h = ground arith
copied-lem (pos (suc n)) size h = cc
copied-lem (negsuc n) size h = cc

module _ (env : Env) (v : Volume) where
  populate-behind :
      (offset : ℤ) → Yields env (λ o. ltb_ℤ o offset ≡ false) (populate_linear v offset)
  unfolding populate_linear
  populate-behind offset =
      Yields-if (not (is_empty_contents v.spec.contents.contents_type) && is_zero offset) _
        (pure offset)
        (λ e. Yields-bind (reconcile_source_populating v (linear_path v)) _ (λ size.
          Yields-bind (note_safe v size) _
            (λ u. Yields-pure (pos size) (copied-lem offset size (second _ _ e)))))
        (λ e. Yields-pure offset (ltb_irrefl offset))
    where
      second : (a b : Bool) → (a && b) ≡ true → b ≡ true
      second a b h = ground arith

  module _ (counter : ℤ) where
    abbrev i : IgnoresCopies (WipesBehind counter)
    i = WipesBehind-IgnoresCopies counter

    wipe_rest-Keeps :
        (o : ℤ) (size : ℕ)
        → ltb_ℤ o counter ≡ false
        → Keeps env (WipesBehind counter) (wipe_rest v o size)
    unfolding wipe_rest
    wipe_rest-Keeps o size behind =
        Keeps-if (ltb_ℤ o (pos size) && not (is_unsafe_fast v.spec.wipe_policy)) _ _
          (λ e.
            run-Keeps i.on_work (blkdiscard_work_name v)
              (blkdiscard (linear_path v) (decimal_int o)) (λ t h. ((o, behind, refl), h)))
          (λ e. Keeps-pure tt)

    wipe_block-Keeps :
        (o : ℤ) (b : Option (Unit {0}))
        → ltb_ℤ o counter ≡ false
        → Keeps env (WipesBehind counter) (wipe_block v o b)
    unfolding wipe_block
    wipe_block-Keeps o none behind = Keeps-pure tt
    wipe_block-Keeps o (some b) behind =
        Keeps-bind (lvm_size v.spec.vg_name v.metadata.name) _
          (lvm_size-Keeps (command_ran i env) v.spec.vg_name v.metadata.name)
          (λ size.
            Keeps-bind (wipe_rest v o size) _ (wipe_rest-Keeps o size behind)
              (λ u. note_safe-Keeps i env v size))

    wipe_or_cancel-Keeps :
        (o : ℤ) (d : Option ℕ)
        → ltb_ℤ o counter ≡ false
        → Keeps env (WipesBehind counter) (wipe_or_cancel v o d)
    unfolding wipe_or_cancel
    wipe_or_cancel-Keeps o none behind = wipe_block-Keeps o v.spec.type.block behind
    wipe_or_cancel-Keeps o (some when) behind = cancel-Keeps i.on_work (blkdiscard_work_name v)

  -- what follows the look at the counter
  abbrev pub behind_counter : ℤ → Exec (Unit {0})
  behind_counter counter = do
    o ← populate_linear v counter
    wipe_or_cancel v o v.metadata.deletion_timestamp
    change_activation v "n"

  behind_counter-Keeps : (counter : ℤ) → Keeps env (WipesBehind counter) (behind_counter counter)
  behind_counter-Keeps counter =
      Keeps-bind_known (populate_linear v counter) _
        (populate-Keeps (WipesBehind-IgnoresCopies counter) env v counter)
        (λ t o populated h.
          (Keeps-bind (wipe_or_cancel v o v.metadata.deletion_timestamp)
              (λ u. change_activation v "n")
              (wipe_or_cancel-Keeps counter o v.metadata.deletion_timestamp
                ((populate-behind counter).result t o populated))
              (λ u. change-Keeps (WipesBehind-IgnoresCopies counter) env v "n")).at
            _ h)

  -- from the look at the counter on
  abbrev pub from_counter : Unit {0} → Exec (Unit {0})
  from_counter u = do
    counter ← lvm_lv_get_counter v.spec.vg_name v.metadata.name (safe_offset_key env)
    behind_counter counter

  -- A pass over a linear volume with a counter starts no wipe in front of the counter: each one starts
  -- at an offset that is not smaller, whatever the process has in its memory.
  pub reconcile_linear_populating-WipesBehind :
      (p : Process) (counter : ℤ)
      → (lvm_lv_get_counter v.spec.vg_name v.metadata.name
          (safe_offset_key env)
          env
          (change_activation v "ey" env (begun p)).1).0
        ≡ ok counter
      → WipesBehind counter (reconcile_linear_populating v env (begun p)).1
  unfolding reconcile_linear_populating ask ◌>>=◌
  reconcile_linear_populating-WipesBehind p counter read =
      let t = (change_activation v "ey" env (begun p)).1 in
      let i = WipesBehind-IgnoresCopies counter in
      let activated = (change-Keeps i env v "ey").at (begun p) tt in
      elim (Result-cases (change_activation v "ey" env (begun p)).0) [
        | inl (a, passed) ↦
            subst (λ x. WipesBehind counter x.1)
              (sym (>>=-ok (change_activation v "ey") from_counter env (begun p) a passed))
              (subst (λ x. WipesBehind counter x.1)
                (sym (>>=-ok (lvm_lv_get_counter _ _ _) behind_counter env t counter read))
                ((behind_counter-Keeps counter).at _
                  ((get_counter-Keeps (command_ran i env) _ _ _).at t activated)))
        | inr (e, failed) ↦
            subst (λ x. WipesBehind counter x.1)
              (sym (>>=-err (change_activation v "ey") from_counter env (begun p) e failed))
              activated
      ]
