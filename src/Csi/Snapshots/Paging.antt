-- ===== src/Csi/Snapshots/Paging.antt =====
-- `ListSnapshots` of internal/csi/controller/snapshot.go, and what its next token is.
use Prim.Native.Nat.{lt, eq, gt}
use Prim.Native.String.{compare}
use kubesan.Prelude.{
  ℕ, suc, ◌+◌, String, List, [], ◌∷◌, ◌++◌, Option, none, some, Bool, true, false, not, ◌&&◌, ◌==◌,
  ◌≡◌, ◌≢◌, ◌⊎◌, inl, inr, refl, sym, ap, ◌∙◌, arith, Bool-cases, Option-cases, length-append,
  string_eq, ltb, nat_beq, length, drop, if◌then◌else◌,
}
use kubesan.Prelude.Int.{ℤ}
use kubesan.Prelude.Text.{decimal}
use kubesan.Api.{Snapshot, Condition}
use kubesan.Exec.{
  invalid_argument, absent, aborted, rpc, not_found, panicked, Result, ok, err, Env, Exec, pure,
  throw, lift, try, ask, get_snapshot, list_snapshots, ◌>>=◌, ◌>>◌,
}
use kubesan.Csi.{Parameters}
use kubesan.Csi.Names.{validate_id}
use kubesan.Csi.Listing.{starting_token, max_entries}
use kubesan.Csi.Snapshots.{SnapshotEntry}

entry_at : Snapshot → String → Option Condition → Option SnapshotEntry
entry_at snapshot source_volume none = none
entry_at snapshot source_volume (some cond) =
    if not (source_volume == "") && not (source_volume == snapshot.spec.source_volume)
    then none
    else some (record {
      size_bytes = snapshot.status.size_bytes;
      snapshot_id = snapshot.metadata.name;
      source_volume_id = snapshot.spec.source_volume;
      creation_time = cond.last_transition_time;
    })

unfoldable pub get_list_snapshot_entry : Env → Snapshot → String → Option SnapshotEntry
unfolding entry_at
get_list_snapshot_entry env snapshot source_volume =
    entry_at snapshot source_volume
      (env.find_status_condition snapshot.status.conditions "Available")

-- the order: by source volume, then by name
comes_first : Snapshot → Snapshot → Bool
comes_first a b = elim (compare a.spec.source_volume b.spec.source_volume) [
  | lt ↦ true
  | gt ↦ false
  | eq ↦ elim (compare a.metadata.name b.metadata.name) [ lt ↦ true | eq ↦ true | gt ↦ false ]
]

insert : Snapshot → List Snapshot → List Snapshot
unfolding comes_first
insert s [] = s ∷ []
insert s (x ∷ xs) = if comes_first s x then s ∷ x ∷ xs else x ∷ insert s xs

unfoldable pub sort : List Snapshot → List Snapshot
unfolding insert
sort [] = []
sort (s ∷ snapshots) = insert s (sort snapshots)

-- the loop from `i` on: the entries so far, `counter`, and in the end the next token
unfoldable pub snapshot_loop :
    (Snapshot → Option SnapshotEntry)
    → List Snapshot
    → ℕ
    → ℕ
    → List SnapshotEntry
    → List SnapshotEntry × String
snapshot_loop entry [] max counter entries = (entries, "")
snapshot_loop entry (s ∷ rest) max counter entries =
    let skipped = snapshot_loop entry rest max counter entries in
    elim (entry s) [
      | none ↦ skipped
      | some e ↦
          let taken = snapshot_loop entry rest max (counter + 1) (entries ++ e ∷ []) in
          if nat_beq counter max then (entries, decimal counter) else taken
    ]

-- `make` panics on the negative capacity of a start behind the end
unfoldable pub snapshot_page :
    (Snapshot → Option SnapshotEntry) → List Snapshot → ℕ → ℕ → Result (List SnapshotEntry × String)
snapshot_page entry items start max =
    if ltb (length items) start
    then err panicked
    else let page = snapshot_loop entry (drop start items) max 0 [] in
      if nat_beq (length page.0) 0 && not (nat_beq start 0)
      then err (rpc aborted "StartingToken no longer valid")
      else ok page

no_secrets : Parameters → Result (Unit {0})
no_secrets [] = ok tt
no_secrets (_ ∷ _) = err (rpc invalid_argument "unexpected secrets")

entry_or_missing : Option SnapshotEntry → Result (List SnapshotEntry × String)
entry_or_missing none = err (rpc absent "Snapshot not available")
entry_or_missing (some e) = ok (e ∷ [], "")

-- the branch for one snapshot
list_one : String → String → String → Exec (List SnapshotEntry × String)
unfolding entry_or_missing
list_one token id source_volume =
    if not (token == "")
    then throw (rpc aborted "StartingToken should be empty if SnapshotId is specified")
    else (do
      validate_id id "snapshot"
      read ← try (get_snapshot id)
      env ← ask
      elim read [
        | err not_found ↦ pure ([], "")
        | err e ↦ throw e
        | ok snapshot ↦ lift (entry_or_missing (get_list_snapshot_entry env snapshot source_volume))
      ])

unfoldable pub controller_list_snapshots :
    String → ℤ → Parameters → String → String → Exec (List SnapshotEntry × String)
unfolding no_secrets list_one
controller_list_snapshots token max secrets snapshot_id source_volume = do
  items ← list_snapshots
  start ← lift (starting_token "snapshot" token (length items))
  count ← lift (max_entries max (length items))
  lift (no_secrets secrets)
  env ← ask
  if not (snapshot_id == "")
      then list_one token snapshot_id source_volume
      else lift (
          snapshot_page (λ s. get_list_snapshot_entry env s source_volume) (sort items) start count)

snapshot_loop-token :
    (entry : Snapshot → Option SnapshotEntry) (items : List Snapshot) (max counter : ℕ)
    (entries : List SnapshotEntry)
    → length entries ≡ counter
    → let page = snapshot_loop entry items max counter entries in
      (page.1 ≡ "") ⊎ ((page.1 ≡ decimal max) × (length page.0 ≡ max))
unfolding snapshot_loop
snapshot_loop-token entry [] max counter entries h = inl refl
snapshot_loop-token entry (s ∷ rest) max counter entries h = elim (Option-cases (entry s)) [
  | inl skipped ↦ rw (skipped, snapshot_loop) (snapshot_loop-token entry rest max counter entries h)
  | inr (e, found) ↦ elim (Bool-cases (nat_beq counter max)) [
    | inl full ↦
        let same : counter ≡ max = ground arith in
        rw (found, full, snapshot_loop) (inr (ap decimal same, h ∙ same))
    | inr room ↦
        rw (found, room, snapshot_loop)
          (snapshot_loop-token entry rest max (counter + 1) (entries ++ e ∷ [])
            (length-append entries (e ∷ []) ∙ ap (λ n. n + 1) h))
  ]
]

-- When a page of `ListSnapshots` names a next one, the token is the number of entries that a page
-- may have, whatever place the page starts from, and the page has that many.
pub snapshot_page-token :
    (entry : Snapshot → Option SnapshotEntry) (items : List Snapshot) (start max : ℕ)
    (entries : List SnapshotEntry) (next : String)
    → snapshot_page entry items start max ≡ ok (entries, next)
    → next ≢ ""
    → (next ≡ decimal max) × (length entries ≡ max)
unfolding snapshot_page
snapshot_page-token entry items start max entries next h more =
    let page = snapshot_loop entry (drop start items) max 0 [] in
    let same : page ≡ (entries, next) = ground arith in
    elim (snapshot_loop-token entry (drop start items) max 0 [] refl) [
      | inl last ↦ absurd (more (ap (λ p. p.1) (sym same) ∙ last))
      | inr (token, size) ↦
          (ap (λ p. p.1) (sym same) ∙ token, ap (λ p. length p.0) (sym same) ∙ size)
    ]

-- Without any snapshots, a token for a place behind the start makes `ListSnapshots` panic.
pub snapshot_page-panicked :
    (entry : Snapshot → Option SnapshotEntry) (start max : ℕ)
    → snapshot_page entry [] (suc start) max ≡ err panicked
unfolding snapshot_page
snapshot_page-panicked entry start max = ground arith
