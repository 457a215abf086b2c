-- ===== src/Nbd/Names.antt =====
-- The table of node names under any order of `nodeName`, `StopExport` and `StopServer`.
use Prim.Native.String.{◌++◌ as ◌<>◌}
use kubesan.Prelude.{
  ℕ, ◌+◌, ◌<◌, String, List, [], ◌∷◌, Option, none, some, Bool, true, false, ◌≡◌, ◌≢◌, refl, sym,
  ap, ◌∙◌, ◌⊎◌, inl, inr, ◌%◌, ◌&&◌, ◌==◌, string_eq, eq_iff, arith, nat_beq, length, Bool-cases,
}
use mathlib.Core.Path.{subst}
use text.Mathlib.TextLemmas.{append_cancel_left}
use kubesan.Prelude.Int.{ℤ, pos}
use kubesan.Prelude.Text.{decimal, parse_int}
use kubesan.Prelude.Text.Decimal.{parse_int-decimal}
use kubesan.Prelude.Dict.{lookup, insert, delete, lookup-insert, lookup-delete}
use kubesan.Process.{Blockdevs, no_blockdevs}
use kubesan.Exec.{ok}
use kubesan.Nbd.{named_as, node_name, forget_export, stop_server, close_channel}

-- One locked section. The counter is far from the end of its range.
pub data Step : Blockdevs → Blockdevs → Type 0 where
  name : (b : Blockdevs) (e : String) → b.count < 9223372036854775807 → Step b (node_name b e).1
  forget : {b b' : Blockdevs} (e : String) → forget_export b e ≡ ok b' → Step b b'
  stop : {b b' : Blockdevs} → stop_server b ≡ ok b' → Step b b'

-- what the process can reach from its start
pub data Reached : Blockdevs → Type 0 where
  start : Reached no_blockdevs
  next : {b b' : Blockdevs} → Reached b → Step b b' → Reached b'

-- the name of the export is the one of number `i`
abbrev pub HasNumber : Blockdevs → String → ℕ → Type 0
HasNumber b e i = lookup e b.names ≡ some ("blockdev-" <> decimal i)

pub record IsConsistent (b : Blockdevs) : Type 0 where
  -- each name has a number that was given before
  pub numbered :
      (e n : String) → lookup e b.names ≡ some n → (i : ℕ) × (i < b.count) × HasNumber b e i
  -- a name belongs to one export
  pub distinct : (e f n : String) → lookup e b.names ≡ some n → lookup f b.names ≡ some n → e ≡ f
  -- the channel is closed only by a shutdown, and once the last export is gone
  pub asked : b.closed ≡ true → b.shutdown ≡ true
  pub drained : b.shutdown ≡ true → b.names ≡ [] → b.closed ≡ true
  pub small : b.count < 9223372036854775808

some-inj : {a b : String} → ◌≡◌ {A = Option String} (some a) (some b) → a ≡ b
some-inj h = cc

none≢some : {a : String} → ◌≢◌ {A = Option String} none (some a)
none≢some h = cc

name_inj :
    (i j : ℕ)
    → i < 9223372036854775808
    → j < 9223372036854775808
    → ("blockdev-" <> decimal i) ≡ ("blockdev-" <> decimal j)
    → i ≡ j
name_inj i j hi hj e = pos_inj (
    sym (parse_int-decimal i hi)
    ∙ ap parse_int (append_cancel_left "blockdev-" (decimal i) (decimal j) e)
    ∙ parse_int-decimal j hj)
  where
    pos_inj : {a b : ℕ} → ◌≡◌ {A = Option ℤ} (some (pos a)) (some (pos b)) → a ≡ b
    pos_inj h = cc

insert-ne-nil : (e n : String) (m : List (String × String)) → insert e n m ≢ []
unfolding insert
insert-ne-nil e n [] h = cc
insert-ne-nil e n ((f, o) ∷ m) h = elim (Bool-cases (f == e)) [
  | inl same ↦ cons-ne-nil (rw same at h)
  | inr other ↦ cons-ne-nil (rw other at h)
]
  where
    cons-ne-nil : {x : String × String} {xs : List (String × String)} → (x ∷ xs) ≢ []
    cons-ne-nil h = cc

-- what is found in a table with one more name, or with one less
lookup-inserted :
    (e f n o : String) (m : List (String × String))
    → lookup f (insert e n m) ≡ some o
    → ((e ≡ f) × (n ≡ o)) ⊎ (lookup f m ≡ some o)
lookup-inserted e f n o m h = elim (Bool-cases (e == f)) [
  | inl same ↦ inl ((eq_iff e f).0 same, some-inj (rw (lookup-insert, same) at h))
  | inr other ↦ inr (rw (lookup-insert, other) at h)
]

lookup-deleted :
    (e f o : String) (m : List (String × String))
    → lookup f (delete e m) ≡ some o
    → lookup f m ≡ some o
lookup-deleted e f o m h = elim (Bool-cases (e == f)) [
  | inl same ↦ absurd (none≢some (rw (lookup-delete, same) at h))
  | inr other ↦ rw (lookup-delete, other) at h
]

-- the table with a new name
module _ (b : Blockdevs) (c : IsConsistent b) (e : String)
    (low : b.count < 9223372036854775807) where
  abbrev named : Blockdevs
  named = record b {
    names = insert e ("blockdev-" <> decimal b.count) b.names;
    count = (b.count + 1) % 18446744073709551616;
  }

  -- the number of an old name is not the new one
  old_number : (f : String) → lookup f b.names ≢ some ("blockdev-" <> decimal b.count)
  old_number f h =
      let (i, less, numbered) = c.numbered f ("blockdev-" <> decimal b.count) h in
      let same : i ≡ b.count =
        name_inj i b.count (omega (arith, c.small)) c.small (some-inj (sym numbered ∙ h)) in
      omega arith

  named-numbered :
      (f n : String)
      → lookup f named.names ≡ some n
      → (i : ℕ) × (i < named.count) × HasNumber named f i
  named-numbered f n h = elim (lookup-inserted e f ("blockdev-" <> decimal b.count) n b.names h) [
    | inl (same, number) ↦ (b.count, omega arith, h ∙ ap some (sym number))
    | inr old ↦
        let (i, less, numbered) = c.numbered f n old in (i, omega arith, h ∙ sym old ∙ numbered)
  ]

  named-distinct :
      (f g n : String) → lookup f named.names ≡ some n → lookup g named.names ≡ some n → f ≡ g
  named-distinct f g n hf hg =
      elim (lookup-inserted e f ("blockdev-" <> decimal b.count) n b.names hf) [
        | inl (ef, new) ↦ elim (lookup-inserted e g ("blockdev-" <> decimal b.count) n b.names hg) [
          | inl (eg, new') ↦ sym ef ∙ eg
          | inr old ↦ absurd (old_number g (old ∙ ap some (sym new)))
        ]
        | inr old ↦ elim (lookup-inserted e g ("blockdev-" <> decimal b.count) n b.names hg) [
          | inl (eg, new) ↦ absurd (old_number f (old ∙ ap some (sym new)))
          | inr old' ↦ c.distinct f g n old old'
        ]
      ]

  named-IsConsistent : IsConsistent named
  named-IsConsistent = record {
    numbered = named-numbered;
    distinct = named-distinct;
    asked = c.asked;
    drained = λ s empty. absurd (insert-ne-nil e ("blockdev-" <> decimal b.count) b.names empty);
    small = omega arith;
  }

named_as-IsConsistent :
    (b : Blockdevs) (e : String) (found : Option String)
    → b.count < 9223372036854775807
    → IsConsistent b
    → IsConsistent (named_as b e found).1
unfolding named_as
named_as-IsConsistent b e none low c = named-IsConsistent b c e low
named_as-IsConsistent b e (some n) low c = c

-- the table without a name, whatever the flags
module _ (b : Blockdevs) (c : IsConsistent b) (e : String) where
  forgotten-numbered :
      (f n : String)
      → lookup f (delete e b.names) ≡ some n
      → (i : ℕ) × (i < b.count) × (lookup f (delete e b.names) ≡ some ("blockdev-" <> decimal i))
  forgotten-numbered f n h =
      let old = lookup-deleted e f n b.names h in
      let (i, less, numbered) = c.numbered f n old in (i, less, h ∙ sym old ∙ numbered)

  forgotten-distinct :
      (f g n : String)
      → lookup f (delete e b.names) ≡ some n
      → lookup g (delete e b.names) ≡ some n
      → f ≡ g
  forgotten-distinct f g n hf hg =
      c.distinct f g n (lookup-deleted e f n b.names hf) (lookup-deleted e g n b.names hg)

  -- with the channel open or closed
  with_channel :
      (closed : Bool)
      → (closed ≡ true → b.shutdown ≡ true)
      → (b.shutdown ≡ true → delete e b.names ≡ [] → closed ≡ true)
      → IsConsistent (record b { names = delete e b.names; closed = closed })
  with_channel closed asked drained = record {
    numbered = forgotten-numbered;
    distinct = forgotten-distinct;
    asked = asked;
    drained = drained;
    small = c.small;
  }

ok-inj : {a b : Blockdevs} → ok a ≡ ok b → a ≡ b
ok-inj h = cc

-- closing the channel, if it is open, keeps the table
close_channel_lem :
    (b b' : Blockdevs)
    → close_channel b ≡ ok b'
    → (b.closed ≡ false) × (b' ≡ record b { closed = true })
unfolding close_channel
close_channel_lem b b' h = ground arith

forget_export-IsConsistent :
    (b b' : Blockdevs) (e : String) → IsConsistent b → forget_export b e ≡ ok b' → IsConsistent b'
unfolding forget_export
forget_export-IsConsistent b b' e c h =
    elim (Bool-cases (b.shutdown && nat_beq (length (delete e b.names)) 0)) [
      | inl last ↦
          let (open_before, same) =
            close_channel_lem (record b { names = delete e b.names }) b' (rw last at h) in
          subst IsConsistent (sym same)
            (with_channel b c e true (λ t. ground arith) (λ s empty. refl))
      | inr more ↦
          subst IsConsistent (ok-inj (rw more at h))
            (with_channel b c e b.closed c.asked (λ s empty. absurd (not_last s empty more)))
    ]
  where
    not_last :
        {m : List (String × String)}
        → b.shutdown ≡ true
        → m ≡ []
        → (b.shutdown && nat_beq (length m) 0) ≡ false
        → ⊥
    not_last s empty more = cc (rw (s, empty) at more)

stop_server-IsConsistent :
    (b b' : Blockdevs) → IsConsistent b → stop_server b ≡ ok b' → IsConsistent b'
unfolding stop_server
stop_server-IsConsistent b b' c h = elim (Bool-cases (nat_beq (length b.names) 0)) [
  | inl none_left ↦
      let (open_before, same) =
        close_channel_lem (record b { shutdown = true }) b' (rw none_left at h) in
      subst IsConsistent (sym same) (stopping true (λ empty. refl))
  | inr some_left ↦
      subst IsConsistent (ok-inj (rw some_left at h))
        (stopping b.closed (λ empty. absurd (not_empty empty some_left)))
]
  where
    stopping :
        (closed : Bool)
        → (b.names ≡ [] → closed ≡ true)
        → IsConsistent (record b { shutdown = true; closed = closed })
    stopping closed drained = record {
      numbered = c.numbered;
      distinct = c.distinct;
      asked = λ t. refl;
      drained = λ t. drained;
      small = c.small;
    }

    not_empty : {m : List (String × String)} → m ≡ [] → nat_beq (length m) 0 ≡ false → ⊥
    not_empty empty some_left = cc (rw empty at some_left)

Step-IsConsistent : {b b' : Blockdevs} → Step b b' → IsConsistent b → IsConsistent b'
unfolding node_name
Step-IsConsistent (name b e low) c = named_as-IsConsistent b e (lookup e b.names) low c
Step-IsConsistent (forget e h) c = forget_export-IsConsistent _ _ e c h
Step-IsConsistent (stop h) c = stop_server-IsConsistent _ _ c h

no_blockdevs-IsConsistent : IsConsistent no_blockdevs
unfolding lookup
no_blockdevs-IsConsistent = record {
  numbered = λ e n h. absurd (none≢some h);
  distinct = λ e f n h k. absurd (none≢some h);
  asked = λ h. cc;
  drained = λ h k. cc;
  small = omega arith;
}

-- In each state that the NBD server's table can reach from the start of the process by any order of
-- `nodeName`, `StopExport` and `StopServer`, as long as fewer than 2 ^ 63 names have been given:
-- each export has a name with a number that was given before, two exports have different names, the
-- channel is closed only after a shutdown was asked for, and it is closed if a shutdown was asked for
-- and no export is left.
pub Reached-IsConsistent : {b : Blockdevs} → Reached b → IsConsistent b
Reached-IsConsistent start = no_blockdevs-IsConsistent
Reached-IsConsistent (next r s) = Step-IsConsistent s (Reached-IsConsistent r)
