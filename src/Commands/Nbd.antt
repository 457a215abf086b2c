-- ===== src/Commands/Nbd.antt =====
-- internal/common/commands/commands.go: nbd-client. Its two patterns are `nbd://([^/]*)/(\S*)` and
-- `Connected /dev/(\S*)`; both match at the first occurrence of their fixed beginning or nowhere.
use Prim.Native.Char.{code}
use Prim.Native.String.{◌++◌ as ◌<>◌, slice, len}
use text.Mathlib.Text.{find?}
use kubesan.Prelude.{
  ℕ, ◌+◌, String, List, [], ◌∷◌, Option, none, some, Bool, ◌||◌, ◌==◌, string_eq, nat_beq,
  if◌then◌else◌,
}
use kubesan.Exec.{bad_request, Exec, pure, throw, ◌>>=◌, ◌>>◌}
use kubesan.Commands.{Outcome, must, run_in_container, run_on_host}

-- the text behind the first occurrence
behind : String → String → Option String
behind s part = elim (find? s part) [ none ↦ none | some i ↦ some (slice s (i + len part) (len s)) ]

-- the text before the first character with the code, and the text behind it
split_at : ℕ → String → Option (String × String)
split_at c String.[] = none
split_at c (String.◌∷◌ x s) =
    let rest = split_at c s in
    if nat_beq (code x) c
    then some (String.[], s)
    else elim rest [ none ↦ none | some r ↦ some (String.◌∷◌ x r.0, r.1) ]

-- \s
is_blank : ℕ → Bool
is_blank c = nat_beq c 32 || nat_beq c 9 || nat_beq c 10 || nat_beq c 12 || nat_beq c 13

-- what \S* matches
word : String → String
unfolding is_blank
word String.[] = String.[]
word (String.◌∷◌ x s) =
    let rest = word s in if is_blank (code x) then String.[] else String.◌∷◌ x rest

-- the host and the name of a URI
unfoldable pub match_uri : String → Option (String × String)
unfolding behind split_at word
match_uri uri = elim (behind uri "nbd://") [
  | none ↦ none
  | some rest ↦ elim (split_at b'/' rest) [
    | none ↦ none
    | some parts ↦ some (parts.0, word parts.1)
  ]
]

unfoldable pub match_connected : String → Option String
unfolding behind word
match_connected output = elim (behind output "Connected /dev/") [
  | none ↦ none
  | some rest ↦ some (word rest)
]

unfoldable pub nbd_client : List String → Exec Outcome
unfolding run_in_container
nbd_client args = run_in_container ("nsenter" ∷ "--target" ∷ "1" ∷ "--net" ∷ "nbd-client" ∷ args)

-- `return` of an optional value, with the error for none
or_bad_request : String → Option String → Exec String
unfolding throw pure
or_bad_request message none = throw (bad_request message)
or_bad_request message (some s) = pure s

connect_to : String → String × String → Exec String
unfolding nbd_client must or_bad_request match_connected ◌>>=◌
connect_to uri parts = do
  output ← must (
      nbd_client ("--identifier" ∷ uri ∷ "--connections" ∷ "8" ∷ "--name" ∷ parts.1 ∷ parts.0 ∷ []))
  or_bad_request "could not parse NBD device from nbd-client" (match_connected output.combined)

unfoldable pub nbd_client_connect : String → Exec String
unfolding connect_to match_uri throw
nbd_client_connect uri = elim (match_uri uri) [
  | none ↦ throw (bad_request "could not parse NBD URI")
  | some parts ↦ connect_to uri parts
]

-- strings.TrimSuffix(_, "\n")
unfoldable pub trim_newline : String → String
trim_newline String.[] = String.[]
trim_newline (String.◌∷◌ x String.[]) =
    if nat_beq (code x) 10 then String.[] else String.◌∷◌ x String.[]
trim_newline (String.◌∷◌ x (String.◌∷◌ y s)) = String.◌∷◌ x (trim_newline (String.◌∷◌ y s))

unfoldable pub nbd_client_backend : String → Exec String
unfolding must run_on_host trim_newline ◌>>=◌
nbd_client_backend device = do
  output ← must (run_on_host ("cat" ∷ ("/sys/block/" <> (device <> "/backend")) ∷ []))
  pure (trim_newline output.combined)

unfoldable pub nbd_client_disconnect : String → String → Exec (Unit {0})
unfolding nbd_client_backend nbd_client must ◌>>=◌
nbd_client_disconnect uri device = do
  backend ← nbd_client_backend device
  if backend == uri
      then (do must (nbd_client ("--disconnect" ∷ ("/dev/" <> device) ∷ [])); pure tt)
      else pure tt
