-- ===== src/Commands/Munge.antt =====
-- `munge` of internal/common/commands/commands.go: a text as bytes that an LVM tag allows.
use Prim.Native.Char.{Char, char, code}
use Prim.Native.String.{String, ◌++◌ as ◌<>◌}
use mathlib.Core.List.{append_assoc}
use text.Mathlib.TextLemmas.{cons-append, nil-append}
use kubesan.Prelude.{
  ℕ, zero, suc, ◌+◌, ◌-◌, ◌*◌, ◌/◌, ◌%◌, ◌<◌, ◌≤◌, ◌≡◌, refl, sym, ◌∙◌, ap, ◌⊎◌, inl, inr, List, [],
  ◌∷◌, ◌++◌, Bool, true, false, ◌&&◌, ◌||◌, ltb, leb, nat_beq, Bool-cases, if◌then◌else◌, arith,
  All,
}

-- []byte(input): UTF-8
utf8 : ℕ → List ℕ
utf8 c =
    if ltb c 0x80
    then c ∷ []
    else if ltb c 0x800
    then (0xC0 + c / 64) ∷ (0x80 + c % 64) ∷ []
    else if ltb c 0x10000
    then (0xE0 + c / 4096) ∷ (0x80 + c / 64 % 64) ∷ (0x80 + c % 64) ∷ []
    else (0xF0 + c / 262144) ∷ (0x80 + c / 4096 % 64) ∷ (0x80 + c / 64 % 64) ∷ (0x80 + c % 64) ∷ []

unfoldable pub bytes : String → List ℕ
unfolding utf8
bytes String.[] = []
bytes (String.◌∷◌ c s) = utf8 (code c) ++ bytes s

unfoldable pub is_tag_byte : ℕ → Bool
is_tag_byte b =
    leb b'a' b && leb b b'z'
    || leb b'A' b && leb b b'Z'
    || leb b'0' b && leb b b'9'
    || nat_beq b b'/'
    || nat_beq b b'='
    || nat_beq b b'.'
    || nat_beq b b'-'
    || nat_beq b b'_'

-- one digit of `%02X`
unfoldable pub hex_digit : ℕ → ℕ
hex_digit n = if ltb n 10 then 48 + n else 55 + n

unfoldable pub munge_bytes : List ℕ → List ℕ
unfolding is_tag_byte hex_digit
munge_bytes [] = []
munge_bytes (b ∷ bs) =
    (if is_tag_byte b then b ∷ [] else b'#' ∷ hex_digit (b / 16) ∷ hex_digit (b % 16) ∷ [])
    ++ munge_bytes bs

-- What an LVM tag holds of it: `unmunge` reads the bytes back.
from_hex : ℕ → ℕ
from_hex d = if leb d 57 then d - 48 else d - 55

pub unmunge : List ℕ → List ℕ
unfolding from_hex
unmunge [] = []
unmunge (b ∷ []) = b ∷ []
unmunge (b ∷ c ∷ []) = b ∷ c ∷ []
unmunge (b ∷ h ∷ l ∷ bs) =
    let plain = b ∷ unmunge (h ∷ l ∷ bs) in
    let coded = (from_hex h * 16 + from_hex l) ∷ unmunge bs in
    if nat_beq b b'#' then coded else plain

unmunge_plain : (b : ℕ) (bs : List ℕ) → is_tag_byte b ≡ true → unmunge (b ∷ bs) ≡ b ∷ unmunge bs
unfolding unmunge is_tag_byte
unmunge_plain b [] h = refl
unmunge_plain b (c ∷ []) h = refl
unmunge_plain b (c ∷ d ∷ bs) h = ground arith

unmunge_coded :
    (b : ℕ) (bs : List ℕ)
    → b < 256
    → unmunge (b'#' ∷ hex_digit (b / 16) ∷ hex_digit (b % 16) ∷ bs) ≡ b ∷ unmunge bs
unfolding unmunge hex_digit
unmunge_coded b bs h = ground arith

-- No two byte strings have the same tag: reading the tag back gives the bytes.
pub unmunge-munge_bytes : (bs : List ℕ) → All (λ b. b < 256) bs → unmunge (munge_bytes bs) ≡ bs
unfolding munge_bytes
unmunge-munge_bytes [] h = unfold unmunge in refl
unmunge-munge_bytes (b ∷ bs) h = elim (Bool-cases (is_tag_byte b)) [
  | inl plain ↦
      rw plain
        (unmunge_plain b (munge_bytes bs) plain ∙ ap (λ l. b ∷ l) (unmunge-munge_bytes bs h.1))
  | inr coded ↦
      rw coded (unmunge_coded b (munge_bytes bs) h.0 ∙ ap (λ l. b ∷ l) (unmunge-munge_bytes bs h.1))
]

abbrev pub IsTagText : List ℕ → Type 0
IsTagText = All (λ b. (is_tag_byte b ≡ true) ⊎ (b ≡ b'#'))

hex_digit-is_tag_byte : (n : ℕ) → n < 16 → is_tag_byte (hex_digit n) ≡ true
unfolding hex_digit is_tag_byte
hex_digit-is_tag_byte n h = ground arith

-- Every byte of a munged text is one that LVM allows in a tag, or the escape mark.
pub munge_bytes-IsTagText : (bs : List ℕ) → All (λ b. b < 256) bs → IsTagText (munge_bytes bs)
unfolding munge_bytes
munge_bytes-IsTagText [] h = tt
munge_bytes-IsTagText (b ∷ bs) h = elim (Bool-cases (is_tag_byte b)) [
  | inl plain ↦ rw plain (inl plain, munge_bytes-IsTagText bs h.1)
  | inr coded ↦ rw coded (
    inr refl,
    (
      inl (hex_digit-is_tag_byte (b / 16) (omega arith)),
      (inl (hex_digit-is_tag_byte (b % 16) (omega arith)), munge_bytes-IsTagText bs h.1),
    ),
  )
]

hex_text : ℕ → String
hex_text zero = "0"
hex_text (suc zero) = "1"
hex_text (suc (suc zero)) = "2"
hex_text (suc (suc (suc zero))) = "3"
hex_text (suc (suc (suc (suc zero)))) = "4"
hex_text (suc (suc (suc (suc (suc zero))))) = "5"
hex_text (suc (suc (suc (suc (suc (suc zero)))))) = "6"
hex_text (suc (suc (suc (suc (suc (suc (suc zero))))))) = "7"
hex_text (suc (suc (suc (suc (suc (suc (suc (suc zero)))))))) = "8"
hex_text (suc (suc (suc (suc (suc (suc (suc (suc (suc zero))))))))) = "9"
hex_text (suc (suc (suc (suc (suc (suc (suc (suc (suc (suc zero)))))))))) = "A"
hex_text (suc (suc (suc (suc (suc (suc (suc (suc (suc (suc (suc zero))))))))))) = "B"
hex_text (suc (suc (suc (suc (suc (suc (suc (suc (suc (suc (suc (suc zero)))))))))))) = "C"
hex_text (suc (suc (suc (suc (suc (suc (suc (suc (suc (suc (suc (suc (suc zero))))))))))))) = "D"
hex_text (suc (suc (suc (suc (suc (suc (suc (suc (suc (suc (suc (suc (suc (suc zero)))))))))))))) =
    "E"
hex_text
      (suc
        (suc (suc (suc (suc (suc (suc (suc (suc (suc (suc (suc (suc (suc (suc zero))))))))))))))) =
    "F"
hex_text
      (suc (
        suc
          (suc (suc (suc (suc (suc (suc (suc (suc (suc (suc (suc (suc (suc (suc n)))))))))))))))) =
    ""

escape : List ℕ → String
unfolding hex_text
escape [] = ""
escape (b ∷ bs) = "#" <> (hex_text (b / 16) <> (hex_text (b % 16) <> escape bs))

-- `munge` on the text. Only an ASCII character is a single byte, and only such bytes stay.
unfoldable pub munge : String → String
unfolding utf8 escape is_tag_byte
munge String.[] = ""
munge (String.◌∷◌ c s) =
    (if ltb (code c) 0x80 && is_tag_byte (code c)
      then String.◌∷◌ c String.[]
      else escape (utf8 (code c)))
    <> munge s

bytes-append : (s t : String) → bytes (s <> t) ≡ bytes s ++ bytes t
unfolding bytes
bytes-append String.[] t = rw nil-append
bytes-append (String.◌∷◌ c s) t =
    rw (cons-append, bytes-append s t) (sym (append_assoc (utf8 (code c)) (bytes s) (bytes t)))

bytes-hex_text : (n : ℕ) → n < 16 → bytes (hex_text n) ≡ hex_digit n ∷ []
unfolding bytes hex_text hex_digit
bytes-hex_text zero h = refl
bytes-hex_text (suc zero) h = refl
bytes-hex_text (suc (suc zero)) h = refl
bytes-hex_text (suc (suc (suc zero))) h = refl
bytes-hex_text (suc (suc (suc (suc zero)))) h = refl
bytes-hex_text (suc (suc (suc (suc (suc zero))))) h = refl
bytes-hex_text (suc (suc (suc (suc (suc (suc zero)))))) h = refl
bytes-hex_text (suc (suc (suc (suc (suc (suc (suc zero))))))) h = refl
bytes-hex_text (suc (suc (suc (suc (suc (suc (suc (suc zero)))))))) h = refl
bytes-hex_text (suc (suc (suc (suc (suc (suc (suc (suc (suc zero))))))))) h = refl
bytes-hex_text (suc (suc (suc (suc (suc (suc (suc (suc (suc (suc zero)))))))))) h = refl
bytes-hex_text (suc (suc (suc (suc (suc (suc (suc (suc (suc (suc (suc zero))))))))))) h = refl
bytes-hex_text (suc (suc (suc (suc (suc (suc (suc (suc (suc (suc (suc (suc zero)))))))))))) h = refl
bytes-hex_text (suc (suc (suc (suc (suc (suc (suc (suc (suc (suc (suc (suc (suc zero)))))))))))))
      h =
    refl
bytes-hex_text
      (suc (suc (suc (suc (suc (suc (suc (suc (suc (suc (suc (suc (suc (suc zero)))))))))))))) h =
    refl
bytes-hex_text
      (suc (suc (suc (suc (suc (suc (suc (suc (suc (suc (suc (suc (suc (suc (suc zero)))))))))))))))
      h =
    refl
bytes-hex_text
      (suc
        (suc (suc (suc (suc (suc (suc (suc (suc (suc (suc (suc (suc (suc (suc (suc n))))))))))))))))
      h =
    absurd (omega arith)

munge_bytes-append : (bs cs : List ℕ) → munge_bytes (bs ++ cs) ≡ munge_bytes bs ++ munge_bytes cs
unfolding munge_bytes
munge_bytes-append [] cs = refl
munge_bytes-append (b ∷ bs) cs = ground (arith, munge_bytes-append bs cs)

bytes-escape :
    (bs : List ℕ)
    → All (λ b. (b < 256) × (is_tag_byte b ≡ false)) bs
    → bytes (escape bs) ≡ munge_bytes bs
unfolding escape munge_bytes
bytes-escape [] h = unfold bytes in refl
bytes-escape (b ∷ bs) h =
    rw (bytes-append, bytes-append, bytes-append, bytes-escape bs h.1)
      (rw (bytes-hex_text (b / 16) (omega arith), bytes-hex_text (b % 16) (omega arith), h.0.1)
        (unfold bytes utf8 in refl))

utf8-IsByte : (c : ℕ) → c < 0x110000 → All (λ b. b < 256) (utf8 c)
unfolding utf8
utf8-IsByte c h = ground arith

utf8_escaped :
    (c : ℕ) → c < 0x110000 → 0x80 ≤ c → All (λ b. (b < 256) × (is_tag_byte b ≡ false)) (utf8 c)
unfolding utf8 is_tag_byte
utf8_escaped c small h = ground arith

code_bound : (c : Char) → code c < 0x110000
code_bound (char n p) = ground arith

ltb→below : (a : ℕ) → ltb a 0x80 ≡ true → a < 256
ltb→below a h = ground arith

not_ltb→le : (a b : ℕ) → ltb a b ≡ false → b ≤ a
not_ltb→le a b h = ground arith

utf8_ascii : (c : ℕ) → ltb c 0x80 ≡ true → utf8 c ≡ c ∷ []
unfolding utf8
utf8_ascii c h = ground arith

munge_utf8 :
    (c : Char)
    → bytes (
        if ltb (code c) 0x80 && is_tag_byte (code c)
        then String.◌∷◌ c String.[]
        else escape (utf8 (code c)))
      ≡ munge_bytes (utf8 (code c))
munge_utf8 c = elim (Bool-cases (ltb (code c) 0x80)) [
  | inl ascii ↦ elim (Bool-cases (is_tag_byte (code c))) [
    | inl plain ↦ unfold bytes munge_bytes in rw (ascii, plain, utf8_ascii (code c) ascii)
    | inr coded ↦
        rw (ascii, coded)
          (unfold utf8 in rw ascii (bytes-escape (code c ∷ []) ((ltb→below _ ascii, coded), tt)))
  ]
  | inr wide ↦
      rw wide
        (bytes-escape (utf8 (code c)) (utf8_escaped (code c) (code_bound c) (not_ltb→le _ _ wide)))
]

-- The munged text, as bytes, is the byte-wise escape of the text's UTF-8.
pub bytes-munge : (s : String) → bytes (munge s) ≡ munge_bytes (bytes s)
unfolding munge bytes
bytes-munge String.[] = unfold munge_bytes in refl
bytes-munge (String.◌∷◌ c s) =
    rw (bytes-append, bytes-munge s, munge_utf8)
      (sym (munge_bytes-append (utf8 (code c)) (bytes s)))

All-append :
    (xs ys : List ℕ) → All (λ b. b < 256) xs → All (λ b. b < 256) ys → All (λ b. b < 256) (xs ++ ys)
All-append [] ys hx hy = hy
All-append (x ∷ xs) ys hx hy = (hx.0, All-append xs ys hx.1 hy)

bytes-IsByte : (s : String) → All (λ b. b < 256) (bytes s)
unfolding bytes
bytes-IsByte String.[] = tt
bytes-IsByte (String.◌∷◌ c s) =
    All-append (utf8 (code c)) (bytes s) (utf8-IsByte (code c) (code_bound c)) (bytes-IsByte s)

-- The tag that is written for a binding holds only bytes that LVM allows in a tag and `#`, and the
-- UTF-8 of the binding can be read back from it.
pub munge_lem : (s : String) → IsTagText (bytes (munge s)) × (unmunge (bytes (munge s)) ≡ bytes s)
munge_lem s = rw bytes-munge (
  munge_bytes-IsTagText (bytes s) (bytes-IsByte s),
  unmunge-munge_bytes (bytes s) (bytes-IsByte s),
)
