-- ===== src/Sanitize.antt =====
-- chronon-core/src/sanitize.rs: error messages before they are stored or answered. A byte offset of
-- the source is the place where a text is cut in two here; a cut inside a character is a panic, none.
use Prim.Native.Char.{Char, code, len_utf8}
use Prim.Native.String.{◌++◌ as append}
use chronon.Base.{
  ℕ, zero, suc, ◌-◌, Option, none, some, List, [], ◌∷◌, String, eqb, leb, ltb, if◌then◌else◌,
}
use chronon.Redact.{redact_credentials_in_text}

abbrev max_error_message_chars : ℕ
max_error_message_chars = 512

-- `raw.replace('\0', "")`
unfoldable pub drop_nuls : String → String
drop_nuls String.[] = ""
drop_nuls (String.◌∷◌ c s) =
    let rest = drop_nuls s in if eqb (code c) 0 then rest else String.◌∷◌ c rest

-- What follows the needle at the start of the text.
unfoldable pub after_needle : String → String → Option String
after_needle String.[] s = some s
after_needle (String.◌∷◌ n needle) String.[] = none
after_needle (String.◌∷◌ n needle) (String.◌∷◌ c s) =
    let rest = after_needle needle s in if eqb (code n) (code c) then rest else none

abbrev cons_before : Char → Option (String × String) → Option (String × String)
cons_before c none = none
cons_before c (some (before, after)) = some (String.◌∷◌ c before, after)

abbrev found_or : Char → Option String → Option (String × String) → Option (String × String)
found_or c (some after) later = some ("", after)
found_or c none later = cons_before c later

-- `out.find(needle)`: what is before the first one and after it. No needle is empty.
unfoldable pub split_needle : String → String → Option (String × String)
unfolding after_needle
split_needle needle String.[] = none
split_needle needle (String.◌∷◌ c s) =
    found_or c (after_needle needle (String.◌∷◌ c s)) (split_needle needle s)

-- The text without its first `n` bytes, or without any where it is shorter.
unfoldable pub drop_bytes : ℕ → String → Option String
drop_bytes n String.[] = some ""
drop_bytes n (String.◌∷◌ c s) =
    let rest = drop_bytes (n - len_utf8 c) s in
    if eqb n 0 then some (String.◌∷◌ c s) else if leb (len_utf8 c) n then rest else none

abbrev masked : String → String → Option String → Option String
masked before needle none = none
masked before needle (some rest) = some (append before (append needle (append "[redacted]" rest)))

abbrev mask_found : String → String → Option (String × String) → Option String
mask_found needle out none = some out
mask_found needle out (some (before, after)) = masked before needle (drop_bytes 8 after)

-- One round of the loop over the needles.
unfoldable pub mask_needle : String → String → Option String
unfolding split_needle drop_bytes
mask_needle needle out = mask_found needle out (split_needle needle out)

abbrev mask_in : String → Option String → Option String
mask_in needle none = none
mask_in needle (some out) = mask_needle needle out

abbrev mask_needles : List String → Option String → Option String
mask_needles [] out = out
mask_needles (needle ∷ needles) out = mask_needles needles (mask_in needle out)

abbrev needles : List String
needles =
    "password=" ∷ "Password=" ∷ "secret=" ∷ "Secret=" ∷ "token=" ∷ "Token=" ∷ "Bearer "
    ∷ "authorization:" ∷ []

abbrev char_count : String → ℕ
char_count String.[] = 0
char_count (String.◌∷◌ c s) = suc (char_count s)

abbrev take_chars : ℕ → String → String
take_chars zero s = ""
take_chars (suc n) String.[] = ""
take_chars (suc n) (String.◌∷◌ c s) = String.◌∷◌ c (take_chars n s)

unfoldable pub truncate : String → String
truncate out =
    if ltb max_error_message_chars (char_count out)
    then append (take_chars max_error_message_chars out) "…"
    else out

abbrev truncated : Option String → Option String
truncated none = none
truncated (some out) = some (truncate out)

unfoldable pub sanitize_error_message : String → Option String
unfolding drop_nuls mask_needle truncate
sanitize_error_message raw = truncated (mask_needles needles (some (drop_nuls raw)))

abbrev sanitized : Option String → Option String
sanitized none = none
sanitized (some text) = sanitize_error_message text

-- `sanitize_error_message(&redact_credentials_in_text(text))`
unfoldable pub safe_message : String → Option String
unfolding redact_credentials_in_text sanitize_error_message
safe_message text = sanitized (redact_credentials_in_text text)
