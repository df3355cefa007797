-- ===== src/Redact.antt =====
-- chronon-core/src/redact.rs: credentials are taken out of endpoints and of error texts. The offsets
-- of the source are the places where a text is cut in two here.
pub mod Hides
pub mod Leaks
pub mod Rounds
use Prim.Native.Char.{Char, code}
use Prim.Native.String.{◌++◌ as append}
use chronon.Base.{
  ℕ, zero, suc, ◌+◌, Option, none, some, Bool, true, false, not, ◌&&◌, ◌||◌, List, [], ◌∷◌, map,
  String, leb, ltb, eqb, is_some, is_whitespace, if◌then◌else◌,
}

-- A text whose first character is the given one, without it.
abbrev pub strip : ℕ → String → Option String
strip k String.[] = none
strip k (String.◌∷◌ c s) = if eqb (code c) k then some s else none

abbrev pub strip_next : ℕ → Option String → Option String
strip_next k none = none
strip_next k (some s) = strip k s

-- After a leading `://`.
unfoldable pub after_sep : String → Option String
after_sep s = strip_next b'/' (strip_next b'/' (strip b':' s))

abbrev pub cons_first : Char → Option (String × String) → Option (String × String)
cons_first c none = none
cons_first c (some (a, b)) = some (String.◌∷◌ c a, b)

-- `s.find("://")`: what is before the first one and after it.
abbrev pub sep_or : Char → Option String → Option (String × String) → Option (String × String)
sep_or c (some rest) later = some ("", rest)
sep_or c none later = cons_first c later

unfoldable pub split_scheme : String → Option (String × String)
unfolding after_sep
split_scheme String.[] = none
split_scheme (String.◌∷◌ c s) = sep_or c (after_sep (String.◌∷◌ c s)) (split_scheme s)

-- `s.find(k)`
unfoldable pub split_char : ℕ → String → Option (String × String)
split_char k String.[] = none
split_char k (String.◌∷◌ c s) =
    let later = split_char k s in if eqb (code c) k then some ("", s) else cons_first c later

abbrev pub any_char : (ℕ → Bool) → String → Bool
any_char test String.[] = false
any_char test (String.◌∷◌ c s) = test (code c) || any_char test s

abbrev pub ends_authority : ℕ → Bool
ends_authority c = eqb c b'/' || eqb c b'?' || eqb c b'#'

-- From the cut at `@` on.
abbrev pub mask : String → String → Option (String × String) → String
mask endpoint scheme none = endpoint
mask endpoint scheme (some (userinfo, host)) =
    if any_char ends_authority userinfo then endpoint else append scheme (append "://***@" host)

abbrev pub redact_after : String → Option (String × String) → String
redact_after endpoint none = endpoint
redact_after endpoint (some (scheme, authority)) = mask endpoint scheme (split_char b'@' authority)

unfoldable pub redact_single_endpoint : String → String
redact_single_endpoint endpoint = redact_after endpoint (split_scheme endpoint)

-- `split(',')`: the first segment, and the others.
abbrev pub cut_comma : Char → String × List String → String × List String
cut_comma c (first, others) =
    if eqb (code c) b',' then ("", first ∷ others) else (String.◌∷◌ c first, others)

unfoldable pub segments : String → String × List String
segments String.[] = ("", [])
segments (String.◌∷◌ c s) = cut_comma c (segments s)

-- `join(",")`
abbrev pub join : String → List String → String
join first [] = first
join first (next ∷ others) = append first (append "," (join next others))

unfoldable pub redact_endpoint : String → String
unfolding redact_single_endpoint
redact_endpoint endpoint =
    let (first, others) = segments endpoint in
    join (redact_single_endpoint first) (map redact_single_endpoint others)

abbrev pub ends_endpoint : ℕ → Bool
ends_endpoint c = is_whitespace c || eqb c 0x22 || eqb c 0x27 || eqb c b')' || eqb c b']'

abbrev pub cons_both : Char → String × String → String × String
cons_both c (a, b) = (String.◌∷◌ c a, b)

unfoldable pub span_endpoint : String → String × String
unfolding is_whitespace
span_endpoint String.[] = ("", "")
span_endpoint (String.◌∷◌ c s) =
    if ends_endpoint (code c) then ("", String.◌∷◌ c s) else cons_both c (span_endpoint s)

-- The endpoint that starts the text, and the rest.
abbrev pub consume : String → Option (String × String) → String × String
consume s none = (s, "")
consume s (some (scheme, after)) =
    let (rest_of_endpoint, rest) = span_endpoint after in
    (append scheme (append "://" rest_of_endpoint), rest)

unfoldable pub consume_endpoint_prefix : String → String × String
unfolding span_endpoint split_scheme
consume_endpoint_prefix s = consume s (split_scheme s)

-- `is_ascii_alphanumeric`, `+`, `.` or `-`
abbrev pub is_scheme_char : ℕ → Bool
is_scheme_char c =
    (leb b'0' c && leb c b'9')
    || (leb b'A' c && leb c b'Z')
    || (leb b'a' c && leb c b'z')
    || eqb c b'+'
    || eqb c b'.'
    || eqb c b'-'

-- A text cut before the longest run of scheme characters that ends it. The cut falls one byte after
-- the character before the run, inside that character if it is not ASCII: a panic, none here.
abbrev pub cut_scheme : Char → Option (String × String) → Option (String × String)
cut_scheme c none = none
cut_scheme c (some (String.[], scheme)) =
    if is_scheme_char (code c)
    then some ("", String.◌∷◌ c scheme)
    else if ltb (code c) 0x80
    then some (String.◌∷◌ c "", scheme)
    else none
cut_scheme c (some (String.◌∷◌ d pre, scheme)) = some (String.◌∷◌ c (String.◌∷◌ d pre), scheme)

unfoldable pub scheme_start : String → Option (String × String)
scheme_start String.[] = some ("", "")
scheme_start (String.◌∷◌ c s) = cut_scheme c (scheme_start s)

abbrev pub prepend : String → Option String → Option String
prepend s none = none
prepend s (some t) = some (append s t)

-- `fuel` bounds the rounds: each takes a character at least. None is a panic, or the end of the fuel.
unfoldable pub redact_from : ℕ → String → Option String
unfolding split_scheme scheme_start consume_endpoint_prefix redact_endpoint
redact_from zero text = none
redact_from (suc fuel) text = elim (split_scheme text) [
  | none ↦ some text
  | some (before, after) ↦ elim (scheme_start before) [
    | none ↦ none
    | some (pre, scheme) ↦
        let (endpoint, rest) = consume_endpoint_prefix (append scheme (append "://" after)) in
        prepend (append pre (redact_endpoint endpoint)) (redact_from fuel rest)
  ]
]

abbrev pub char_count : String → ℕ
char_count String.[] = 0
char_count (String.◌∷◌ c s) = suc (char_count s)

unfoldable pub redact_credentials_in_text : String → Option String
unfolding redact_from
redact_credentials_in_text text = redact_from (suc (char_count text)) text
