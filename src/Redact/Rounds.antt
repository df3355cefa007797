-- ===== src/Redact/Rounds.antt =====
-- As many rounds as a text has characters, and one, are enough for its redaction
-- (chronon-core/src/redact.rs): with more, the result is the same.
use Prim.Native.Char.{Char, code}
use Prim.Native.String.{◌++◌ as append}
use text.Mathlib.TextLemmas.{nil-append, cons-append}
use chronon.Base.{
  ℕ, zero, suc, ◌+◌, ◌≤◌, ◌<◌, Option, none, some, String, ◌≡◌, refl, inl, inr, arith, Bool-cases,
  Option-cases, subst, ap, eqb, ltb,
}
use chronon.Redact.{
  split_scheme, after_sep, sep_or, span_endpoint, scheme_start, cut_scheme, consume,
  consume_endpoint_prefix, redact_from, char_count, ends_endpoint, is_scheme_char, strip,
  strip_next,
}

char_count-append : (a b : String) → char_count (append a b) ≡ char_count a + char_count b
char_count-append String.[] b =
    let same : char_count (append "" b) ≡ char_count b = ap char_count (nil-append b) in
    omega (arith, same)
char_count-append (String.◌∷◌ c a) b = rw cons-append (omega (arith, char_count-append a b))

-- What is left, with `m` characters more, is no longer than `n`.
abbrev Fits : ℕ → ℕ → Option String → Type 0
Fits m n none = Unit {0}
Fits m n (some r) = char_count r + m ≤ n

strip-Fits : (k : ℕ) (s : String) → Fits 1 (char_count s) (strip k s)
strip-Fits k String.[] = tt
strip-Fits k (String.◌∷◌ c s) = elim (Bool-cases (eqb (code c) k)) [
  | inl t ↦ rw t (omega arith)
  | inr f ↦ rw f tt
]

strip_next-Fits : (k m n : ℕ) (o : Option String) → Fits m n o → Fits (suc m) n (strip_next k o)
strip_next-Fits k m n none h = tt
strip_next-Fits k m n (some String.[]) h = tt
strip_next-Fits k m n (some (String.◌∷◌ c s)) h = elim (Bool-cases (eqb (code c) k)) [
  | inl t ↦ rw t (omega arith)
  | inr f ↦ rw f tt
]

after_sep-Fits : (s : String) → Fits 3 (char_count s) (after_sep s)
unfolding after_sep
after_sep-Fits s = strip_next-Fits b'/' 2 _ _ (strip_next-Fits b'/' 1 _ _ (strip-Fits b':' s))

-- The two parts of a cut, with the three characters of the separator.
abbrev FitsBoth : ℕ → Option (String × String) → Type 0
FitsBoth n none = Unit {0}
FitsBoth n (some (a, b)) = char_count a + char_count b + 3 ≤ n

sep_or-FitsBoth :
    (c : Char) (n : ℕ) (o : Option String) (later : Option (String × String))
    → Fits 3 (suc n) o
    → FitsBoth n later
    → FitsBoth (suc n) (sep_or c o later)
sep_or-FitsBoth c n (some rest) later h k = omega (arith, h)
sep_or-FitsBoth c n none none h k = tt
sep_or-FitsBoth c n none (some (a, b)) h k = omega (arith, k)

split_scheme-FitsBoth : (s : String) → FitsBoth (char_count s) (split_scheme s)
unfolding split_scheme
split_scheme-FitsBoth String.[] = tt
split_scheme-FitsBoth (String.◌∷◌ c s) =
    sep_or-FitsBoth c (char_count s) (after_sep (String.◌∷◌ c s)) (split_scheme s)
      (after_sep-Fits (String.◌∷◌ c s)) (split_scheme-FitsBoth s)

span-le : (s : String) → char_count (span_endpoint s).1 ≤ char_count s
unfolding span_endpoint
span-le String.[] = omega arith
span-le (String.◌∷◌ c s) = elim (Bool-cases (ends_endpoint (code c))) [
  | inl t ↦ rw (t, span_endpoint) (omega arith)
  | inr f ↦ rw (f, span_endpoint) (omega (arith, span-le s))
]

-- The scheme of a cut.
abbrev scheme_count : Option (String × String) → ℕ
scheme_count none = 0
scheme_count (some (pre, scheme)) = char_count scheme

cut_scheme-le :
    (c : Char) (o : Option (String × String)) → scheme_count (cut_scheme c o) ≤ suc (scheme_count o)
cut_scheme-le c none = omega arith
cut_scheme-le c (some (String.◌∷◌ d pre, scheme)) = omega arith
cut_scheme-le c (some (String.[], scheme)) = elim (Bool-cases (is_scheme_char (code c))) [
  | inl t ↦ rw t (omega arith)
  | inr f ↦ elim (Bool-cases (ltb (code c) 0x80)) [
    | inl t ↦ rw (f, t) (omega arith)
    | inr g ↦ rw (f, g) (omega arith)
  ]
]

scheme_start-le : (s : String) → scheme_count (scheme_start s) ≤ char_count s
unfolding scheme_start
scheme_start-le String.[] = omega arith
scheme_start-le (String.◌∷◌ c s) =
    omega (arith, cut_scheme-le c (scheme_start s), scheme_start-le s)

-- The rest after the endpoint is shorter by the separator at least.
consume-le :
    (s : String) (o : Option (String × String))
    → FitsBoth (char_count s) o
    → 3 ≤ char_count s
    → char_count (consume s o).1 + 3 ≤ char_count s
consume-le s none h k = omega (arith, k)
consume-le s (some (scheme, after)) h k = omega (arith, h, span-le after)

-- A round that goes on leaves a shorter text.
rest-lt :
    (text before after pre scheme : String)
    → split_scheme text ≡ some (before, after)
    → scheme_start before ≡ some (pre, scheme)
    → char_count (consume_endpoint_prefix (append scheme (append "://" after))).1 < char_count text
unfolding consume_endpoint_prefix
rest-lt text before after pre scheme e f =
    let whole : String = append scheme (append "://" after) in
    let size : char_count whole ≡ char_count scheme + (3 + char_count after) =
      omega (arith, char_count-append scheme (append "://" after), char_count-append "://" after) in
    let low : char_count scheme ≤ char_count before =
      subst (λ o. scheme_count o ≤ char_count before) f (scheme_start-le before) in
    let fits : char_count before + char_count after + 3 ≤ char_count text =
      subst (FitsBoth (char_count text)) e (split_scheme-FitsBoth text) in
    omega (
      arith,
      size,
      low,
      fits,
      consume-le whole (split_scheme whole) (split_scheme-FitsBoth whole) (omega (arith, size)),
    )

-- With more rounds than the text has characters, the number of rounds does not matter: none is then a
-- panic, and never the end of the fuel.
pub redact_from-enough :
    (n m : ℕ) (text : String)
    → char_count text < n
    → char_count text < m
    → redact_from n text ≡ redact_from m text
unfolding redact_from
redact_from-enough zero m text h k = absurd (omega (arith, h))
redact_from-enough (suc n) zero text h k = absurd (omega (arith, k))
redact_from-enough (suc n) (suc m) text h k = elim (Option-cases (split_scheme text)) [
  | inl e ↦ rw (e, redact_from) refl
  | inr ((before, after), e) ↦ elim (Option-cases (scheme_start before)) [
    | inl f ↦ rw (e, redact_from, f) refl
    | inr ((pre, scheme), f) ↦
        let shorter = rest-lt text before after pre scheme e f in
        let rest = (consume_endpoint_prefix (append scheme (append "://" after))).1 in
        let same = redact_from-enough n m rest (omega (arith, shorter)) (omega (arith, shorter)) in
        rw (e, redact_from, f, same) refl
  ]
]
