-- ===== src/Redact/Hides.antt =====
-- What becomes of an endpoint with credentials (chronon-core/src/redact.rs).
use Prim.Native.Char.{Char, code}
use Prim.Native.String.{◌++◌ as append}
use text.Mathlib.TextLemmas.{nil-append, cons-append}
use chronon.Base.{none, some, false, [], String, ◌≡◌, refl, ap, ◌∙◌, eqb, arith}
use chronon.Redact.{
  after_sep, split_scheme, split_char, any_char, ends_authority, redact_single_endpoint,
  redact_endpoint, segments,
}

sep_lem : (s : String) → append "://" s ≡ String.◌∷◌ ":" (String.◌∷◌ "/" (String.◌∷◌ "/" s))
sep_lem s =
    cons-append ":" "//" s
    ∙ ap (String.◌∷◌ ":") (cons-append "/" "/" s)
    ∙ ap (λ (x : String). String.◌∷◌ ":" (String.◌∷◌ "/" x))
        (cons-append "/" "" s ∙ ap (String.◌∷◌ "/") (nil-append s))

-- A character that is no colon starts no `://`.
after_sep-none :
    (c : Char) (s : String) → eqb (code c) b':' ≡ false → after_sep (String.◌∷◌ c s) ≡ none
unfolding after_sep
after_sep-none c s h = rw h

-- The first `://` ends a scheme without a colon.
pub split_scheme-append :
    (scheme rest : String)
    → any_char (λ c. eqb c b':') scheme ≡ false
    → split_scheme (append scheme (append "://" rest)) ≡ some (scheme, rest)
unfolding split_scheme
split_scheme-append String.[] rest h = rw (nil-append, sep_lem rest)
split_scheme-append (String.◌∷◌ c s) rest h = rw (
  cons-append,
  split_scheme,
  after_sep-none c (append s (append "://" rest)) (ground arith),
  split_scheme-append s rest (ground arith),
)

pub split_char-append :
    (k : Char) (before rest : String)
    → any_char (λ c. eqb c (code k)) before ≡ false
    → split_char (code k) (append before (String.◌∷◌ k rest)) ≡ some (before, rest)
unfolding split_char
split_char-append k String.[] rest h = rw nil-append (ground arith)
split_char-append k (String.◌∷◌ c s) rest h =
    rw cons-append (ground (arith, split_char-append k s rest))

-- A text without a comma is one segment.
pub segments_lem : (s : String) → any_char (λ c. eqb c b',') s ≡ false → segments s ≡ (s, [])
unfolding segments
segments_lem String.[] h = refl
segments_lem (String.◌∷◌ c s) h = ground (arith, segments_lem s)

-- Let an endpoint be a scheme without a colon, `://`, user information that holds no `@`, `/`, `?` or
-- `#`, an `@` and the rest, with no comma anywhere. Then redaction keeps the scheme and what follows
-- the `@`, and gives `***` for the user information, whatever it is.
pub redact_endpoint-Hides :
    (scheme userinfo host : String)
    → any_char (λ c. eqb c b':') scheme ≡ false
    → any_char (λ c. eqb c b'@') userinfo ≡ false
    → any_char ends_authority userinfo ≡ false
    → any_char
        (λ c. eqb c b',')
        (append scheme (append "://" (append userinfo (String.◌∷◌ "@" host))))
      ≡ false
    → redact_endpoint (append scheme (append "://" (append userinfo (String.◌∷◌ "@" host))))
      ≡ append scheme (append "://***@" host)
unfolding redact_endpoint redact_single_endpoint
redact_endpoint-Hides scheme userinfo host no_colon no_at inside no_comma = rw (
  segments_lem _ no_comma,
  split_scheme-append scheme (append userinfo (String.◌∷◌ "@" host)) no_colon,
  split_char-append "@" userinfo host no_at,
  inside,
)
