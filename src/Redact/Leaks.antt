-- ===== src/Redact/Leaks.antt =====
-- Credentials that a redaction leaves where they are (chronon-core/src/redact.rs).
use Prim.Native.Char.{Char, code}
use Prim.Native.String.{◌++◌ as append}
use text.Mathlib.TextLemmas.{nil-append, cons-append}
use chronon.Base.{none, false, ◌∷◌, String, ◌≡◌, refl, ap, ◌∙◌, eqb, arith}
use chronon.Redact.{
  split_scheme, split_char, any_char, redact_single_endpoint, redact_endpoint, segments,
}
use chronon.Redact.Hides.{split_scheme-append, segments_lem}

split_char-none :
    (k : Char) (s : String)
    → any_char (λ c. eqb c (code k)) s ≡ false
    → split_char (code k) s ≡ none
unfolding split_char
split_char-none k String.[] h = refl
split_char-none k (String.◌∷◌ c s) h = ground (arith, split_char-none k s)

segments-append :
    (x y : String)
    → any_char (λ c. eqb c b',') x ≡ false
    → segments (append x (String.◌∷◌ "," y)) ≡ (x, (segments y).0 ∷ (segments y).1)
unfolding segments
segments-append String.[] y h = rw nil-append
segments-append (String.◌∷◌ c s) y h = rw cons-append (ground (arith, segments-append s y))

-- Let an endpoint's user information hold a comma, as a password may: it starts with `secret`, up to
-- that comma, and goes on in `rest`, as far as the `@` and the host. Where no other comma and no other
-- `://` comes, and `secret` holds no `@`, redaction returns the endpoint unchanged, the credentials in
-- it.
pub redact_endpoint-Leaks :
    (scheme secret rest : String)
    → any_char (λ c. eqb c b':') scheme ≡ false
    → any_char (λ c. eqb c b'@') secret ≡ false
    → any_char (λ c. eqb c b',') (append scheme (append "://" secret)) ≡ false
    → any_char (λ c. eqb c b',') rest ≡ false
    → split_scheme rest ≡ none
    → redact_endpoint (append (append scheme (append "://" secret)) (String.◌∷◌ "," rest))
      ≡ append (append scheme (append "://" secret)) (String.◌∷◌ "," rest)
unfolding redact_endpoint redact_single_endpoint
redact_endpoint-Leaks scheme secret rest no_colon no_at one_comma no_comma no_sep =
    rw
      (
        segments-append (append scheme (append "://" secret)) rest one_comma,
        segments_lem rest no_comma,
        split_scheme-append scheme secret no_colon,
        split_char-none "@" secret no_at,
        no_sep,
      )
      (ap (append (append scheme (append "://" secret)))
        (cons-append "," "" rest ∙ ap (String.◌∷◌ ",") (nil-append rest)))
