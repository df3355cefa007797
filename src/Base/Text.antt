-- ===== src/Base/Text.antt =====
-- Texts are compared through a decision, which proofs split on and tests evaluate.
use Prim.Native.String.{String}
use mathlib.Core.Bool.{Bool, true, false}
use mathlib.Core.Logic.{◌↔◌, ◌≢◌}
use mathlib.Core.Option.{Option, none, some}
use mathlib.Core.Path.{◌≡◌, refl}
use native.Mathlib.Omega.{arith}
use text.Mathlib.Text.{◌==◌ as str_eq}
use text.Mathlib.TextEquality.{eq_iff}

decide_by {ℓ} : {P : Type ℓ} (b : Bool) → (b ≡ true) ↔ P → Dec P
decide_by true h = yes (h.0 refl)
decide_by false h = no (λ p. cc (h.1 p))

unfoldable pub text_discrete : Discrete String
unfolding decide_by
text_discrete a b = decide_by (str_eq a b) (eq_iff a b)

infix 50 ◌==◌
abbrev pub ◌==◌ : String → String → Bool
a == b = elim (text_discrete a b) [ yes _ ↦ true | no _ ↦ false ]

-- `o.as_deref() == Some(a)`
abbrev pub holds : Option String → String → Bool
holds none a = false
holds (some b) a = b == a

pub differ : (a b : String) → (a == b) ≡ false → a ≢ b
differ a b h = ground arith
