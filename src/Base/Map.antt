-- ===== src/Base/Map.antt =====
-- `HashMap<String, V>` as an association list: the order of the entries stands for the order in
-- which an iteration over the map meets them.
use Prim.Native.String.{String}
use mathlib.Core.List.{List, [], ◌∷◌, map}
use mathlib.Core.Logic.{◌≢◌, ite}
use mathlib.Core.Option.{Option, none, some}
use mathlib.Core.Path.{◌≡◌, refl, subst₂}
use native.Mathlib.Omega.{arith}
use chronon.Base.Lists.{All}
use chronon.Base.Text.{text_discrete}

module _ {ℓ} {A : Type ℓ} where
  unfoldable pub lookup : String → List (String × A) → Option A
  lookup k [] = none
  lookup k ((j, v) ∷ m) = ite (text_discrete j k) (some v) (lookup k m)

  -- A key that is present keeps its place.
  unfoldable pub insert : String → A → List (String × A) → List (String × A)
  insert k v [] = (k, v) ∷ []
  insert k v ((j, w) ∷ m) = ite (text_discrete j k) ((k, v) ∷ m) ((j, w) ∷ insert k v m)

  unfoldable pub remove : String → List (String × A) → List (String × A)
  remove k [] = []
  remove k ((j, w) ∷ m) = ite (text_discrete j k) (remove k m) ((j, w) ∷ remove k m)

  abbrev pub values : List (String × A) → List A
  values = map (λ e. e.1)

  pub lookup-insert :
      (k j : String) (v : A) (m : List (String × A))
      → lookup j (insert k v m) ≡ ite (text_discrete k j) (some v) (lookup j m)
  unfolding lookup insert
  lookup-insert k j v [] = refl
  lookup-insert k j v ((i, w) ∷ m) = ground (arith, lookup-insert k j v m)

  pub lookup-remove :
      (k j : String) (m : List (String × A))
      → lookup j (remove k m) ≡ ite (text_discrete k j) none (lookup j m)
  unfolding lookup remove
  lookup-remove k j [] = ground arith
  lookup-remove k j ((i, w) ∷ m) = ground (arith, lookup-remove k j m)

  pub lookup-insert_self :
      (k : String) (v : A) (m : List (String × A)) → lookup k (insert k v m) ≡ some v
  lookup-insert_self k v m = ground (arith, lookup-insert k k v m)

  pub lookup-insert_ne :
      (k j : String) (v : A) (m : List (String × A)) → k ≢ j → lookup j (insert k v m) ≡ lookup j m
  lookup-insert_ne k j v m h = ground (arith, lookup-insert k j v m)

  pub lookup-remove_self : (k : String) (m : List (String × A)) → lookup k (remove k m) ≡ none
  lookup-remove_self k m = ground (arith, lookup-remove k k m)

  -- Each key has one entry.
  abbrev pub Distinct : List (String × A) → Type ℓ
  Distinct [] = Unit
  Distinct ((k, v) ∷ m) = (lookup k m ≡ none) × Distinct m

  pub lookup_of_All {κ} :
      (P : String → A → Type κ) (m : List (String × A)) {k : String} {v : A}
      → All (λ e. P e.0 e.1) m
      → lookup k m ≡ some v
      → P k v
  unfolding lookup
  lookup_of_All P [] h e = cc
  lookup_of_All P ((j, w) ∷ m) {k} {v} h e = elim (text_discrete j k) [
    | yes same ↦ subst₂ P same (ground arith) h.0
    | no other ↦ lookup_of_All P m h.1 (ground arith)
  ]

  pub insert-Distinct :
      (k : String) (v : A) (m : List (String × A)) → Distinct m → Distinct (insert k v m)
  unfolding lookup insert
  insert-Distinct k v [] d = (refl, tt)
  insert-Distinct k v ((j, w) ∷ m) d =
      ground (arith, lookup-insert k j v m, insert-Distinct k v m d.1)

  pub remove-Distinct : (k : String) (m : List (String × A)) → Distinct m → Distinct (remove k m)
  unfolding lookup remove
  remove-Distinct k [] d = tt
  remove-Distinct k ((j, w) ∷ m) d = ground (arith, lookup-remove k j m, remove-Distinct k m d.1)

  -- A later entry is not hidden by an earlier one.
  later :
      (k : String) (v : A) (m n : List (String × A))
      → lookup k n ≡ none
      → All (λ e. lookup e.0 n ≡ some e.1) m
      → All (λ e. lookup e.0 ((k, v) ∷ n) ≡ some e.1) m
  unfolding lookup
  later k v [] n h a = tt
  later k v ((j, w) ∷ m) n h a = (ground (arith, a.0), later k v m n h a.1)

  pub Distinct-All : (m : List (String × A)) → Distinct m → All (λ e. lookup e.0 m ≡ some e.1) m
  unfolding lookup
  Distinct-All [] d = tt
  Distinct-All ((k, v) ∷ m) d = (ground arith, later k v m m d.0 (Distinct-All m d.1))
