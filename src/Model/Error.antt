-- ===== src/Model/Error.antt =====
-- chronon-core/src/error.rs. The boxed `source` of a storage or internal error is left out: no code
-- branches on it.
use chronon.Base.{String, Option, none, ◌≡◌, refl, ◌⊎◌, inl, inr}

pub data ChrononError : Type 0 where
  script_not_found : String → ChrononError
  job_not_found : String → ChrononError
  run_not_found : String → ChrononError
  invalid_cron : String → ChrononError
  invalid_timezone : String → ChrononError
  param_error : String → ChrononError
  script_mismatch : String → String → String → ChrononError
  job_name_taken : String → String → ChrononError
  storage_error : String → ChrononError
  identity : String → ChrononError
  internal : String → ChrononError
  internal_source : String → ChrononError

pub data Result {ℓ} (A : Type ℓ) : Type ℓ where
  ok : A → Result A
  err : ChrononError → Result A

-- A store call may change the state also where it fails.
abbrev pub Io {ℓ κ} : Type ℓ → Type κ → Type (ℓ ⊔ κ)
Io S A = S → A × S

infixl 5 ◌>>=◌ ◌>>◌
abbrev pub ◌>>=◌ {ℓ κ ι} : {S : Type ℓ} {A : Type κ} {B : Type ι} → Io S A → (A → Io S B) → Io S B
◌>>=◌ m f s = let (a, s') = m s in f a s'

abbrev pub ◌>>◌ {ℓ κ ι} : {S : Type ℓ} {A : Type κ} {B : Type ι} → Io S A → Io S B → Io S B
m >> k = m >>= λ _. k

abbrev pub pure {ℓ κ} : {S : Type ℓ} {A : Type κ} → A → Io S A
pure a s = (a, s)

-- `e?`: a failure is passed on.
abbrev pub try_ok {ℓ κ ι} :
    {S : Type ℓ} {A : Type κ} {B : Type ι} → Result A → (A → Io S (Result B)) → Io S (Result B)
try_ok (ok a) f = f a
try_ok (err e) f = pure (err e)

-- `.ok().flatten()` and `.unwrap_or(d)`
abbrev pub flatten_ok {ℓ} : {A : Type ℓ} → Result (Option A) → Option A
flatten_ok (ok o) = o
flatten_ok (err e) = none

abbrev pub ok_or {ℓ} : {A : Type ℓ} → Result A → A → A
ok_or (ok a) d = a
ok_or (err e) d = d

pub Result-cases {ℓ} :
    {A : Type ℓ} (r : Result A) → ((a : A) × (r ≡ ok a)) ⊎ ((e : ChrononError) × (r ≡ err e))
Result-cases (ok a) = inl (a, refl)
Result-cases (err e) = inr (e, refl)

-- How a task's call ends: it returns, it panics, or it never ends.
pub data Exit : Type 0 where
  returned panicked endless : Exit
