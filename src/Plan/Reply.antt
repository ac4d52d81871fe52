-- ===== src/Plan/Reply.antt =====
-- What a method of `PlanService` returns: a value, an error object with a code (the text of the
-- message is left out), or a rejected promise. State that was written before stays written.
use saivage.Base.{Option, none, some}

-- `PlanErrorCode`
pub data PlanErrorCode : Type 0 where
  plan_not_found stage_not_found stage_exists stage_mismatch validation_error io_error :
      PlanErrorCode

-- What a promise is rejected with: the schema's refusal, or the file system's error.
pub data Fault : Type 0 where
  invalid_document io_failure : Fault

pub data Reply {ℓ} (A : Type ℓ) : Type ℓ where
  done : A → Reply A
  refused : PlanErrorCode → Reply A
  thrown : Fault → Reply A

abbrev pub Method : Type 0 → Type 0 → Type 0
Method S A = S → Reply A × S

abbrev pub caught : {A : Type 0} → Reply A → Reply A
caught (done a) = done a
caught (refused c) = refused c
caught (thrown f) = refused validation_error

module _ {S A : Type 0} where
  abbrev pub pure : A → Method S A
  pure a s = (done a, s)

  abbrev pub refuse : PlanErrorCode → Method S A
  refuse c s = (refused c, s)

  abbrev pub throw : Fault → Method S A
  throw f s = (thrown f, s)

  -- `try { … } catch { return planError("VALIDATION_ERROR", …) }`
  abbrev pub try_catch : Method S A → Method S A
  try_catch m s = let (r, s') = m s in (caught r, s')

  -- `if (x === null) return planError(…)`
  abbrev pub require : Option A → PlanErrorCode → Method S A
  require none c = refuse c
  require (some a) c = pure a

module _ {S A B : Type 0} where
  abbrev pub continue : Reply A → (A → Method S B) → Method S B
  continue (done a) f s = f a s
  continue (refused c) f s = (refused c, s)
  continue (thrown e) f s = (thrown e, s)

  infixl 10 ◌>>=◌ ◌>>◌
  abbrev pub ◌>>=◌ : Method S A → (A → Method S B) → Method S B
  ◌>>=◌ m f s = let (r, s') = m s in continue r f s'

  abbrev pub ◌>>◌ : Method S A → Method S B → Method S B
  m >> n = m >>= λ _. n
