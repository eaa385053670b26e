-- ===== src/Types/Optional.antt =====
-- competition-api/internal/types/types.go: a JSON field that may be missing, null or a value.
use competition_api.Prelude.{Bool, true, false, ◌&&◌, Option, none, some, Result, ok, err}
use competition_api.WorkerErrors.{GoError, wrapped}

pub record Optional (A : Type 0) : Type 0 where
  pub value : Option A
  pub defined : Bool

abbrev pub is_present {ℓ} : {A : Type ℓ} → Option A → Bool
is_present none = false
is_present (some a) = true

module _ {A : Type 0} where
  -- The zero value: the field is missing.
  abbrev pub missing : Optional A
  missing = record { value = none; defined = false }

  abbrev pub new_from_val : A → Optional A
  new_from_val a = record { value = some a; defined = true }

  abbrev pub new_from_ptr : Option A → Optional A
  new_from_ptr v = record { value = v; defined = true }

  -- `o.Defined && o.Value != nil`
  abbrev pub has_value : Optional A → Bool
  has_value o = o.defined && is_present o.value

abbrev mapped : {B : Type 0} → Result GoError (Option B) → Result GoError (Optional B)
mapped (ok v) = ok (record { value = v; defined = true })
mapped (err e) = err (wrapped "failed to apply f to value" e)

module _ {A B : Type 0} where
  abbrev map_defined :
      Bool → Option A → (Option A → Result GoError (Option B)) → Result GoError (Optional B)
  map_defined false v f = ok missing
  map_defined true v f = mapped (f v)

  -- `Map`
  unfoldable pub map_optional :
      Optional A → (Option A → Result GoError (Option B)) → Result GoError (Optional B)
  map_optional o f = map_defined o.defined o.value f
