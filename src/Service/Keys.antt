-- ===== src/Service/Keys.antt =====
-- `IdempotencyStore`: the rows of the service's namespace, oldest first by `created_at`. A query or a
-- commit that fails is logged and passed over.
use delta_quant.Prelude.{
  ℕ, zero, suc, ◌-◌, Bool, Option, none, List, [], ◌∷◌, ◌++◌, length, if◌then◌else◌, Text,
}
use delta_quant.Prelude.Dict.{Dict, lookup, erase}
use delta_quant.Service.{ExecutionResult}

-- `MAX_IDEMPOTENCY_ENTRIES`
abbrev pub max_idempotency_entries : ℕ
max_idempotency_entries = 5_000

abbrev pub drop {ℓ} : {A : Type ℓ} → ℕ → List A → List A
drop zero xs = xs
drop (suc n) [] = []
drop (suc n) (x ∷ xs) = drop n xs

module _ {R : Type 0} where
  unfoldable pub seen : Bool → Text → Dict (ExecutionResult R) → Option (ExecutionResult R)
  seen reads key rows = if reads then lookup key rows else none

  -- The row of the key, now the newest.
  unfoldable pub upsert :
      Text → ExecutionResult R → Dict (ExecutionResult R) → Dict (ExecutionResult R)
  upsert key result rows = erase key rows ++ (key, result) ∷ []

  -- The oldest rows beyond the limit are deleted.
  unfoldable pub trim : ℕ → Dict (ExecutionResult R) → Dict (ExecutionResult R)
  trim limit rows = drop (length rows - limit) rows

  -- `record`: the first commit writes the row, the second one trims.
  unfoldable pub record_key :
      ℕ
      → Bool
      → Bool
      → Text
      → ExecutionResult R
      → Dict (ExecutionResult R)
      → Dict (ExecutionResult R)
  unfolding upsert trim
  record_key limit writes trims key result rows =
      let rows' = upsert key result rows in
      if writes then (if trims then trim limit rows' else rows') else rows
