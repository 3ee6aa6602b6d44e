-- ===== src/Registry/Store.antt =====
-- onto_platform/registry/store.py. The table `registries` has one row for each environment
-- (migrations/versions/0001_initial.py); a payload is kept as the registry that its JSON encodes.
-- A call that raises has no state beside its error: its transaction is rolled back.
pub mod Locking
use lingyunzhi_os_backend.Base.{
  ℕ, ◌+◌, String, Bool, false, not, Option, none, some, Result, ok, err, nat_eq, if◌then◌else◌,
}
use lingyunzhi_os_backend.ProtoModels.{OntologyRegistry, empty_registry}

pub data Env : Type 0 where
  staging production previous_production : Env

pub record Row : Type 0 where
  pub payload : OntologyRegistry
  pub version : ℕ
  pub updated_at : ℕ
  pub updated_by_token_label : Option String
  pub last_commit_message : Option String

pub record Registries : Type 0 where
  pub staging_row : Row
  pub production_row : Row
  pub previous_row : Row

abbrev pub empty_row : Row
empty_row = record {
  payload = empty_registry;
  version = 0;
  updated_at = 0;
  updated_by_token_label = none;
  last_commit_message = none;
}

-- The rows that the first migration inserts.
abbrev pub initial : Registries
initial = record { staging_row = empty_row; production_row = empty_row; previous_row = empty_row }

abbrev pub row : Registries → Env → Row
row t staging = t.staging_row
row t production = t.production_row
row t previous_production = t.previous_row

abbrev pub write_row : Registries → Env → Row → Registries
write_row t staging r = record t { staging_row = r }
write_row t production r = record t { production_row = r }
write_row t previous_production r = record t { previous_row = r }

pub record RegistrySnapshot : Type 0 where
  pub env : Env
  pub registry : OntologyRegistry
  pub version : ℕ

unfoldable pub load : Registries → Env → RegistrySnapshot
load t e = record { env = e; registry = (row t e).payload; version = (row t e).version }

-- `StaleVersionError`: the environment, the expected and the current version
pub record StaleVersion : Type 0 where
  pub env : Env
  pub expected_version : ℕ
  pub current_version : ℕ

-- `expected_version is not None and current != expected_version`
abbrev pub is_stale : Option ℕ → ℕ → Bool
is_stale none current = false
is_stale (some expected) current = not (nat_eq current expected)

abbrev expected_or : Option ℕ → ℕ
expected_or none = 0
expected_or (some v) = v

-- `COALESCE(:m, last_commit_message)`
abbrev pub coalesce {ℓ} : {A : Type ℓ} → Option A → Option A → Option A
coalesce none old = old
coalesce (some a) old = some a

-- The row that the UPDATE leaves.
abbrev pub updated : Row → ℕ → OntologyRegistry → Option String → Option String → Row
updated r now registry token_label commit_message = record {
  payload = registry;
  version = r.version + 1;
  updated_at = now;
  updated_by_token_label = token_label;
  last_commit_message = coalesce commit_message r.last_commit_message;
}

-- The new table and the new version; `now` is the time of the transaction.
unfoldable pub save :
    ℕ
    → Registries
    → Env
    → OntologyRegistry
    → Option ℕ
    → Option String
    → Option String
    → Result StaleVersion (Registries × ℕ)
save now t e registry expected_version token_label commit_message =
    let current = (row t e).version in
    if is_stale expected_version current
    then err (record {
      env = e;
      expected_version = expected_or expected_version;
      current_version = current;
    })
    else ok (write_row t e (updated (row t e) now registry token_label commit_message), current + 1)
