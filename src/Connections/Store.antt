-- ===== src/Connections/Store.antt =====
-- `ConnectionStore` of onto_platform/connections/store.py over the table `connections`, and
-- `register_connection` of onto_platform/connections/probe.py. What the cipher makes of a DSN, the
-- identifier of a new row and what the probe finds are parameters.
use lingyunzhi_os_backend.Base.{
  ℕ, String, Bool, false, ◌||◌, List, [], ◌∷◌, ◌++◌, Option, none, some, Result, ok, err, ◌>>=◌,
  ◌==◌, if◌then◌else◌,
}

pub data ConnectionKind : Type 0 where
  postgres mysql sqlite : ConnectionKind

-- A row of `connections`
pub record Connection : Type 0 where
  pub id : String
  pub label : String
  pub kind : ConnectionKind
  pub dsn_encrypted : String
  pub last_probe_ok_at : Option ℕ

pub data ConnectionError {ℓ} (Raised : Type ℓ) : Type ℓ where
  -- `ConnectionAlreadyExists`, `ConnectionNotFound` and `ConnectionProbeError`
  already_exists : String → ConnectionError Raised
  not_found : String → ConnectionError Raised
  probe_failed : Raised → ConnectionError Raised

-- The labels are unique.
unfoldable pub has_label : String → List Connection → Bool
has_label label [] = false
has_label label (c ∷ cs) = c.label == label || has_label label cs

unfoldable pub find_id : String → List Connection → Option Connection
find_id id [] = none
find_id id (c ∷ cs) = let rest = find_id id cs in if c.id == id then some c else rest

unfoldable pub mark_probe_ok : ℕ → String → List Connection → List Connection
mark_probe_ok now id [] = []
mark_probe_ok now id (c ∷ cs) =
    (if c.id == id then record c { last_probe_ok_at = some now } else c) ∷ mark_probe_ok now id cs

-- `DELETE FROM connections WHERE id = :i`
unfoldable pub delete_connection_row : String → List Connection → List Connection
delete_connection_row id [] = []
delete_connection_row id (c ∷ cs) =
    let rest = delete_connection_row id cs in if c.id == id then rest else c ∷ rest

-- `{str(c.id) for c in rows}`
unfoldable pub connection_ids : List Connection → List String
connection_ids [] = []
connection_ids (c ∷ cs) = c.id ∷ connection_ids cs

module _ {ℓ} {Raised : Type ℓ} where
  unfoldable pub get_or_raise :
      String → Option Connection → Result (ConnectionError Raised) Connection
  get_or_raise id none = err (not_found id)
  get_or_raise id (some c) = ok c

  unfoldable pub get_by_id : String → List Connection → Result (ConnectionError Raised) Connection
  get_by_id id cs = get_or_raise id (find_id id cs)

  unfoldable pub insert_connection :
      String
      → String
      → ConnectionKind
      → String
      → List Connection
      → Result (ConnectionError Raised) (List Connection)
  insert_connection new_id label kind dsn_encrypted cs =
      if has_label label cs
      then err (already_exists label)
      else ok (
          cs
          ++ (record {
            id = new_id;
            label = label;
            kind = kind;
            dsn_encrypted = dsn_encrypted;
            last_probe_ok_at = none;
          }
              ∷ []))

  -- `if not ok: raise ConnectionProbeError(…)`
  unfoldable pub probed : Option Raised → Result (ConnectionError Raised) (Unit {0})
  probed none = ok tt
  probed (some e) = err (probe_failed e)

  -- The new table and the row that is read back.
  unfoldable pub register_connection :
      ℕ
      → String
      → (ConnectionKind → String → Option Raised)
      → (String → String)
      → String
      → ConnectionKind
      → String
      → List Connection
      → Result (ConnectionError Raised) (List Connection × Connection)
  register_connection now new_id probe encrypt label kind dsn cs = probed (probe kind dsn) >>= λ _.
      insert_connection new_id label kind (encrypt dsn) cs >>= λ cs'.
      get_by_id new_id (mark_probe_ok now new_id cs') >>= λ c. ok (mark_probe_ok now new_id cs', c)
