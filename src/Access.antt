-- ===== src/Access.antt =====
-- Access tokens: onto_platform/token_store.py, and the dependency of `require_scope` in
-- onto_platform/auth.py from the bearer token on. A plaintext is the list of its code points. The
-- password hasher of argon2 is a parameter: what it hashes with a salt, and whether it verifies,
-- where the exceptions that `verify_token` catches count as no. A query without an order reads the
-- rows in the order of their insertion.
pub mod Authorised
pub mod Revoked
mod Tests
use lingyunzhi_os_backend.Base.{
  ℕ, String, Bool, true, false, not, ◌&&◌, List, [], ◌∷◌, ◌++◌, Option, none, some, Result, ok, err,
  nat_eq, ltb, take, ◌==◌, if◌then◌else◌,
}

pub data Scope : Type 0 where
  read editor admin : Scope

abbrev pub scope_value : Scope → ℕ
scope_value read = 1
scope_value editor = 2
scope_value admin = 3

-- A row of `api_tokens`
pub record TokenRow : Type 0 where
  pub id : String
  pub token_hash : String
  pub token_prefix : List ℕ
  pub scope : Scope
  pub label : String
  pub created_by_token_id : Option String
  pub revoked_at : Option ℕ

pub record TokenLookupResult : Type 0 where
  pub token_id : String
  pub scope : Scope
  pub label : String

-- The two answers of `HTTPException`: 401 and 403.
pub data Denied : Type 0 where
  unauthorized : Denied
  forbidden : Scope → Denied

-- Equality of texts
unfoldable pub same_text : List ℕ → List ℕ → Bool
same_text [] [] = true
same_text [] (d ∷ ds) = false
same_text (c ∷ cs) [] = false
same_text (c ∷ cs) (d ∷ ds) = nat_eq c d && same_text cs ds

-- `token_prefix`
abbrev pub prefix_of : List ℕ → List ℕ
prefix_of plaintext = take 8 plaintext

unfoldable pub is_live : Option ℕ → Bool
is_live none = true
is_live (some at) = false

-- `WHERE token_prefix = :p AND revoked_at IS NULL`
unfoldable pub candidates : List ℕ → List TokenRow → List TokenRow
candidates p [] = []
candidates p (row ∷ rows) =
    let rest = candidates p rows in
    if same_text row.token_prefix p && is_live row.revoked_at then row ∷ rest else rest

abbrev pub result_of : TokenRow → TokenLookupResult
result_of row = record { token_id = row.id; scope = row.scope; label = row.label }

-- `UPDATE api_tokens SET revoked_at = now() WHERE id = :i AND revoked_at IS NULL`
unfoldable pub revoke_token : ℕ → String → List TokenRow → List TokenRow
revoke_token now token_id [] = []
revoke_token now token_id (row ∷ rows) =
    (if row.id == token_id && is_live row.revoked_at
      then record row { revoked_at = some now }
      else row)
    ∷ revoke_token now token_id rows

-- `res.rowcount > 0`
unfoldable pub is_affected : String → List TokenRow → Bool
is_affected token_id [] = false
is_affected token_id (row ∷ rows) =
    if row.id == token_id && is_live row.revoked_at then true else is_affected token_id rows

pub record Hasher : Type 0 where
  pub hash : ℕ → List ℕ → String
  pub verify : String → List ℕ → Bool

-- The two tests of `dep` after the lookup
unfoldable pub allowed : Scope → Option TokenLookupResult → Result Denied TokenLookupResult
allowed min_scope none = err unauthorized
allowed min_scope (some result) =
    if ltb (scope_value result.scope) (scope_value min_scope)
    then err (forbidden min_scope)
    else ok result

module _ (hasher : Hasher) where
  -- The row has the identifier that the database makes.
  unfoldable pub insert_token :
      String → ℕ → List ℕ → Scope → String → Option String → List TokenRow → List TokenRow
  insert_token new_id salt plaintext scope label created_by rows =
      rows
      ++ (record {
        id = new_id;
        token_hash = hasher.hash salt plaintext;
        token_prefix = prefix_of plaintext;
        scope = scope;
        label = label;
        created_by_token_id = created_by;
        revoked_at = none;
      }
          ∷ [])

  -- The loop of `lookup_token`
  unfoldable pub first_verified : List ℕ → List TokenRow → Option TokenLookupResult
  first_verified plaintext [] = none
  first_verified plaintext (row ∷ rows) =
      let rest = first_verified plaintext rows in
      if hasher.verify row.token_hash plaintext then some (result_of row) else rest

  unfoldable pub lookup_token : List TokenRow → List ℕ → Option TokenLookupResult
  lookup_token rows plaintext = first_verified plaintext (candidates (prefix_of plaintext) rows)

  -- `dep` of `require_scope(min_scope)`, on what `_extract_bearer` returns, which is never empty
  unfoldable pub require_scope :
      Scope → List TokenRow → Option (List ℕ) → Result Denied TokenLookupResult
  require_scope min_scope rows none = err unauthorized
  require_scope min_scope rows (some token) = allowed min_scope (lookup_token rows token)
