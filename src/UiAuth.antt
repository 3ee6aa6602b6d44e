-- ===== src/UiAuth.antt =====
-- onto_platform/ui_auth.py: the sessions of the user interface over the table `ui_sessions` of the
-- migration 0002, logging in and out, and the check of a request by its bearer token or its cookie.
-- Identifiers of new sessions and the time are arguments; a cookie stands as the UUID that its text is
-- read as, or as unreadable.
pub mod Revoked
mod Tests
use lingyunzhi_os_backend.Base.{
  ℕ, ◌+◌, String, Bool, List, [], ◌∷◌, ◌++◌, Option, none, some, Result, ok, err, ltb, ◌==◌,
  if◌then◌else◌,
}
use lingyunzhi_os_backend.Access.{
  Scope, TokenRow, TokenLookupResult, Denied, unauthorized, is_live, Hasher, lookup_token, allowed,
}

-- A row of `ui_sessions`
pub record SessionRow : Type 0 where
  pub id : String
  pub token_id : String
  pub scope : Scope
  pub expires_at : ℕ
  pub revoked_at : Option ℕ

pub data Cookie : Type 0 where
  no_cookie unreadable_cookie : Cookie
  session_cookie : String → Cookie

unfoldable pub find_session : String → List SessionRow → Option SessionRow
find_session id [] = none
find_session id (s ∷ ss) = let rest = find_session id ss in if s.id == id then some s else rest

unfoldable pub find_token : String → List TokenRow → Option TokenRow
find_token id [] = none
find_token id (t ∷ ts) = let rest = find_token id ts in if t.id == id then some t else rest

-- The tests on a row of the join.
unfoldable pub resolved : ℕ → SessionRow → TokenRow → Option TokenLookupResult
resolved now s t =
    if is_live s.revoked_at
    then if is_live t.revoked_at
      then if ltb s.expires_at now
        then none
        else some (record { token_id = s.token_id; scope = s.scope; label = t.label })
      else none
    else none

-- `JOIN api_tokens t ON t.id = s.token_id`
unfoldable pub joined : ℕ → SessionRow → Option TokenRow → Option TokenLookupResult
joined now s none = none
joined now s (some t) = resolved now s t

unfoldable pub joined_session : ℕ → List TokenRow → Option SessionRow → Option TokenLookupResult
joined_session now tokens none = none
joined_session now tokens (some s) = joined now s (find_token s.token_id tokens)

-- `_resolve_session`
unfoldable pub resolve_session :
    ℕ → List TokenRow → List SessionRow → String → Option TokenLookupResult
resolve_session now tokens sessions id = joined_session now tokens (find_session id sessions)

unfoldable pub logged_in :
    ℕ
    → ℕ
    → String
    → List SessionRow
    → Option TokenLookupResult
    → Result Denied (List SessionRow × TokenLookupResult)
logged_in now ttl_seconds new_id sessions none = err unauthorized
logged_in now ttl_seconds new_id sessions (some result) = ok (
  sessions
      ++ (record {
        id = new_id;
        token_id = result.token_id;
        scope = result.scope;
        expires_at = now + ttl_seconds;
        revoked_at = none;
      }
          ∷ []),
  result,
)

-- `UPDATE ui_sessions SET revoked_at = now() WHERE id = :i`
unfoldable pub revoke_session : ℕ → String → List SessionRow → List SessionRow
revoke_session now id [] = []
revoke_session now id (s ∷ ss) =
    (if s.id == id then record s { revoked_at = some now } else s) ∷ revoke_session now id ss

unfoldable pub logout : ℕ → Cookie → List SessionRow → List SessionRow
logout now no_cookie sessions = sessions
logout now unreadable_cookie sessions = sessions
logout now (session_cookie id) sessions = revoke_session now id sessions

module _ (hasher : Hasher) where
  -- The new session has the cookie `new_id`.
  unfoldable pub login :
      ℕ
      → ℕ
      → String
      → List TokenRow
      → List SessionRow
      → List ℕ
      → Result Denied (List SessionRow × TokenLookupResult)
  login now ttl_seconds new_id tokens sessions token =
      logged_in now ttl_seconds new_id sessions (lookup_token hasher tokens token)

  -- `dep` of `require_scope_via_cookie_or_bearer(min_scope)`
  unfoldable pub require_scope_via_cookie_or_bearer :
      ℕ
      → Scope
      → List TokenRow
      → List SessionRow
      → Option (List ℕ)
      → Cookie
      → Result Denied TokenLookupResult
  require_scope_via_cookie_or_bearer now min_scope tokens sessions (some bearer) _ =
      allowed min_scope (lookup_token hasher tokens bearer)
  require_scope_via_cookie_or_bearer now min_scope tokens sessions none no_cookie = err unauthorized
  require_scope_via_cookie_or_bearer now min_scope tokens sessions none unreadable_cookie =
      err unauthorized
  require_scope_via_cookie_or_bearer now min_scope tokens sessions none (session_cookie id) =
      allowed min_scope (resolve_session now tokens sessions id)
