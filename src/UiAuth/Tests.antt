-- ===== src/UiAuth/Tests.antt =====
-- Two tokens with a session each, of which the first token is revoked.
use lingyunzhi_os_backend.Base.{String, ◌≡◌, ◌≢◌, refl, List, [], ◌∷◌, none, ok, ◌==◌}
use lingyunzhi_os_backend.Access.{
  read, editor, TokenRow, TokenLookupResult, Hasher, same_text, is_live, candidates, insert_token,
  first_verified, lookup_token, allowed, revoke_token,
}
use lingyunzhi_os_backend.Access.Revoked.{Since}
use lingyunzhi_os_backend.UiAuth.{
  SessionRow, no_cookie, session_cookie, find_session, find_token, resolved, joined, joined_session,
  resolve_session, revoke_session, logged_in, login, logout, require_scope_via_cookie_or_bearer,
}
use lingyunzhi_os_backend.UiAuth.Revoked.{require_scope_via_cookie_or_bearer_revoked}

-- Unfolding this unfolds the sessions and their checks.
unfoldable running : Unit {0}
unfolding same_text is_live candidates insert_token first_verified lookup_token allowed revoke_token
    find_session find_token resolved joined joined_session resolve_session revoke_session logged_in
    login logout require_scope_via_cookie_or_bearer
running = tt

abbrev hasher : Hasher
hasher = record { hash = λ salt plaintext. "h"; verify = λ h plaintext. h == "h" }

abbrev tokens : List TokenRow
tokens =
    insert_token hasher "2" 0 (b'b' ∷ []) editor "second" none
      (insert_token hasher "1" 0 (b'a' ∷ []) read "first" none [])

abbrev opened : TokenLookupResult
opened = record { token_id = "2"; scope = editor; label = "second" }

abbrev session : String → String → SessionRow
session id token_id = record {
  id = id;
  token_id = token_id;
  scope = editor;
  expires_at = 60;
  revoked_at = none;
}

abbrev sessions : List SessionRow
sessions = session "s" "1" ∷ session "t" "2" ∷ []

logs_in : login hasher 0 60 "t" tokens (session "s" "1" ∷ []) (b'b' ∷ []) ≡ ok (sessions, opened)
unfolding running
logs_in = refl

let_in :
    require_scope_via_cookie_or_bearer hasher 9 read
      (revoke_token 5 "1" tokens)
      sessions
      none
      (session_cookie "t")
    ≡ ok opened
unfolding running
let_in = refl

logs_out : find_session "t" (logout 7 no_cookie sessions) ≡ find_session "t" sessions
unfolding running
logs_out = refl

require_scope_via_cookie_or_bearer_revoked_example : ◌≢◌ {A = String} "2" "1"
require_scope_via_cookie_or_bearer_revoked_example =
    require_scope_via_cookie_or_bearer_revoked hasher "1" (Since.revoked 5 tokens) 9 read sessions
      none (session_cookie "t") let_in
