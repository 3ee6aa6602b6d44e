-- ===== src/UiAuth/Revoked.antt =====
-- Revoked tokens and the sessions of onto_platform/ui_auth.py that were opened with them.
use lingyunzhi_os_backend.Base.{
  ℕ, String, ◌≡◌, ◌≢◌, refl, sym, ◌∙◌, ap, inl, inr, true, List, [], ◌∷◌, Option, none, some, ok,
  Bool-cases, ltb, ◌==◌,
}
use mathlib.Core.List.{Memᴰ}
use mathlib.Core.Path.{subst}
use mathlib.Core.Option.{some-injective}
use lingyunzhi_os_backend.Access.{
  Scope, TokenRow, TokenLookupResult, is_live, Hasher, require_scope,
}
use lingyunzhi_os_backend.Access.Authorised.{allowed-ok}
use lingyunzhi_os_backend.Access.Revoked.{
  Since, AllDead, Since-AllDead, true-false, require_scope_revoked,
}
use lingyunzhi_os_backend.UiAuth.{
  SessionRow, Cookie, no_cookie, unreadable_cookie, session_cookie, find_session, find_token,
  resolved, joined, joined_session, resolve_session, require_scope_via_cookie_or_bearer,
}

-- The principal of a session that resolves stands for a token that is not revoked.
none-some : {result : TokenLookupResult} → ◌≡◌ {A = Option TokenLookupResult} none (some result) → ⊥
none-some h = cc

resolved-live :
    (now : ℕ) (s : SessionRow) (t : TokenRow) {result : TokenLookupResult}
    → resolved now s t ≡ some result
    → (is_live t.revoked_at ≡ true) × (result.token_id ≡ s.token_id)
unfolding resolved
resolved-live now s t {result} h = elim (Bool-cases (is_live s.revoked_at)) [
  | inl usable ↦ elim (Bool-cases (is_live t.revoked_at)) [
    | inl live ↦ elim (Bool-cases (ltb s.expires_at now)) [
      | inl late ↦ absurd (none-some (rw late at (rw live at (rw usable at h))))
      | inr in_time ↦ (
        live,
        sym (
            ap (λ (x : TokenLookupResult). x.token_id)
              (some-injective _ result (rw in_time at (rw live at (rw usable at h))))),
      )
    ]
    | inr dead ↦ absurd (none-some (rw dead at (rw usable at h)))
  ]
  | inr shut ↦ absurd (none-some (rw shut at h))
]

joined-some :
    (now : ℕ) (s : SessionRow) (found : Option TokenRow) {result : TokenLookupResult}
    → joined now s found ≡ some result
    → (t : TokenRow) × (found ≡ some t) × (resolved now s t ≡ some result)
unfolding joined
joined-some now s none h = absurd cc
joined-some now s (some t) h = (t, refl, h)

find_token-Mem :
    (id : String) (rows : List TokenRow) {t : TokenRow}
    → find_token id rows ≡ some t
    → Memᴰ t rows × ((t.id == id) ≡ true)
unfolding find_token
find_token-Mem id [] h = absurd cc
find_token-Mem id (r ∷ rows) {t} h = elim (Bool-cases (r.id == id)) [
  | inl same ↦
      let e = some-injective r t (rw same at h) in
      (Memᴰ.head (sym e), subst (λ (x : TokenRow). (x.id == id) ≡ true) e same)
  | inr other ↦ let (m, same) = find_token-Mem id rows (rw other at h) in (Memᴰ.tail m, same)
]

module _ (hasher : Hasher) (token_id : String) where
  -- A session whose token has no live row does not resolve to it.
  joined_session-revoked :
      (now : ℕ) (rows : List TokenRow) (found : Option SessionRow) {result : TokenLookupResult}
      → AllDead token_id rows
      → joined_session now rows found ≡ some result
      → result.token_id ≢ token_id
  unfolding joined_session
  joined_session-revoked now rows none dead h same = absurd cc
  joined_session-revoked now rows (some s) {result} dead h same =
      let (t, here, h') = joined-some now s (find_token s.token_id rows) h in
      let (live, of_session) = resolved-live now s t {result = result} h' in
      let (m, of_token) = find_token-Mem s.token_id rows here in
      let is_token : (t.id == token_id) ≡ true =
        subst (λ x. (t.id == x) ≡ true) (sym of_session ∙ same) of_token in
      true-false (sym live ∙ dead t m is_token)

  -- Once a token has been revoked, no request of the user interface is taken for its holder, neither
  -- with a bearer token nor with the cookie of any session, opened before or after, whatever tokens
  -- with other identifiers are inserted and whatever is revoked later.
  pub require_scope_via_cookie_or_bearer_revoked :
      {rows : List TokenRow}
      → Since hasher token_id rows
      → (now : ℕ) (min_scope : Scope) (sessions : List SessionRow) (bearer : Option (List ℕ))
        (cookie : Cookie) {result : TokenLookupResult}
      → require_scope_via_cookie_or_bearer hasher now min_scope rows sessions bearer cookie
        ≡ ok result
      → result.token_id ≢ token_id
  unfolding require_scope_via_cookie_or_bearer resolve_session require_scope
  require_scope_via_cookie_or_bearer_revoked {rows} s now min_scope sessions (some b) _ {result} h =
      require_scope_revoked hasher token_id s min_scope (some b) {result = result} h
  require_scope_via_cookie_or_bearer_revoked s now min_scope sessions none no_cookie h = absurd cc
  require_scope_via_cookie_or_bearer_revoked s now min_scope sessions none unreadable_cookie h =
      absurd cc
  require_scope_via_cookie_or_bearer_revoked {rows} s now min_scope sessions none
        (session_cookie id) {result} h =
      let (resolves, _) = allowed-ok hasher min_scope _ {result = result} h in
      joined_session-revoked now rows (find_session id sessions) {result = result} (Since-AllDead s)
        resolves
