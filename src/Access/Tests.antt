-- ===== src/Access/Tests.antt =====
-- Two tokens, one of which is revoked, and the theorems at this table.
use lingyunzhi_os_backend.Base.{
  ℕ, String, ◌≡◌, ◌≢◌, ◌≤◌, refl, List, [], ◌∷◌, none, some, ok, ◌==◌, nat_eq, if◌then◌else◌,
}
use mathlib.Core.List.{Memᴰ}
use lingyunzhi_os_backend.Access.{
  read, editor, scope_value, TokenRow, TokenLookupResult, same_text, is_live, candidates, result_of,
  revoke_token, Hasher, insert_token, first_verified, lookup_token, allowed, require_scope,
}
use lingyunzhi_os_backend.Access.Authorised.{Opens, require_scope-ok}
use lingyunzhi_os_backend.Access.Revoked.{Since, require_scope_revoked}

-- Unfolding this unfolds the table and its checks.
unfoldable running : Unit {0}
unfolding same_text is_live candidates revoke_token insert_token first_verified lookup_token allowed
    require_scope
running = tt

-- A hasher that tells the texts apart that begin with the first letter.
abbrev hashed : List ℕ → String
hashed [] = ""
hashed (c ∷ cs) = if nat_eq c b'a' then "a" else "b"

abbrev by_letter : Hasher
by_letter = record {
  hash = λ salt plaintext. hashed plaintext;
  verify = λ h plaintext. h == hashed plaintext;
}

abbrev rows : List TokenRow
rows =
    insert_token by_letter "2" 0 (b'b' ∷ []) editor "second" none
      (insert_token by_letter "1" 0 (b'a' ∷ []) read "first" none [])

abbrev second : TokenLookupResult
second = record { token_id = "2"; scope = editor; label = "second" }

let_in : require_scope by_letter read (revoke_token 5 "1" rows) (some (b'b' ∷ [])) ≡ ok second
unfolding running
let_in = refl

require_scope-ok_example :
    (plaintext : List ℕ) × (row : TokenRow) × (some (b'b' ∷ []) ≡ some plaintext)
    × Memᴰ row (revoke_token 5 "1" rows)
    × Opens by_letter plaintext row
    × (scope_value read ≤ scope_value row.scope)
    × (second ≡ result_of row)
require_scope-ok_example =
    require_scope-ok by_letter read (revoke_token 5 "1" rows) (some (b'b' ∷ [])) let_in

require_scope_revoked_example : second.token_id ≢ "1"
require_scope_revoked_example =
    require_scope_revoked by_letter "1" (Since.revoked 5 rows) read (some (b'b' ∷ [])) let_in
