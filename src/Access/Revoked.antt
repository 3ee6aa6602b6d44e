-- ===== src/Access/Revoked.antt =====
-- A revoked token of onto_platform/token_store.py stays out, whatever is inserted and revoked later.
use lingyunzhi_os_backend.Base.{
  ℕ, String, ◌≡◌, ◌≢◌, refl, sym, ◌∙◌, inl, inr, Bool, true, false, ◌&&◌, List, [], ◌∷◌, ◌++◌,
  Option, some, ok, Bool-cases, if◌then◌else◌, ◌==◌, eq_refl, ap,
}
use mathlib.Core.List.{Memᴰ}
use lingyunzhi_os_backend.Access.{
  Scope, TokenRow, TokenLookupResult, is_live, Hasher, revoke_token, insert_token, require_scope,
}
use lingyunzhi_os_backend.Access.Authorised.{require_scope-ok}

-- What may happen to the table once a token has been revoked. The database makes no identifier twice.
pub data Since (hasher : Hasher) (token_id : String) : List TokenRow → Type 0 where
  revoked :
      (now : ℕ) (rows : List TokenRow) → Since hasher token_id (revoke_token now token_id rows)
  then_insert :
      {rows : List TokenRow} (new_id : String) (salt : ℕ) (plaintext : List ℕ) (scope : Scope)
      (label : String) (created_by : Option String)
      → (new_id == token_id) ≡ false
      → Since hasher token_id rows
      → Since hasher token_id
          (insert_token hasher new_id salt plaintext scope label created_by rows)
  then_revoke :
      {rows : List TokenRow} (now : ℕ) (other : String)
      → Since hasher token_id rows
      → Since hasher token_id (revoke_token now other rows)

-- No row of the token is live.
abbrev pub Dead : String → TokenRow → Type 0
Dead token_id row = (row.id == token_id) ≡ true → is_live row.revoked_at ≡ false

abbrev pub AllDead : String → List TokenRow → Type 0
AllDead token_id rows = (row : TokenRow) → Memᴰ row rows → Dead token_id row

-- The row that `revoke_token` makes of one.
abbrev row_after : ℕ → String → TokenRow → TokenRow
row_after now token_id row =
    if row.id == token_id && is_live row.revoked_at
    then record row { revoked_at = some now }
    else row

and_right : (a b : Bool) → (a && b) ≡ false → a ≡ true → b ≡ false
and_right true b h i = h
and_right false b h i = absurd cc

row_after-Dead :
    (now : ℕ) (token_id : String) (row : TokenRow) → Dead token_id (row_after now token_id row)
unfolding is_live
row_after-Dead now token_id row = elim (Bool-cases (row.id == token_id && is_live row.revoked_at)) [
  | inl hit ↦ rw hit (λ i. refl)
  | inr miss ↦ rw miss (and_right (row.id == token_id) (is_live row.revoked_at) miss)
]

row_after_keeps :
    (now : ℕ) (token_id other : String) (row : TokenRow)
    → Dead token_id row
    → Dead token_id (row_after now other row)
unfolding is_live
row_after_keeps now token_id other row h =
    elim (Bool-cases (row.id == other && is_live row.revoked_at)) [
      | inl hit ↦ rw hit (λ i. refl)
      | inr miss ↦ rw miss h
    ]

revoke_token-AllDead :
    (now : ℕ) (token_id : String) (rows : List TokenRow)
    → AllDead token_id (revoke_token now token_id rows)
unfolding revoke_token
revoke_token-AllDead now token_id [] row m = elim m [ ]
revoke_token-AllDead now token_id (r ∷ rows) row (Memᴰ.head e) =
    rw e (row_after-Dead now token_id r)
revoke_token-AllDead now token_id (r ∷ rows) row (Memᴰ.tail m) =
    revoke_token-AllDead now token_id rows row m

revoke_token_keeps :
    (now : ℕ) (token_id other : String) (rows : List TokenRow)
    → AllDead token_id rows
    → AllDead token_id (revoke_token now other rows)
unfolding revoke_token
revoke_token_keeps now token_id other [] all row m = elim m [ ]
revoke_token_keeps now token_id other (r ∷ rows) all row (Memᴰ.head e) =
    rw e (row_after_keeps now token_id other r (all r (Memᴰ.head refl)))
revoke_token_keeps now token_id other (r ∷ rows) all row (Memᴰ.tail m) =
    revoke_token_keeps now token_id other rows (λ x n. all x (Memᴰ.tail n)) row m

snoc-AllDead :
    (token_id : String) (rows : List TokenRow) (new : TokenRow)
    → AllDead token_id rows
    → (new.id == token_id) ≡ false
    → AllDead token_id (rows ++ (new ∷ []))
snoc-AllDead token_id [] new all h row (Memᴰ.head e) = rw e (λ i. absurd cc)
snoc-AllDead token_id [] new all h row (Memᴰ.tail m) = elim m [ ]
snoc-AllDead token_id (r ∷ rows) new all h row (Memᴰ.head e) = all row (Memᴰ.head e)
snoc-AllDead token_id (r ∷ rows) new all h row (Memᴰ.tail m) =
    snoc-AllDead token_id rows new (λ x n. all x (Memᴰ.tail n)) h row m

pub Since-AllDead :
    {hasher : Hasher} {token_id : String} {rows : List TokenRow}
    → Since hasher token_id rows
    → AllDead token_id rows
unfolding insert_token
Since-AllDead {hasher} {token_id} (revoked now rows) = revoke_token-AllDead now token_id rows
Since-AllDead {hasher} {token_id}
      (then_insert {rows} new_id salt plaintext scope label created_by other s) =
    snoc-AllDead token_id rows _ (Since-AllDead s) other
Since-AllDead {hasher} {token_id} (then_revoke {rows} now other s) =
    revoke_token_keeps now token_id other rows (Since-AllDead s)

pub true-false : ◌≡◌ {A = Bool} true false → ⊥
true-false h = cc

-- Once a token has been revoked nobody is let in as its holder, with any plaintext, whatever tokens
-- with other identifiers are inserted and whatever is revoked after it.
pub require_scope_revoked :
    (hasher : Hasher) (token_id : String) {rows : List TokenRow}
    → Since hasher token_id rows
    → (min_scope : Scope) (token : Option (List ℕ)) {result : TokenLookupResult}
    → require_scope hasher min_scope rows token ≡ ok result
    → result.token_id ≢ token_id
require_scope_revoked hasher token_id {rows} s min_scope token {result} h same =
    let (plaintext, row, from_header, m, (same_prefix, live, verified), enough, is_row) =
      require_scope-ok hasher min_scope rows token {result = result} h in
    let is_token : row.id ≡ token_id =
      sym (ap (λ (x : TokenLookupResult). x.token_id) is_row) ∙ same in
    let dead = Since-AllDead s row m (rw is_token (eq_refl token_id)) in
    absurd (true-false (sym live ∙ dead))
