-- ===== src/Access/Authorised.antt =====
-- Whom `require_scope` of onto_platform/auth.py lets in.
use lingyunzhi_os_backend.Base.{
  ℕ, ◌≡◌, ◌≤◌, refl, sym, ◌∙◌, ap, inl, inr, Bool, true, false, ◌&&◌, List, [], ◌∷◌, Option, none,
  some, Result, ok, err, ok_injective, arith, Bool-cases, ltb, if◌then◌else◌,
}
use mathlib.Core.List.{Memᴰ}
use mathlib.Core.Path.{subst}
use mathlib.Core.Option.{some-injective}
use lingyunzhi_os_backend.Access.{
  Scope, scope_value, TokenRow, TokenLookupResult, Denied, forbidden, same_text, prefix_of, is_live,
  candidates, result_of, Hasher, first_verified, lookup_token, allowed, require_scope,
}

-- A row that a plaintext opens: it is not revoked, has the prefix and verifies.
abbrev pub Opens : Hasher → List ℕ → TokenRow → Type 0
Opens hasher plaintext row =
    (same_text row.token_prefix (prefix_of plaintext) ≡ true)
    × (is_live row.revoked_at ≡ true)
    × (hasher.verify row.token_hash plaintext ≡ true)

-- A candidate row: it is in the table, has the prefix and is not revoked.
abbrev Candidate : List ℕ → List TokenRow → TokenRow → Type 0
Candidate p rows row =
    Memᴰ row rows × (same_text row.token_prefix p ≡ true) × (is_live row.revoked_at ≡ true)

later-Candidate :
    (p : List ℕ) (r : TokenRow) (rows : List TokenRow) (row : TokenRow)
    → Candidate p rows row
    → Candidate p (r ∷ rows) row
later-Candidate p r rows row (m, same, live) = (Memᴰ.tail m, same, live)

both : (a b : Bool) → (a && b) ≡ true → (a ≡ true) × (b ≡ true)
both true true h = (refl, refl)
both true false h = absurd cc
both false b h = absurd cc

kept-Candidate :
    (p : List ℕ) (r : TokenRow) (rows rest : List TokenRow) (row : TokenRow)
    → (same_text r.token_prefix p && is_live r.revoked_at) ≡ true
    → (Memᴰ row rest → Candidate p rows row)
    → Memᴰ row (r ∷ rest)
    → Candidate p (r ∷ rows) row
kept-Candidate p r rows rest row hit later (Memᴰ.head e) =
    let (same, live) = both (same_text r.token_prefix p) (is_live r.revoked_at) hit in
    (Memᴰ.head e, rw e same, rw e live)
kept-Candidate p r rows rest row hit later (Memᴰ.tail m) = later-Candidate p r rows row (later m)

candidates-Candidate :
    (p : List ℕ) (rows : List TokenRow) (row : TokenRow)
    → Memᴰ row (candidates p rows)
    → Candidate p rows row
unfolding candidates
candidates-Candidate p [] row m = elim m [ ]
candidates-Candidate p (r ∷ rows) row m =
    elim (Bool-cases (same_text r.token_prefix p && is_live r.revoked_at)) [
      | inl hit ↦
          kept-Candidate p r rows (candidates p rows) row hit (candidates-Candidate p rows row)
            (subst (Memᴰ row) (rw hit refl) m)
      | inr no_match ↦
          later-Candidate p r rows row
            (candidates-Candidate p rows row (subst (Memᴰ row) (rw no_match refl) m))
    ]

if_ok :
    (b : Bool) (e : Denied) (r result : TokenLookupResult)
    → ◌≡◌ {A = Result Denied TokenLookupResult} (if b then err e else ok r) (ok result)
    → (b ≡ false) × (r ≡ result)
if_ok true e r result h = absurd cc
if_ok false e r result h = (refl, ok_injective h)

module _ (hasher : Hasher) where
  abbrev Found : List ℕ → List TokenRow → TokenLookupResult → Type 0
  Found plaintext rows result =
      (row : TokenRow) × Memᴰ row rows
      × (hasher.verify row.token_hash plaintext ≡ true)
      × (result_of row ≡ result)

  first_verified-Found :
      (plaintext : List ℕ) (rows : List TokenRow) (result : TokenLookupResult)
      → first_verified hasher plaintext rows ≡ some result
      → Found plaintext rows result
  unfolding first_verified
  first_verified-Found plaintext [] result h = absurd cc
  first_verified-Found plaintext (row ∷ rows) result h =
      elim (Bool-cases (hasher.verify row.token_hash plaintext)) [
        | inl hit ↦ (
          row,
          Memᴰ.head refl,
          hit,
          some-injective (result_of row) result (sym (rw hit refl) ∙ h),
        )
        | inr no_match ↦
            let (r, m, v, e) =
              first_verified-Found plaintext rows result (sym (rw no_match refl) ∙ h) in
            (r, Memᴰ.tail m, v, e)
      ]

  pub allowed-ok :
      (min_scope : Scope) (found : Option TokenLookupResult) {result : TokenLookupResult}
      → allowed min_scope found ≡ ok result
      → (found ≡ some result) × (scope_value min_scope ≤ scope_value result.scope)
  unfolding allowed
  allowed-ok min_scope none h = absurd cc
  allowed-ok min_scope (some r) {result} h =
      let (enough, same) =
        if_ok (ltb (scope_value r.scope) (scope_value min_scope)) (forbidden min_scope) r result
          h in
      (ap some same, rw (sym same) (ground arith))

  -- Whoever is let in holds the plaintext of a token that is in the table, is not revoked and has at
  -- least the scope that is asked for, and is taken for its holder.
  pub require_scope-ok :
      (min_scope : Scope) (rows : List TokenRow) (token : Option (List ℕ))
      {result : TokenLookupResult}
      → require_scope hasher min_scope rows token ≡ ok result
      → (plaintext : List ℕ) × (row : TokenRow) × (token ≡ some plaintext)
        × Memᴰ row rows
        × Opens hasher plaintext row
        × (scope_value min_scope ≤ scope_value row.scope)
        × (result ≡ result_of row)
  unfolding require_scope allowed lookup_token
  require_scope-ok min_scope rows none h = absurd cc
  require_scope-ok min_scope rows (some plaintext) {result} h =
      let (there, enough) =
        allowed-ok min_scope (lookup_token hasher rows plaintext) {result = result} h in
      let (row, m, verified, same) =
        first_verified-Found plaintext (candidates (prefix_of plaintext) rows) result there in
      let (in_table, same_prefix, live) = candidates-Candidate (prefix_of plaintext) rows row m in
      (
        plaintext,
        row,
        refl,
        in_table,
        (same_prefix, live, verified),
        subst (λ (x : TokenLookupResult). scope_value min_scope ≤ scope_value x.scope) (sym same)
            enough,
        sym same,
      )
