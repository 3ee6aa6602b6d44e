-- ===== src/Registry/Diff/Entries.antt =====
-- What the diff of onto_platform/registry/diff.py lists under an identifier, and that staging can
-- be computed back from production and the diff.
use lingyunzhi_os_backend.Base.{
  String, ◌≡◌, refl, ap, ◌∙◌, false, Option, none, some, [], ◌∷◌, arith, ◌==◌, eq_iff,
  if◌then◌else◌, Bool-cases, inl, inr, Option-cases, true,
}
use mathlib.Core.Path.{subst}
use lingyunzhi_os_backend.Dict.{Dict, lookup, has, has-lookup}
use lingyunzhi_os_backend.Dict.Merge.{IsDict}
use lingyunzhi_os_backend.Registry.Diff.{Eq, KindDiff, only_in, changed, modified_in, diff_kind}

module _ {ℓ} {A : Type ℓ} where
  pub lookup-only_in :
      (j : String) (s p : Dict A) → lookup j (only_in s p) ≡ (if has j p then none else lookup j s)
  unfolding lookup only_in
  lookup-only_in j [] p = ground arith
  lookup-only_in j ((k, v) ∷ s) p = elim (Bool-cases (k == j)) [
    | inl e ↦ rw ((eq_iff k j).0 e) (ground (arith, lookup-only_in j s p, eq_iff j j))
    | inr e ↦ ground (arith, lookup-only_in j s p, eq_iff k j)
  ]

module _ {ℓ} {A : Type ℓ} ⦃e : Eq A⦄ where
  -- The two sides of an entry that both environments hold with different definitions.
  abbrev pub difference : Option A → Option A → Option (A × A)
  difference none o = none
  difference (some v) none = none
  difference (some v) (some w) = if e.beq v w then none else some (v, w)

  abbrev or_else : Option (A × A) → Option (A × A) → Option (A × A)
  or_else none o = o
  or_else (some d) o = some d

  or_else-none : (o : Option (A × A)) → or_else o none ≡ o
  or_else-none none = refl
  or_else-none (some d) = refl

  lookup-changed :
      (j k : String) (v : A) (o : Option A) (rest : Dict (A × A))
      → lookup j (changed k v o rest)
        ≡ (if k == j then or_else (difference (some v) o) (lookup j rest) else lookup j rest)
  unfolding lookup
  lookup-changed j k v none rest = ground arith
  lookup-changed j k v (some w) rest = ground arith

  modified_in-absent :
      (j : String) (s p : Dict A) → has j s ≡ false → lookup j (modified_in s p) ≡ none
  unfolding has modified_in lookup
  modified_in-absent j [] p h = refl
  modified_in-absent j ((k, v) ∷ s) p h =
      rw lookup-changed (ground (arith, modified_in-absent j s p))

  pub lookup-modified_in :
      (j : String) (s p : Dict A)
      → IsDict s
      → lookup j (modified_in s p) ≡ difference (lookup j s) (lookup j p)
  unfolding modified_in lookup
  lookup-modified_in j [] p u = refl
  lookup-modified_in j ((k, v) ∷ s) p u = rw lookup-changed (elim (Bool-cases (k == j)) [
    | inl same ↦ rw same (
        rw (modified_in-absent j s p (rw (← (eq_iff k j).0 same) u.0)) (
          or_else-none _
          ∙ ap (λ (i : String). difference (some v) (lookup i p)) ((eq_iff k j).0 same)))
    | inr other ↦ rw other (lookup-modified_in j s p u.1)
  ])

  -- What a reader of the diff takes to be staged under an identifier.
  abbrev pub patched : Dict A → KindDiff A → String → Option A
  patched p d j = if has j d.removed then none else elim (lookup j d.added) [
    | some v ↦ some v
    | none ↦ elim (lookup j d.modified) [ some (v, w) ↦ some v | none ↦ lookup j p ]
  ]

  -- The same entry, or two that `==` takes for the same.
  pub data Same : Option A → Option A → Type ℓ where
    identical : (o : Option A) → Same o o
    equal : {v w : A} → e.beq v w ≡ true → Same (some v) (some w)

  Same-≡ : {o o' : Option A} → o ≡ o' → Same o o'
  Same-≡ {o} h = subst (Same o) h (identical o)

  -- An entry that both environments hold.
  both-Same :
      (v w : A)
      → Same (some v) (elim (difference (some v) (some w)) [ some (x, y) ↦ some x | none ↦ some w ])
  both-Same v w = elim (Bool-cases (e.beq v w)) [
    | inl same ↦ rw same (equal same)
    | inr other ↦ rw other (identical (some v))
  ]

  patched-gone :
      (s p : Dict A) (j : String)
      → IsDict s
      → lookup j s ≡ none
      → lookup j s ≡ patched p (diff_kind s p) j
  unfolding diff_kind
  patched-gone s p j u gone = ground (
    arith,
    gone,
    has-lookup j (only_in p s),
    lookup-only_in j p s,
    lookup-only_in j s p,
    has-lookup j s,
    has-lookup j p,
    lookup-modified_in j s p u,
  )

  patched-fresh :
      (s p : Dict A) (j : String) {v : A}
      → lookup j s ≡ some v
      → lookup j p ≡ none
      → lookup j s ≡ patched p (diff_kind s p) j
  unfolding diff_kind
  patched-fresh s p j there fresh = ground (
    arith,
    has-lookup j (only_in p s),
    lookup-only_in j p s,
    lookup-only_in j s p,
    has-lookup j s,
    has-lookup j p,
  )

  patched-both :
      (s p : Dict A) (j : String) {v w : A}
      → IsDict s
      → lookup j s ≡ some v
      → lookup j p ≡ some w
      → (elim (difference (some v) (some w)) [ some (x, y) ↦ some x | none ↦ some w ])
        ≡ patched p (diff_kind s p) j
  unfolding diff_kind
  patched-both s p j {v} {w} u there old = ground (
    arith,
    has-lookup j (only_in p s),
    lookup-only_in j p s,
    lookup-only_in j s p,
    has-lookup j s,
    has-lookup j p,
    lookup-modified_in j s p u,
  )

  -- Staging can be computed back up to `==`: production, less what the diff lists as removed, with
  -- what it lists as added, and with the staging side of what it lists as modified, holds an entry
  -- under an identifier exactly when staging does, and the two are identical or `==` takes staging's
  -- for the other. Nothing is assumed of `==`.
  pub patched-diff_kind :
      (s p : Dict A) (j : String) → IsDict s → Same (lookup j s) (patched p (diff_kind s p) j)
  patched-diff_kind s p j u = elim (Option-cases (lookup j s)) [
    | inl gone ↦ Same-≡ (patched-gone s p j u gone)
    | inr (v, there) ↦ elim (Option-cases (lookup j p)) [
      | inl fresh ↦ Same-≡ (patched-fresh s p j there fresh)
      | inr (w, old) ↦
          rw there (subst (Same (some v)) (patched-both s p j u there old) (both-Same v w))
    ]
  ]
