-- ===== src/Dict.antt =====
-- Python's `dict` with text keys: the entries in insertion order.
pub mod Merge
use lingyunzhi_os_backend.Base.{
  String, ◌≡◌, refl, Bool, true, false, ◌||◌, Option, none, some, List, [], ◌∷◌, arith, ◌==◌,
  eq_iff, if◌then◌else◌, contains,
}
use lingyunzhi_os_backend.Base.{
  contains, for_each, append-nil_split, append-nil_join, Bool-cases, inl, inr,
}

abbrev pub Dict {ℓ} : Type ℓ → Type ℓ
Dict V = List (String × V)

module _ {ℓ} {V : Type ℓ} where
  -- `d.get(k)`
  unfoldable pub lookup : String → Dict V → Option V
  lookup k [] = none
  lookup k ((j, v) ∷ d) = if j == k then some v else lookup k d

  -- `k in d`
  unfoldable pub has : String → Dict V → Bool
  has k [] = false
  has k ((j, v) ∷ d) = j == k || has k d

  -- `d[k] = v`: a key that is there keeps its place
  unfoldable pub insert : String → V → Dict V → Dict V
  insert k v [] = (k, v) ∷ []
  insert k v ((j, w) ∷ d) = if j == k then (k, v) ∷ d else (j, w) ∷ insert k v d

  -- `d.pop(k, None)`
  unfoldable pub erase : String → Dict V → Dict V
  erase k [] = []
  erase k ((j, w) ∷ d) = if j == k then erase k d else (j, w) ∷ erase k d

  -- `{**d, **e}`
  unfoldable pub merge : Dict V → Dict V → Dict V
  unfolding insert
  merge d [] = d
  merge d ((k, v) ∷ e) = merge (insert k v d) e

  -- `set(d)`
  unfoldable pub keys : Dict V → List String
  keys [] = []
  keys ((k, v) ∷ d) = k ∷ keys d

  -- `d.values()`
  unfoldable pub values : Dict V → List V
  values [] = []
  values ((k, v) ∷ d) = v ∷ values d

  pub lookup-insert :
      (j k : String) (v : V) (d : Dict V)
      → lookup j (insert k v d) ≡ (if k == j then some v else lookup j d)
  unfolding lookup insert
  lookup-insert j k v [] = refl
  lookup-insert j k v ((i, w) ∷ d) =
      ground (arith, eq_iff k j, eq_iff i k, eq_iff i j, lookup-insert j k v d)

  pub lookup-erase :
      (j k : String) (d : Dict V) → lookup j (erase k d) ≡ (if k == j then none else lookup j d)
  unfolding lookup erase
  lookup-erase j k [] = ground arith
  lookup-erase j k ((i, w) ∷ d) =
      ground (arith, eq_iff k j, eq_iff i k, eq_iff i j, lookup-erase j k d)

  pub has-erase_ne : (j k : String) (d : Dict V) → (k == j) ≡ false → has j (erase k d) ≡ has j d
  unfolding has erase
  has-erase_ne j k [] h = refl
  has-erase_ne j k ((i, w) ∷ d) h =
      ground (arith, eq_iff k j, eq_iff i k, eq_iff i j, has-erase_ne j k d h)

  -- `k in d` says exactly that `d.get(k)` finds a value.
  pub has-lookup :
      (k : String) (d : Dict V) → has k d ≡ elim (lookup k d) [ none ↦ false | some _ ↦ true ]
  unfolding has lookup
  has-lookup k [] = refl
  has-lookup k ((j, v) ∷ d) = ground (arith, has-lookup k d)

  pub contains-keys-erase :
      (r t : String) (d : Dict V)
      → (r == t) ≡ false
      → contains r (keys d) ≡ true
      → contains r (keys (erase t d)) ≡ true
  unfolding contains keys erase
  contains-keys-erase r t [] h c = c
  contains-keys-erase r t ((k, v) ∷ d) h c =
      ground (arith, eq_iff r t, eq_iff k t, eq_iff r k, contains-keys-erase r t d h)

module _ {ℓ κ} {V : Type ℓ} {B : Type κ} where
  pub for_each-erase :
      (t : String) (d : Dict V) (f : String × V → List B)
      → for_each d f ≡ []
      → for_each (erase t d) f ≡ []
  unfolding for_each erase
  for_each-erase t [] f h = refl
  for_each-erase t ((k, v) ∷ d) f h =
      let (here, later) = append-nil_split (f (k, v)) (for_each d f) h in
      elim (Bool-cases (k == t)) [
        | inl e ↦ rw e (for_each-erase t d f later)
        | inr e ↦ rw e (append-nil_join here (for_each-erase t d f later))
      ]
