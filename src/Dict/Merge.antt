-- ===== src/Dict/Merge.antt =====
-- `{**d, **e}` of two dictionaries.
use lingyunzhi_os_backend.Base.{
  String, ◌≡◌, refl, false, ◌||◌, [], ◌∷◌, arith, ◌==◌, eq_iff, if◌then◌else◌,
}
use lingyunzhi_os_backend.Dict.{Dict, lookup, has, insert, merge, lookup-insert}

module _ {ℓ} {V : Type ℓ} where
  -- No key twice, as in every Python dictionary.
  abbrev pub IsDict : Dict V → Type 0
  IsDict [] = Unit
  IsDict ((k, v) ∷ d) = (has k d ≡ false) × IsDict d

  pub has-insert : (j k : String) (v : V) (d : Dict V) → has j (insert k v d) ≡ (k == j || has j d)
  unfolding has insert
  has-insert j k v [] = refl
  has-insert j k v ((i, w) ∷ d) =
      ground (arith, eq_iff k j, eq_iff i k, eq_iff i j, has-insert j k v d)

  pub lookup-merge_absent :
      (j : String) (d e : Dict V) → has j e ≡ false → lookup j (merge d e) ≡ lookup j d
  unfolding merge has
  lookup-merge_absent j d [] h = refl
  lookup-merge_absent j d ((k, v) ∷ e) h =
      ground (arith, lookup-merge_absent j (insert k v d) e, lookup-insert j k v d)

  -- The right side wins where both have a key.
  pub lookup-merge :
      (j : String) (d e : Dict V)
      → IsDict e
      → lookup j (merge d e) ≡ (if has j e then lookup j e else lookup j d)
  unfolding merge has lookup
  lookup-merge j d [] u = refl
  lookup-merge j d ((k, v) ∷ e) u = ground (
    arith,
    eq_iff k j,
    lookup-merge j (insert k v d) e u.1,
    lookup-insert j k v d,
    lookup-merge_absent j (insert k v d) e,
  )
