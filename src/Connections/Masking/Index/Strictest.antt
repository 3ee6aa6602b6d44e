-- ===== src/Connections/Masking/Index/Strictest.antt =====
-- The index of onto_platform/connections/masking.py holds, for every physical column, a property
-- type that is at least as sensitive as every property type that uses the column.
use lingyunzhi_os_backend.Base.{
  ℕ, String, ◌≡◌, ◌≤◌, refl, inl, inr, true, List, [], ◌∷◌, some, arith, ◌==◌, eq_iff, eq_refl, ltb,
  truthy, Bool-cases, Option-cases, ap, sym, Option, if◌then◌else◌,
}
use mathlib.Core.Path.{subst}
use mathlib.Core.List.{Memᴰ}
use lingyunzhi_os_backend.Dict.{lookup, insert, lookup-insert}
use lingyunzhi_os_backend.ProtoModels.{PropertyTypeDefinition, OntologyRegistry}
use lingyunzhi_os_backend.Connections.Masking.Index.{
  Index, order_of, is_stricter, consider, consider_all, all_properties, build_index,
}

some_injective {ℓ} : {A : Type ℓ} {a b : A} → ◌≡◌ {A = Option A} (some a) (some b) → a ≡ b
some_injective h = cc

-- The column has an entry of at least that order.
abbrev pub Covers : Index → String → ℕ → Type 0
Covers idx column n = (q : PropertyTypeDefinition) × (lookup column idx ≡ some q) × (n ≤ order_of q)

-- An entry that replaces another one is stricter.
replaced-Covers :
    (idx : Index) (pt q : PropertyTypeDefinition) (column : String) (n : ℕ)
    → is_stricter pt (lookup pt.physical_column idx) ≡ true
    → lookup column idx ≡ some q
    → n ≤ order_of q
    → Covers (insert pt.physical_column pt idx) column n
unfolding is_stricter
replaced-Covers idx pt q column n stricter there le =
    elim (Bool-cases (pt.physical_column == column)) [
      | inl same ↦ (
        pt,
        rw lookup-insert (rw same refl),
        ground
            (arith, ap (λ (c : String). lookup c idx) ((eq_iff pt.physical_column column).0 same)),
      )
      | inr other ↦ (q, rw lookup-insert (rw other there), le)
    ]

consider-Covers :
    (idx : Index) (pt : PropertyTypeDefinition) (column : String) (n : ℕ)
    → Covers idx column n
    → Covers (consider idx pt) column n
unfolding consider
consider-Covers idx pt column n (q, there, le) = elim (Bool-cases (truthy pt.physical_column)) [
  | inr unbound ↦ rw unbound (q, there, le)
  | inl bound ↦ rw bound (elim (Bool-cases (is_stricter pt (lookup pt.physical_column idx))) [
    | inl stricter ↦ rw stricter (replaced-Covers idx pt q column n stricter there le)
    | inr weaker ↦ rw weaker (q, there, le)
  ])
]

consider_self :
    (idx : Index) (pt : PropertyTypeDefinition)
    → truthy pt.physical_column ≡ true
    → Covers (consider idx pt) pt.physical_column (order_of pt)
unfolding consider is_stricter
consider_self idx pt bound = rw bound (elim (Option-cases (lookup pt.physical_column idx)) [
  | inl fresh ↦ rw fresh (pt, rw lookup-insert (rw eq_refl refl), omega arith)
  | inr (q, there) ↦ rw there (elim (Bool-cases (ltb (order_of q) (order_of pt))) [
    | inl stricter ↦ rw stricter (pt, rw lookup-insert (rw eq_refl refl), omega arith)
    | inr weaker ↦ rw weaker (q, there, ground arith)
  ])
])

consider_all-Covers :
    (idx : Index) (pts : List PropertyTypeDefinition) (column : String) (n : ℕ)
    → Covers idx column n
    → Covers (consider_all idx pts) column n
unfolding consider_all
consider_all-Covers idx [] column n c = c
consider_all-Covers idx (pt ∷ pts) column n c =
    consider_all-Covers (consider idx pt) pts column n (consider-Covers idx pt column n c)

consider_all-mem :
    (idx : Index) (pts : List PropertyTypeDefinition) (pt : PropertyTypeDefinition)
    → Memᴰ pt pts
    → truthy pt.physical_column ≡ true
    → Covers (consider_all idx pts) pt.physical_column (order_of pt)
unfolding consider_all
consider_all-mem idx [] pt m bound = elim m [ ]
consider_all-mem idx (q ∷ pts) pt (Memᴰ.head e) bound = rw (sym e) (
    consider_all-Covers (consider idx pt) pts pt.physical_column (order_of pt)
      (consider_self idx pt bound))
consider_all-mem idx (q ∷ pts) pt (Memᴰ.tail m) bound =
    consider_all-mem (consider idx q) pts pt m bound

-- Where the entries of the index come from: `P` holds of what was there and of what is considered.
consider-origin :
    (P : String → PropertyTypeDefinition → Type 0) (idx : Index) (pt : PropertyTypeDefinition)
    → ((c : String) (q : PropertyTypeDefinition) → lookup c idx ≡ some q → P c q)
    → P pt.physical_column pt
    → (c : String) (q : PropertyTypeDefinition) → lookup c (consider idx pt) ≡ some q
    → P c q
unfolding consider
consider-origin P idx pt old here c q there = elim (Bool-cases (truthy pt.physical_column)) [
  | inr unbound ↦ old c q (rw unbound at there)
  | inl bound ↦ elim (Bool-cases (is_stricter pt (lookup pt.physical_column idx))) [
    | inr weaker ↦ old c q (rw weaker at (rw bound at there))
    | inl stricter ↦ inserted (rw lookup-insert at (rw stricter at (rw bound at there)))
  ]
]
  where
    inserted : (if pt.physical_column == c then some pt else lookup c idx) ≡ some q → P c q
    inserted h = elim (Bool-cases (pt.physical_column == c)) [
      | inl same ↦
          subst (λ x. P x q) ((eq_iff pt.physical_column c).0 same)
            (subst (P pt.physical_column) (some_injective (rw same at h)) here)
      | inr other ↦ old c q (rw other at h)
    ]

consider_all-origin :
    (P : String → PropertyTypeDefinition → Type 0) (idx : Index) (pts : List PropertyTypeDefinition)
    → ((c : String) (q : PropertyTypeDefinition) → lookup c idx ≡ some q → P c q)
    → ((pt : PropertyTypeDefinition) → Memᴰ pt pts → P pt.physical_column pt)
    → (c : String) (q : PropertyTypeDefinition) → lookup c (consider_all idx pts) ≡ some q
    → P c q
unfolding consider_all
consider_all-origin P idx [] old all c q there = old c q there
consider_all-origin P idx (pt ∷ pts) old all c q there =
    consider_all-origin P (consider idx pt) pts
      (consider-origin P idx pt old (all pt (Memᴰ.head refl))) (λ p m. all p (Memᴰ.tail m)) c q
      there

-- What the index holds under a column is a property type of the registry that is stored there.
pub build_index-origin :
    (reg : OntologyRegistry) (c : String) (q : PropertyTypeDefinition)
    → lookup c (build_index reg) ≡ some q
    → Memᴰ q (all_properties reg) × (q.physical_column ≡ c)
unfolding build_index lookup
build_index-origin reg =
    consider_all-origin (λ c q. Memᴰ q (all_properties reg) × (q.physical_column ≡ c)) []
      (all_properties reg) (λ c q h. absurd cc) (λ pt m. (m, refl))

-- Every property type of the registry with a physical column is covered: the index holds, under
-- that column, a property type that is at least as sensitive.
pub build_index-strictest :
    (reg : OntologyRegistry) (pt : PropertyTypeDefinition)
    → Memᴰ pt (all_properties reg)
    → truthy pt.physical_column ≡ true
    → (q : PropertyTypeDefinition) × (lookup pt.physical_column (build_index reg) ≡ some q)
      × (order_of pt ≤ order_of q)
unfolding build_index
build_index-strictest reg pt m bound = consider_all-mem [] (all_properties reg) pt m bound
