-- ===== src/Connections/Masking/Resolver/Projection.antt =====
-- What a projection of a query is masked by, against every property type of the registry that the
-- columns it reads may stand for (onto_platform/connections/masking.py).
use lingyunzhi_os_backend.Base.{
  String, ◌≡◌, ◌≤◌, refl, inl, inr, true, List, [], ◌∷◌, some, arith, ltb, truthy, Bool-cases,
  Option-cases, sym,
}
use mathlib.Core.List.{Memᴰ}
use lingyunzhi_os_backend.Dict.{lookup}
use lingyunzhi_os_backend.ProtoModels.{PropertyTypeDefinition, OntologyRegistry}
use lingyunzhi_os_backend.Connections.Masking.Index.{
  Index, order_of, all_properties, build_index, highest, highest_from, greater,
}
use lingyunzhi_os_backend.Connections.Masking.Index.Strictest.{
  build_index-strictest, build_index-origin,
}
use lingyunzhi_os_backend.Connections.Masking.Resolver.{
  Sqlglot, ResolvedColumn, entries, found, resolved_as, collect_source_columns, inner, output_name,
  resolve_projection,
}

greater-best : (best p : PropertyTypeDefinition) → order_of best ≤ order_of (greater best p)
unfolding greater
greater-best best p = elim (Bool-cases (ltb (order_of best) (order_of p))) [
  | inl less ↦ rw less (ground arith)
  | inr not_less ↦ rw not_less (omega arith)
]

greater-other : (best p : PropertyTypeDefinition) → order_of p ≤ order_of (greater best p)
unfolding greater
greater-other best p = elim (Bool-cases (ltb (order_of best) (order_of p))) [
  | inl less ↦ rw less (omega arith)
  | inr not_less ↦ rw not_less (ground arith)
]

highest_from-best :
    (best : PropertyTypeDefinition) (ps : List PropertyTypeDefinition)
    → order_of best ≤ order_of (highest_from best ps)
unfolding highest_from
highest_from-best best [] = omega arith
highest_from-best best (p ∷ ps) =
    omega (arith, greater-best best p, highest_from-best (greater best p) ps)

highest_from-mem :
    (best : PropertyTypeDefinition) (ps : List PropertyTypeDefinition) (q : PropertyTypeDefinition)
    → Memᴰ q ps
    → order_of q ≤ order_of (highest_from best ps)
unfolding highest_from
highest_from-mem best [] q m = elim m [ ]
highest_from-mem best (p ∷ ps) q (Memᴰ.head e) =
    rw e (omega (arith, greater-other best p, highest_from-best (greater best p) ps))
highest_from-mem best (p ∷ ps) q (Memᴰ.tail m) = highest_from-mem (greater best p) ps q m

-- What `resolved_as` says of a winner that is one of some property types and at least as sensitive
-- as a property type.
abbrev pub AtLeast :
    (PropertyTypeDefinition → Type 0) → PropertyTypeDefinition → ResolvedColumn → Type 0
AtLeast P q rc =
    (rc.is_resolved ≡ true)
    × ((w : PropertyTypeDefinition) × P w
        × (rc.sensitivity ≡ w.compliance.sensitivity)
        × (rc.masking ≡ w.compliance.masking)
        × (order_of q ≤ order_of w))

-- A property type of the registry that is stored in one of the columns.
abbrev pub StoredIn : OntologyRegistry → List String → PropertyTypeDefinition → Type 0
StoredIn reg columns w = Memᴰ w (all_properties reg) × Memᴰ w.physical_column columns

greater-either :
    (P : PropertyTypeDefinition → Type 0) (best p : PropertyTypeDefinition)
    → P best
    → P p
    → P (greater best p)
unfolding greater
greater-either P best p hb hp = elim (Bool-cases (ltb (order_of best) (order_of p))) [
  | inl less ↦ rw less hp
  | inr not_less ↦ rw not_less hb
]

highest_from-one :
    (P : PropertyTypeDefinition → Type 0) (best : PropertyTypeDefinition)
    (ps : List PropertyTypeDefinition)
    → P best
    → ((p : PropertyTypeDefinition) → Memᴰ p ps → P p)
    → P (highest_from best ps)
unfolding highest_from
highest_from-one P best [] hb all = hb
highest_from-one P best (p ∷ ps) hb all =
    highest_from-one P (greater best p) ps (greater-either P best p hb (all p (Memᴰ.head refl)))
      (λ q m. all q (Memᴰ.tail m))

resolved_as-highest :
    (P : PropertyTypeDefinition → Type 0) (n : String) (ps : List PropertyTypeDefinition)
    (q : PropertyTypeDefinition)
    → ((p : PropertyTypeDefinition) → Memᴰ p ps → P p)
    → Memᴰ q ps
    → AtLeast P q (resolved_as n (highest ps))
unfolding highest resolved_as
resolved_as-highest P n [] q all m = elim m [ ]
resolved_as-highest P n (p ∷ ps) q all (Memᴰ.head e) =
    let one = highest_from-one P p ps (all p (Memᴰ.head refl)) (λ x i. all x (Memᴰ.tail i)) in
    (refl, (highest_from p ps, one, refl, refl, rw e (highest_from-best p ps)))
resolved_as-highest P n (p ∷ ps) q all (Memᴰ.tail m) =
    let one = highest_from-one P p ps (all p (Memᴰ.head refl)) (λ x i. all x (Memᴰ.tail i)) in
    (refl, (highest_from p ps, one, refl, refl, highest_from-mem p ps q m))

deeper :
    (reg : OntologyRegistry) (c : String) (cs : List String) (q : PropertyTypeDefinition)
    → StoredIn reg cs q
    → StoredIn reg (c ∷ cs) q
deeper reg c cs q (listed, read) = (listed, Memᴰ.tail read)

first-StoredIn :
    (reg : OntologyRegistry) (c : String) (cs : List String) (p q : PropertyTypeDefinition)
    (ps : List PropertyTypeDefinition)
    → lookup c (build_index reg) ≡ some p
    → (Memᴰ q ps → StoredIn reg cs q)
    → Memᴰ q (p ∷ ps)
    → StoredIn reg (c ∷ cs) q
first-StoredIn reg c cs p q ps present rest (Memᴰ.head e) =
    let (listed, stored) = build_index-origin reg c p present in rw e (listed, Memᴰ.head stored)
first-StoredIn reg c cs p q ps present rest (Memᴰ.tail i) = deeper reg c cs q (rest i)

-- The entries of the index of a registry are stored in the columns they were looked up by.
entries-StoredIn :
    (reg : OntologyRegistry) (cs : List String) (q : PropertyTypeDefinition)
    → Memᴰ q (entries (build_index reg) cs)
    → StoredIn reg cs q
unfolding entries found
entries-StoredIn reg [] q m = elim m [ ]
entries-StoredIn reg (c ∷ cs) q m = elim (Option-cases (lookup c (build_index reg))) [
  | inl absent ↦ deeper reg c cs q (entries-StoredIn reg cs q (rw absent at m))
  | inr (p, present) ↦
      first-StoredIn reg c cs p q (entries (build_index reg) cs) present (entries-StoredIn reg cs q)
        (rw present at m)
]

entries-mem :
    (idx : Index) (cs : List String) (c : String) (q : PropertyTypeDefinition)
    → Memᴰ c cs
    → lookup c idx ≡ some q
    → Memᴰ q (entries idx cs)
unfolding entries found
entries-mem idx [] c q m there = elim m [ ]
entries-mem idx (d ∷ cs) c q (Memᴰ.head e) there = rw (sym e) (rw there (Memᴰ.head refl))
entries-mem idx (d ∷ cs) c q (Memᴰ.tail m) there = elim (Option-cases (lookup d idx)) [
  | inl absent ↦ rw absent (entries-mem idx cs c q m there)
  | inr (p, present) ↦ rw present (Memᴰ.tail (entries-mem idx cs c q m there))
]

-- A projection that reads a column is resolved when some property type of the registry is stored in
-- that column, and its masking strategy and sensitivity are those of one property type of the
-- registry that is itself stored in a column the projection reads, and is at least as sensitive as
-- every property type stored in such a column.
pub resolve_projection-strictest :
    (sqlglot : Sqlglot) (reg : OntologyRegistry) (proj : sqlglot.Node) (pt : PropertyTypeDefinition)
    → Memᴰ pt (all_properties reg)
    → truthy pt.physical_column ≡ true
    → Memᴰ pt.physical_column (collect_source_columns sqlglot (inner sqlglot proj))
    → AtLeast
        (StoredIn reg (collect_source_columns sqlglot (inner sqlglot proj)))
        pt
        (resolve_projection sqlglot (build_index reg) proj)
unfolding resolve_projection
resolve_projection-strictest sqlglot reg proj pt m bound reads =
    let idx = build_index reg in
    let sources = collect_source_columns sqlglot (inner sqlglot proj) in
    let (q, there, stricter) = build_index-strictest reg pt m bound in
    let (resolved, (w, stored, same_sensitivity, same_masking, at_least)) =
      resolved_as-highest (StoredIn reg sources) (output_name sqlglot proj) (entries idx sources) q
        (entries-StoredIn reg sources) (entries-mem idx sources pt.physical_column q reads there) in
    (resolved, (w, stored, same_sensitivity, same_masking, omega arith))
