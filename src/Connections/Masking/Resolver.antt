-- ===== src/Connections/Masking/Resolver.antt =====
-- `MaskingResolver` of onto_platform/connections/masking.py. The SQL parser sqlglot is not part of
-- the repository: what the resolver asks it is a record that the definitions take as a parameter.
pub mod Projection
use lingyunzhi_os_backend.Base.{
  String, Bool, true, false, List, [], ◌∷◌, Option, none, some, truthy, if◌then◌else◌, Result, ok,
  ◌>>=◌,
}
use lingyunzhi_os_backend.Dict.{lookup}
use lingyunzhi_os_backend.ProtoModels.{
  Sensitivity, sensitivity_unspecified, MaskingStrategy, mask_none, PropertyTypeDefinition,
  OntologyRegistry,
}
use lingyunzhi_os_backend.Connections.Masking.Index.{Index, build_index, highest}

-- `sqlglot.parse_one`, which may raise, the tests `isinstance(node, exp.…)`, and the attributes and
-- methods of a node.
pub record Sqlglot : Type 1 where
  pub Node : Type 0
  pub ParseError : Type 0
  pub parse_one : String → String → Result ParseError Node
  pub is_with : Node → Bool
  pub is_union : Node → Bool
  pub is_select : Node → Bool
  pub is_alias : Node → Bool
  pub is_column : Node → Bool
  pub this : Node → Node
  pub left : Node → Node
  pub expressions : Node → List Node
  pub find_all_columns : Node → List Node
  pub alias_or_name : Node → String
  pub name : Node → String
  pub str : Node → String

pub record ResolvedColumn : Type 0 where
  pub name : String
  pub sensitivity : Sensitivity
  pub masking : MaskingStrategy
  pub is_resolved : Bool

-- `ResolvedColumn(name=…, is_resolved=False)`
abbrev pub unresolved : String → ResolvedColumn
unresolved n = record {
  name = n;
  sensitivity = sensitivity_unspecified;
  masking = mask_none;
  is_resolved = false;
}

-- An entry that is not `None`, before the others.
unfoldable pub found :
    Option PropertyTypeDefinition → List PropertyTypeDefinition → List PropertyTypeDefinition
found none pts = pts
found (some pt) pts = pt ∷ pts

-- `[self._idx.get(c) for c in sources]`, less what is `None`
unfoldable pub entries : Index → List String → List PropertyTypeDefinition
entries idx [] = []
entries idx (c ∷ cs) = found (lookup c idx) (entries idx cs)

-- The end of `_resolve_projection`, on the winner.
unfoldable pub resolved_as : String → Option PropertyTypeDefinition → ResolvedColumn
resolved_as n none = unresolved n
resolved_as n (some winner) = record {
  name = n;
  sensitivity = winner.compliance.sensitivity;
  masking = winner.compliance.masking;
  is_resolved = true;
}

-- `x or y`
abbrev pub or_else : String → String → String
or_else x y = if truthy x then x else y

module _ (sqlglot : Sqlglot) where
  unfoldable pub names : List sqlglot.Node → List String
  names [] = []
  names (n ∷ ns) = sqlglot.name n ∷ names ns

  -- `_collect_source_columns`
  unfoldable pub collect_source_columns : sqlglot.Node → List String
  collect_source_columns node =
      if sqlglot.is_column node
      then sqlglot.name node ∷ []
      else names (sqlglot.find_all_columns node)

  -- The output name of a projection and the node under its alias.
  unfoldable pub output_name : sqlglot.Node → String
  output_name proj =
      if sqlglot.is_alias proj
      then sqlglot.alias_or_name proj
      else or_else (sqlglot.alias_or_name proj) (or_else (sqlglot.name proj) (sqlglot.str proj))

  unfoldable pub inner : sqlglot.Node → sqlglot.Node
  inner proj = if sqlglot.is_alias proj then sqlglot.this proj else proj

  -- `_resolve_projection`. Without sources there is no entry and no winner.
  unfoldable pub resolve_projection : Index → sqlglot.Node → ResolvedColumn
  resolve_projection idx proj =
      resolved_as (output_name proj) (highest (entries idx (collect_source_columns (inner proj))))

  unfoldable pub resolve_projections : Index → List sqlglot.Node → List ResolvedColumn
  resolve_projections idx [] = []
  resolve_projections idx (proj ∷ projs) =
      resolve_projection idx proj ∷ resolve_projections idx projs

  -- The outermost SELECT, under WITH and on the left of UNION.
  unfoldable pub under_with : sqlglot.Node → sqlglot.Node
  under_with parsed = if sqlglot.is_with parsed then sqlglot.this parsed else parsed

  unfoldable pub outermost : sqlglot.Node → sqlglot.Node
  outermost parsed =
      let select = under_with parsed in
      if sqlglot.is_union select then sqlglot.left select else select

  unfoldable pub columns_of : Index → sqlglot.Node → List ResolvedColumn
  columns_of idx select =
      if sqlglot.is_select select then resolve_projections idx (sqlglot.expressions select) else []

  -- `MaskingResolver(registry, dialect=…).resolve(sql)`
  unfoldable pub resolve :
      OntologyRegistry → String → String → Result sqlglot.ParseError (List ResolvedColumn)
  resolve registry dialect sql = sqlglot.parse_one sql dialect >>= λ parsed.
      ok (columns_of (build_index registry) (outermost parsed))
