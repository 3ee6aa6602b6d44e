-- ===== src/Connections/Masking/Index.antt =====
-- `_SENSITIVITY_ORDER`, `_build_physical_to_property_index` and `_highest` of
-- onto_platform/connections/masking.py.
pub mod Strictest
use lingyunzhi_os_backend.Base.{
  ℕ, Bool, true, List, [], ◌∷◌, ◌++◌, Option, none, some, ltb, truthy, if◌then◌else◌,
}
use lingyunzhi_os_backend.Dict.{Dict, lookup, insert, values}
use lingyunzhi_os_backend.ProtoModels.{
  Sensitivity, sensitivity_unspecified, public, internal, confidential, restricted,
  PropertyTypeDefinition, ObjectTypeDefinition, LinkTypeDefinition, OntologyRegistry,
}

-- `_SENSITIVITY_ORDER`
abbrev pub sensitivity_order : Sensitivity → ℕ
sensitivity_order sensitivity_unspecified = 0
sensitivity_order public = 1
sensitivity_order internal = 2
sensitivity_order confidential = 3
sensitivity_order restricted = 4

abbrev pub order_of : PropertyTypeDefinition → ℕ
order_of pt = sensitivity_order pt.compliance.sensitivity

abbrev pub Index : Type 0
Index = Dict PropertyTypeDefinition

-- The last test of `consider`, on what is in the index.
unfoldable pub is_stricter : PropertyTypeDefinition → Option PropertyTypeDefinition → Bool
is_stricter pt none = true
is_stricter pt (some existing) = ltb (order_of existing) (order_of pt)

unfoldable pub consider : Index → PropertyTypeDefinition → Index
consider out pt =
    if truthy pt.physical_column
    then if is_stricter pt (lookup pt.physical_column out)
      then insert pt.physical_column pt out
      else out
    else out

-- A loop that considers property types in turn.
unfoldable pub consider_all : Index → List PropertyTypeDefinition → Index
consider_all out [] = out
consider_all out (pt ∷ pts) = consider_all (consider out pt) pts

-- The property types in the order of the two nested loops.
unfoldable pub object_properties : Dict ObjectTypeDefinition → List PropertyTypeDefinition
object_properties [] = []
object_properties ((k, obj) ∷ objs) = values obj.property_types ++ object_properties objs

unfoldable pub link_properties : Dict LinkTypeDefinition → List PropertyTypeDefinition
link_properties [] = []
link_properties ((k, lt) ∷ lts) = values lt.property_types ++ link_properties lts

unfoldable pub all_properties : OntologyRegistry → List PropertyTypeDefinition
all_properties reg = object_properties reg.object_types ++ link_properties reg.link_types

-- `_build_physical_to_property_index`
unfoldable pub build_index : OntologyRegistry → Index
build_index reg = consider_all [] (all_properties reg)

-- One step of `max(real, key=…)`: the first of two wins a tie.
unfoldable pub greater : PropertyTypeDefinition → PropertyTypeDefinition → PropertyTypeDefinition
greater best p = if ltb (order_of best) (order_of p) then p else best

-- `max(real, key=…)` of a list that begins with `best`: the first of the greatest
unfoldable pub highest_from :
    PropertyTypeDefinition → List PropertyTypeDefinition → PropertyTypeDefinition
highest_from best [] = best
highest_from best (p ∷ ps) = highest_from (greater best p) ps

-- `_highest`
unfoldable pub highest : List PropertyTypeDefinition → Option PropertyTypeDefinition
highest [] = none
highest (p ∷ ps) = some (highest_from p ps)
