-- ===== src/Registry/Checks/Cycles.antt =====
-- Rule 3 of onto_platform/registry/checks/interface_category.py: a depth-first search over
-- `extends`. `visit` calls itself on a parent only after it has coloured its own node, so no more
-- calls are nested than there are interfaces, plus one that finds a coloured node.
pub mod Frame
pub mod Acyclic
pub mod Quiet
pub mod Fuel
pub mod Correct
use lingyunzhi_os_backend.Base.{
  ℕ, zero, suc, ◌+◌, String, List, [], ◌∷◌, ◌++◌, ◌<>◌, Option, none, some, ◌==◌, nat_eq, length,
  if◌then◌else◌,
}
use lingyunzhi_os_backend.Dict.{Dict, lookup, has, insert}
use lingyunzhi_os_backend.ProtoModels.{InterfaceTypeDefinition}
use lingyunzhi_os_backend.Registry.Findings.{Finding, error, cycle_detected, texts}
use lingyunzhi_os_backend.Registry.Checks.Paths.{at_key}

-- The colours, and the findings that were yielded.
pub record Search : Type 0 where
  pub color : Dict ℕ
  pub found : List Finding

unfoldable pub or_white : Option ℕ → ℕ
or_white none = 0
or_white (some c) = c

-- `color.get(rid, 0)`
unfoldable pub color_of : Search → String → ℕ
color_of s rid = or_white (lookup rid s.color)

-- `stack[stack.index(rid):]`
unfoldable pub from_first : String → List String → List String
from_first rid [] = []
from_first rid (x ∷ xs) = if x == rid then x ∷ xs else from_first rid xs

unfoldable pub cycle_finding : String → List String → Finding
cycle_finding rid stack =
    let cycle = from_first rid stack ++ rid ∷ [] in
    record {
      severity = error;
      code = "INTERFACE_EXTENDS_CYCLE";
      path = at_key "interface_types" rid <> ".extends_interface_type_rids";
      message = cycle_detected cycle;
      details = ("cycle", texts cycle) ∷ [];
    }

-- `node.extends_interface_type_rids` of `node = ifaces.get(rid)`
unfoldable pub extended : Option InterfaceTypeDefinition → List String
extended none = []
extended (some node) = node.extends_interface_type_rids

-- The loop over the parents, with the call of `visit` that it makes on those that are interfaces.
unfoldable pub visit_all :
    (String → Search → Search) → Dict InterfaceTypeDefinition → List String → Search → Search
visit_all visit_one ifaces [] s = s
visit_all visit_one ifaces (parent ∷ parents) s =
    visit_all visit_one ifaces parents (if has parent ifaces then visit_one parent s else s)

unfoldable pub visit : Dict InterfaceTypeDefinition → ℕ → String → List String → Search → Search
visit ifaces zero rid stack s = s
visit ifaces (suc fuel) rid stack s =
    if nat_eq (color_of s rid) 1
    then record s { found = s.found ++ cycle_finding rid stack ∷ [] }
    else if nat_eq (color_of s rid) 2
    then s
    else let entered = record s { color = insert rid 1 s.color } in
      let visited =
        visit_all (λ parent. visit ifaces fuel parent (stack ++ rid ∷ [])) ifaces
          (extended (lookup rid ifaces)) entered in
      record visited { color = insert rid 2 visited.color }

-- `for rid in ifaces: if color.get(rid, 0) == 0: yield from visit(rid, [])`
unfoldable pub search_from :
    Dict InterfaceTypeDefinition → ℕ → Dict InterfaceTypeDefinition → Search → Search
search_from ifaces fuel [] s = s
search_from ifaces fuel ((rid, iface) ∷ rest) s =
    search_from ifaces fuel rest
      (if nat_eq (color_of s rid) 0 then visit ifaces fuel rid [] s else s)

abbrev pub start : Search
start = record { color = []; found = [] }

unfoldable pub check_cycles : Dict InterfaceTypeDefinition → List Finding
check_cycles ifaces = (search_from ifaces (length ifaces + 1) ifaces start).found
