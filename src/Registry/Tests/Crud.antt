-- ===== src/Registry/Tests/Crud.antt =====
-- The theorems on editing, importing and comparing registries, at the sample registry.
use lingyunzhi_os_backend.Base.{◌==◌, ◌&&◌, String, ◌≡◌, refl, [], ◌∷◌, ok, err, if◌then◌else◌}
use lingyunzhi_os_backend.Dict.{Dict}
use lingyunzhi_os_backend.ProtoModels.{ObjectTypeDefinition, OntologyRegistry, empty_registry}
use lingyunzhi_os_backend.Registry.Samples.{
  pump_rid, asset_rid, pump, with_pump, with_asset, with_both,
}
use lingyunzhi_os_backend.Registry.Checks.Refs.{Kind, check_refs, object_types, interface_types}
use lingyunzhi_os_backend.Registry.RefsScan.{find_referrers}
use lingyunzhi_os_backend.Registry.Crud.Errors.{referenced}
use lingyunzhi_os_backend.Registry.Crud.Validated.{IsClean}
use lingyunzhi_os_backend.Registry.Crud.Entities.{Entity, put, delete, entry}
use lingyunzhi_os_backend.Registry.Crud.Puts.{Replaced, put-ok}
use lingyunzhi_os_backend.Registry.Crud.Deletes.{DeleteOutcome, delete_lem, delete-check_refs}
use lingyunzhi_os_backend.Registry.Imports.{merge_mode, import_into_registry}
use lingyunzhi_os_backend.Registry.Imports.Merging.{IsRegistry, holds, import_merge-entry}
use lingyunzhi_os_backend.Registry.Diff.{Eq}
use lingyunzhi_os_backend.Registry.Diff.{diff_kind}
use lingyunzhi_os_backend.Registry.Diff.Entries.{Same, patched, patched-diff_kind}
use lingyunzhi_os_backend.Dict.{lookup}
use lingyunzhi_os_backend.Dict.Merge.{IsDict}
use lingyunzhi_os_backend.Registry.Tests.{running}

pump_stored : put empty_registry (Entity.object_type pump) [] ≡ ok with_pump
unfolding running
pump_stored = refl

put-ok_example :
    IsClean with_pump []
    × Replaced empty_registry (Entity.object_type pump) with_pump
    × (with_pump.version ≡ empty_registry.version)
put-ok_example = put-ok empty_registry (Entity.object_type pump) [] pump_stored

delete_pump : delete with_both object_types pump_rid ≡ ok with_asset
unfolding running
delete_pump = refl

no_dangling : check_refs with_both (record { connection_ids = [] }) ≡ []
unfolding running
no_dangling = refl

delete-check_refs_example : check_refs with_asset (record { connection_ids = [] }) ≡ []
delete-check_refs_example =
    delete-check_refs with_both object_types pump_rid (record { connection_ids = [] }) delete_pump
      no_dangling

delete_lem_example :
    DeleteOutcome with_both interface_types asset_rid (find_referrers with_both asset_rid)
delete_lem_example = delete_lem with_both interface_types asset_rid

asset_is_referenced :
    delete with_both interface_types asset_rid
    ≡ err (
        referenced asset_rid (
          record {
            rid = pump_rid;
            kind = "object_type";
            field = "implements_interface_type_rids";
            path =
                "object_types[ri.obj.00000000-0000-4000-8000-000000000001].implements_interface_type_rids";
          }
          ∷ []))
unfolding running
asset_is_referenced = refl

abbrev merged : OntologyRegistry
merged = record with_asset { object_types = (pump_rid, pump) ∷ [] }

merge_pump : import_into_registry with_asset with_pump merge_mode [] ≡ ok merged
unfolding running
merge_pump = refl

with_pump-IsRegistry : IsRegistry with_pump
unfolding running
with_pump-IsRegistry = record {
  unique_shared = tt;
  unique_interfaces = tt;
  unique_objects = (refl, tt);
  unique_links = tt;
  unique_actions = tt;
}

import_merge-entry_example :
    IsClean merged []
    × ((k : Kind) (j : String)
        → entry merged k j
          ≡ (if holds with_pump k j then entry with_pump k j else entry with_asset k j))
import_merge-entry_example =
    import_merge-entry with_asset with_pump [] with_pump-IsRegistry merge_pump

-- Two pumps that `==` tells apart by their descriptions.
instance abbrev object_eq : Eq ObjectTypeDefinition
object_eq = record { beq = λ a b. a.api_name == b.api_name && a.description == b.description }

abbrev old_pump : ObjectTypeDefinition
old_pump = record pump { description = "old" }

abbrev staged : Dict ObjectTypeDefinition
staged = ("a", pump) ∷ ("b", pump) ∷ []

abbrev produced : Dict ObjectTypeDefinition
produced = ("b", old_pump) ∷ ("c", pump) ∷ []

staged-IsDict : IsDict staged
unfolding running
staged-IsDict = (refl, (refl, tt))

patched-diff_kind_example :
    Same (lookup "b" staged) (patched produced (diff_kind staged produced) "b")
patched-diff_kind_example = patched-diff_kind staged produced "b" staged-IsDict
