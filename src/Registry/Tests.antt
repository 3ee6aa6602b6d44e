-- ===== src/Registry/Tests.antt =====
-- Runs of the code on the sample registry, and the theorems at these inputs.
mod Crud
mod Cycles
mod Lifecycle
use lingyunzhi_os_backend.Base.{for_each, select, contains, truthy}
use lingyunzhi_os_backend.Dict.{lookup, has, insert, erase, merge, keys}
use lingyunzhi_os_backend.ProtoModels.{same_data_type, same_category}
use lingyunzhi_os_backend.Registry.Findings.{errors}
use lingyunzhi_os_backend.Registry.Checks.Paths.{at_key, decimal, sorted_set}
use lingyunzhi_os_backend.Registry.Checks.Structural.{
  check_structural, check_names, check_rid, check_rid_kind, check_api_name, check_property_types,
}
use lingyunzhi_os_backend.Registry.Checks.Structural.Patterns.{match_rid, match_api_name}
use lingyunzhi_os_backend.Registry.Checks.Refs.{
  check_refs, check_refs_in, pools, resolves, missing, check_ref, ref_not_found, local_rids,
  check_primary_key, check_inherits, check_object, check_link, check_interface, check_parameter,
  check_parameters, check_action,
}
use lingyunzhi_os_backend.Registry.Checks.InterfaceCategory.{
  check_interface_category, check_category, check_shape, check_parent, mismatch_constraint,
  mismatch_requirements,
}
use lingyunzhi_os_backend.Registry.Checks.Cycles.{
  check_cycles, search_from, visit, visit_all, color_of, or_white, cycle_finding, from_first,
  extended,
}
use lingyunzhi_os_backend.Registry.Checks.PropertyBacking.{
  check_property_backing, check_one, check_columns, check_inherited,
}
use lingyunzhi_os_backend.Registry.Checks.AssetMapping.{
  check_asset_mapping, check_mapping, is_empty,
}
use lingyunzhi_os_backend.Registry.Checks.CrossProperty.{
  check_cross_property, check_entity, check_rules, check_rule, api_names, find_refs,
}
use lingyunzhi_os_backend.Registry.Validator.{validate, has_errors, checkers}
use lingyunzhi_os_backend.Registry.RefsScan.{
  find_referrers, refs_object, refs_object_property, refs_inherit, refs_link, refs_interface,
  refs_parameter, refs_parameters, refs_action,
}
use lingyunzhi_os_backend.Registry.Crud.{
  replace_map, raise_if_any, validated, refuse_if_any, unless_referenced, put_shared_property_type,
  put_interface_type, put_object_type, put_link_type, put_action_type, delete_shared_property_type,
  delete_interface_type, delete_object_type, delete_link_type, delete_action_type, bound,
  set_asset_mapping,
}
use lingyunzhi_os_backend.Registry.Imports.{combine, import_into_registry}
use lingyunzhi_os_backend.Registry.Store.{load, save}
use lingyunzhi_os_backend.Registry.Lifecycle.{
  promote_among, revert_among, undo_among, promote_staging_to_production,
  revert_staging_to_production, undo_promote,
}

-- Unfolding this unfolds the validator and the operations on the registry.
unfoldable pub running : Unit {0}
unfolding for_each select contains truthy lookup has insert erase merge keys same_data_type
    same_category errors at_key decimal sorted_set check_structural check_names check_rid
    check_rid_kind check_api_name check_property_types match_rid match_api_name check_refs
    check_refs_in pools resolves missing check_ref ref_not_found local_rids check_primary_key
    check_inherits check_object check_link check_interface check_parameter check_parameters
    check_action check_interface_category check_category check_shape check_parent
    mismatch_constraint mismatch_requirements check_cycles search_from visit visit_all color_of
    or_white cycle_finding from_first extended check_property_backing check_one check_columns
    check_inherited check_asset_mapping check_mapping is_empty check_cross_property check_entity
    check_rules check_rule api_names find_refs validate has_errors checkers find_referrers
    refs_object refs_object_property refs_inherit refs_link refs_interface refs_parameter
    refs_parameters refs_action replace_map raise_if_any validated refuse_if_any unless_referenced
    put_shared_property_type put_interface_type put_object_type put_link_type put_action_type
    delete_shared_property_type delete_interface_type delete_object_type delete_link_type
    delete_action_type bound set_asset_mapping combine import_into_registry load save promote_among
    revert_among undo_among promote_staging_to_production revert_staging_to_production undo_promote
running = tt
