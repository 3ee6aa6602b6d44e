-- ===== src/Ingestion/Tools.antt =====
-- `dispatch_agent_call` of onto_platform/ingestion/tools.py, through ingestion/working_ops.py. The
-- working registry of ingestion/working_registry.py is the registry that a call takes and, where
-- `replace` is reached, the one that it returns: `snapshot` and `from_registry` copy it.
use lingyunzhi_os_backend.Base.{String, List, Result, ok, err, ◌>>=◌, ◌==◌, if◌then◌else◌}
use lingyunzhi_os_backend.ProtoModels.{
  SharedPropertyTypeDefinition, InterfaceTypeDefinition, ObjectTypeDefinition, LinkTypeDefinition,
  ActionTypeDefinition, AssetMapping, OntologyRegistry,
}
use lingyunzhi_os_backend.Registry.Findings.{Finding}
use lingyunzhi_os_backend.Registry.Validator.{validate}
use lingyunzhi_os_backend.Registry.Crud.Errors.{CrudError, Crud}
use lingyunzhi_os_backend.Registry.Crud.{
  put_shared_property_type, put_interface_type, put_object_type, put_link_type, put_action_type,
  delete_shared_property_type, delete_interface_type, delete_object_type, delete_link_type,
  delete_action_type, set_asset_mapping,
}
use lingyunzhi_os_backend.Registry.Imports.{ImportMode, import_into_registry}

-- The arguments of a call as the code reads them: each is the value that Pydantic makes of the JSON
-- under a key, or what is raised when the key is missing or Pydantic refuses the value.
pub record Arguments {ℓ} (Raised : Type ℓ) : Type ℓ where
  pub shared_definition : Result Raised SharedPropertyTypeDefinition
  pub interface_definition : Result Raised InterfaceTypeDefinition
  pub object_definition : Result Raised ObjectTypeDefinition
  pub link_definition : Result Raised LinkTypeDefinition
  pub action_definition : Result Raised ActionTypeDefinition
  pub rid : Result Raised String
  pub asset_mapping : Result Raised AssetMapping
  pub registry : Result Raised OntologyRegistry
  pub mode : Result Raised ImportMode

-- What a call returns: `{"ok": True}` or the findings of the validator.
pub data Answer : Type 0 where
  done : Answer
  findings : List Finding → Answer

-- What a call raises.
pub data AgentError {ℓ} (Raised : Type ℓ) : Type ℓ where
  -- `AgentToolError`
  unknown_tool : String → AgentError Raised
  invalid : Raised → AgentError Raised
  refused : CrudError → AgentError Raised

-- A new working registry and the answer.
pub record Called : Type 0 where
  pub working : OntologyRegistry
  pub answer : Answer

module _ {ℓ} {Raised : Type ℓ} where
  unfoldable pub argument {κ} : {A : Type κ} → Result Raised A → Result (AgentError Raised) A
  argument (ok a) = ok a
  argument (err e) = err (invalid e)

  -- `wr.replace(…)` and `return {"ok": True}`
  unfoldable pub replaced : Crud OntologyRegistry → Result (AgentError Raised) Called
  replaced (ok new) = ok (record { working = new; answer = done })
  replaced (err e) = err (refused e)

  unfoldable pub put_tool {κ} :
      {D : Type κ}
      → (OntologyRegistry → D → List String → Crud OntologyRegistry)
      → OntologyRegistry
      → Result Raised D
      → List String
      → Result (AgentError Raised) Called
  put_tool put wr definition connection_ids =
      argument definition >>= λ defn. replaced (put wr defn connection_ids)

  unfoldable pub delete_tool :
      (OntologyRegistry → String → Crud OntologyRegistry)
      → OntologyRegistry
      → Result Raised String
      → Result (AgentError Raised) Called
  delete_tool delete wr rid = argument rid >>= λ r. replaced (delete wr r)

  unfoldable pub asset_tool :
      OntologyRegistry → Arguments Raised → List String → Result (AgentError Raised) Called
  asset_tool wr args connection_ids = argument args.rid >>= λ rid.
      argument args.asset_mapping >>= λ am. replaced (set_asset_mapping wr rid am connection_ids)

  unfoldable pub import_tool :
      OntologyRegistry → Arguments Raised → List String → Result (AgentError Raised) Called
  import_tool wr args connection_ids = argument args.registry >>= λ incoming.
      argument args.mode >>= λ mode. replaced (import_into_registry wr incoming mode connection_ids)

  unfoldable pub dispatch_agent_call :
      OntologyRegistry → String → Arguments Raised → List String → Result (AgentError Raised) Called
  dispatch_agent_call wr name args ids =
      if name == "working_put_shared_property_type"
      then put_tool put_shared_property_type wr args.shared_definition ids
      else if name == "working_put_interface_type"
      then put_tool put_interface_type wr args.interface_definition ids
      else if name == "working_put_object_type"
      then put_tool put_object_type wr args.object_definition ids
      else if name == "working_put_link_type"
      then put_tool put_link_type wr args.link_definition ids
      else if name == "working_put_action_type"
      then put_tool put_action_type wr args.action_definition ids
      else if name == "working_delete_shared_property_type"
      then delete_tool delete_shared_property_type wr args.rid
      else if name == "working_delete_interface_type"
      then delete_tool delete_interface_type wr args.rid
      else if name == "working_delete_object_type"
      then delete_tool delete_object_type wr args.rid
      else if name == "working_delete_link_type"
      then delete_tool delete_link_type wr args.rid
      else if name == "working_delete_action_type"
      then delete_tool delete_action_type wr args.rid
      else if name == "working_set_asset_mapping"
      then asset_tool wr args ids
      else if name == "working_import"
      then import_tool wr args ids
      else if name == "working_validate"
      then ok (record { working = wr; answer = findings (validate wr ids) })
      else err (unknown_tool name)
