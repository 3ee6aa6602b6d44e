-- ===== src/McpServer/Catalog.antt =====
-- `_TOOLS` of onto_platform/mcp_server.py when mcp_tools_read.py, mcp_tools_editor.py and
-- mcp_tools_admin.py are imported. The tools of mcp_tools_ingestion.py, which leave these tables
-- alone, are not in it.
use lingyunzhi_os_backend.Base.{String, [], ◌∷◌, ◌++◌}
use lingyunzhi_os_backend.Dict.{Dict}
use lingyunzhi_os_backend.Registry.Crud.{
  put_shared_property_type, put_interface_type, put_object_type, put_link_type, put_action_type,
  delete_shared_property_type, delete_interface_type, delete_object_type, delete_link_type,
  delete_action_type,
}
use lingyunzhi_os_backend.Registry.Checks.Refs.{
  shared_property_types, interface_types, object_types, link_types, action_types,
}
use lingyunzhi_os_backend.Access.{Scope, read, editor, admin, TokenLookupResult}
use lingyunzhi_os_backend.McpServer.{Database, Handled, ToolSpec}
use lingyunzhi_os_backend.McpServer.Calls.{ToolArguments, ToolAnswer, Context}
use lingyunzhi_os_backend.McpServer.Reading.{
  whoami, get_registry, lister, get_entity, find_by_api_name, mcp_describe_bound_asset,
  mcp_query_sql,
}
use lingyunzhi_os_backend.McpServer.Editor.{
  validate_staging, put_handler, delete_handler, import_full, asset_mapping_handler,
}
use lingyunzhi_os_backend.McpServer.Admin.{
  mcp_promote, mcp_revert, mcp_undo, mcp_mint, mcp_revoke, mcp_list_tokens, mcp_add_connection,
  mcp_delete_connection, mcp_list_connections,
}

abbrev pub Tool : Type 0 → Type 0
Tool Raised = ToolSpec Raised (ToolArguments Raised) ToolAnswer

module _ {Raised : Type 0} where
  -- `@mcp_tool(name, scope, …)`
  abbrev pub mcp_tool :
      String
      → Scope
      → (TokenLookupResult → ToolArguments Raised → Database → Handled Raised ToolAnswer)
      → String × Tool Raised
  mcp_tool name scope handler = (name, record { name = name; scope = scope; handler = handler })

  module _ (c : Context Raised) where
    unfoldable pub read_tools : Dict (Tool Raised)
    read_tools =
        mcp_tool "whoami" read whoami
        ∷ mcp_tool "get_registry" read (get_registry c)
        ∷ mcp_tool "list_object_types" read (lister c object_types)
        ∷ mcp_tool "list_link_types" read (lister c link_types)
        ∷ mcp_tool "list_interface_types" read (lister c interface_types)
        ∷ mcp_tool "list_shared_property_types" read (lister c shared_property_types)
        ∷ mcp_tool "list_action_types" read (lister c action_types)
        ∷ mcp_tool "get_entity" read (get_entity c)
        ∷ mcp_tool "find_by_api_name" read (find_by_api_name c)
        ∷ mcp_tool "describe_bound_asset" read (mcp_describe_bound_asset c)
        ∷ mcp_tool "query_sql" read (mcp_query_sql c)
        ∷ []

    unfoldable pub editor_tools : Dict (Tool Raised)
    editor_tools =
        mcp_tool "validate_staging" editor (validate_staging c)
        ∷ mcp_tool "put_shared_property_type" editor
            (put_handler c put_shared_property_type (λ args. args.definitions.shared_definition))
        ∷ mcp_tool "delete_shared_property_type" editor
            (delete_handler c delete_shared_property_type)
        ∷ mcp_tool "put_interface_type" editor
            (put_handler c put_interface_type (λ args. args.definitions.interface_definition))
        ∷ mcp_tool "delete_interface_type" editor (delete_handler c delete_interface_type)
        ∷ mcp_tool "put_object_type" editor
            (put_handler c put_object_type (λ args. args.definitions.object_definition))
        ∷ mcp_tool "delete_object_type" editor (delete_handler c delete_object_type)
        ∷ mcp_tool "put_link_type" editor
            (put_handler c put_link_type (λ args. args.definitions.link_definition))
        ∷ mcp_tool "delete_link_type" editor (delete_handler c delete_link_type)
        ∷ mcp_tool "put_action_type" editor
            (put_handler c put_action_type (λ args. args.definitions.action_definition))
        ∷ mcp_tool "delete_action_type" editor (delete_handler c delete_action_type)
        ∷ mcp_tool "import_full_registry_to_staging" editor (import_full c)
        ∷ mcp_tool "set_asset_mapping" editor (asset_mapping_handler c)
        ∷ []

    unfoldable pub admin_tools : Dict (Tool Raised)
    admin_tools =
        mcp_tool "promote_staging_to_production" admin (mcp_promote c)
        ∷ mcp_tool "revert_staging_to_production" admin (mcp_revert c)
        ∷ mcp_tool "undo_promote" admin (mcp_undo c)
        ∷ mcp_tool "mint_token" admin (mcp_mint c)
        ∷ mcp_tool "revoke_token" admin (mcp_revoke c)
        ∷ mcp_tool "list_tokens" admin (mcp_list_tokens c)
        ∷ mcp_tool "add_connection" admin (mcp_add_connection c)
        ∷ mcp_tool "delete_connection" admin (mcp_delete_connection c)
        ∷ mcp_tool "list_connections" admin (mcp_list_connections c)
        ∷ []

    unfoldable pub tools : Dict (Tool Raised)
    tools = read_tools ++ editor_tools ++ admin_tools
