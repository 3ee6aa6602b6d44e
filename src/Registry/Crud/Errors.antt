-- ===== src/Registry/Crud/Errors.antt =====
-- The exceptions of onto_platform/registry/crud.py.
use lingyunzhi_os_backend.Base.{String, List, Result}
use lingyunzhi_os_backend.Registry.Findings.{Finding}
use lingyunzhi_os_backend.Registry.RefsScan.{Referrer}

pub data CrudError : Type 0 where
  -- `ValidationFailedError`
  validation_failed : List Finding → CrudError
  -- `ReferencedError`
  referenced : String → List Referrer → CrudError
  -- `KeyError` of `set_asset_mapping`
  key_error : String → CrudError

abbrev pub Crud : Type 0 → Type 0
Crud A = Result CrudError A
