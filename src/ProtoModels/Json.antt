-- ===== src/ProtoModels/Json.antt =====
-- The values of `dict[str, Any]` fields: JSON values. A number is kept as its literal.
use lingyunzhi_os_backend.Base.{String, Bool}

mutual
  pub data Json : Type 0 where
    null : Json
    boolean : Bool → Json
    number : String → Json
    string : String → Json
    array : JsonItems → Json
    object : JsonFields → Json

  pub data JsonItems : Type 0 where
    no_items : JsonItems
    item : Json → JsonItems → JsonItems

  pub data JsonFields : Type 0 where
    no_fields : JsonFields
    field : String → Json → JsonFields → JsonFields

-- A Python `float`, kept as its literal.
abbrev pub Float : Type 0
Float = String
