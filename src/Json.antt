-- ===== src/Json.antt =====
-- Values of a dynamic type: what `json` and `yaml` read and write. A number keeps its written form.
use dbtv.Common.{String, Bool}

mutual
  pub data Json : Type 0 where
    null : Json
    bool : Bool → Json
    number : String → Json
    text : String → Json
    array : Items → Json
    object : Fields → Json

  pub data Items : Type 0 where
    nil : Items
    cons : Json → Items → Items

  pub data Fields : Type 0 where
    end : Fields
    field : String → Json → Fields → Fields
