-- ===== src/Core/Value.antt =====
-- The values of an evidence map, `map[string]any`. A map is the list of its entries. `scalar` is a
-- number that is no natural number, by its text; `opaque` is a value of any other Go type, by
-- what `json.Marshal` makes of it.
use certlight.Base.{ℕ, Bool, Option, String, List}

mutual
  pub data Value : Type 0 where
    null : Value
    bool : Bool → Value
    num : ℕ → Value
    scalar : String → Value
    text : String → Value
    strings : List String → Value
    items : Items → Value
    object : Fields → Value
    opaque : Option String → Value

  pub data Fields : Type 0 where
    no_fields : Fields
    field : String → Value → Fields → Fields

  pub data Items : Type 0 where
    no_items : Items
    item : Value → Items → Items
