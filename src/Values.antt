-- ===== src/Values.antt =====
-- Go values of type `any`, as encoding/json makes and reads them. A float64 is its 64 bits.
use serviceradar_sdk_go.Base.{ℕ, Bool}
use serviceradar_sdk_go.Strings.{Bytes, ℤ}

mutual
  pub data Value : Type 0 where
    null : Value
    truth : Bool → Value
    int : ℤ → Value
    float : ℕ → Value
    text : Bytes → Value
    array : Items → Value
    object : Fields → Value

  pub data Items : Type 0 where
    nil : Items
    cons : Value → Items → Items

  pub data Fields : Type 0 where
    end : Fields
    field : Bytes → Value → Fields → Fields
