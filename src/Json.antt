-- ===== src/Json.antt =====
-- The values that `json.loads` gives: an integer that is not negative, any other number as its text,
-- and objects with distinct keys, in the order of the dict.
use mcp_authflow.Prelude.{ℕ, String, Bool}

mutual
  pub data Json : Type 0 where
    null : Json
    bool : Bool → Json
    int : ℕ → Json
    number : String → Json
    str : String → Json
    array : Items → Json
    object : Members → Json

  pub data Items : Type 0 where
    nil : Items
    cons : Json → Items → Items

  pub data Members : Type 0 where
    end : Members
    member : String → Json → Members → Members

-- What `json.loads` raises besides JSONDecodeError: of bytes that are no text, of arrays and objects
-- that are nested too deep, and of an integer with more digits than the interpreter's limit.
pub data LoadFault : Type 0 where
  unicode_decode_error recursion_error value_error : LoadFault

-- what `json.loads` does
pub data Loads : Type 0 where
  loaded : Json → Loads
  json_decode_error : Loads
  load_fault : LoadFault → Loads
