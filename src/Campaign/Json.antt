-- ===== src/Campaign/Json.antt =====
-- The values that `json.loads` returns, as standalone.py tells them apart. A number is held as what the
-- source asks of it: the spelling of an integer, and for a float whether it is finite, the spelling of
-- its integer value where it has one, and its `repr`.
use warden_drydock.Prelude.{String, List, [], ◌∷◌, Bool, Option}

pub data Number : Type 0 where
  integer : String → Number
  float : Bool → Option String → String → Number

mutual
  pub data Json : Type 0 where
    null : Json
    boolean : Bool → Json
    number : Number → Json
    text : String → Json
    array : Items → Json
    object : Members → Json

  pub data Items : Type 0 where
    no_items : Items
    item : Json → Items → Items

  pub data Members : Type 0 where
    no_members : Members
    member : String → Json → Members → Members

unfoldable pub items : Items → List Json
items no_items = []
items (item j js) = j ∷ items js

unfoldable pub members : Members → List (String × Json)
members no_members = []
members (member k j ms) = (k, j) ∷ members ms
