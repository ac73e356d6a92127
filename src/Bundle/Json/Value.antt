-- ===== src/Bundle/Json/Value.antt =====
-- The values of JSON, and the tokens that the decoder gives for one.
use laya_go.Prelude.{String, List, [], ◌∷◌}
use laya_go.Bundle.Json.{Token, open_object, open_array, closing, scalar, text}

-- A value of JSON; a number and a truth value are both plain.
mutual
  pub data Json : Type 0 where
    null plain : Json
    string : String → Json
    array : Elements → Json
    object : Fields → Json

  pub data Elements : Type 0 where
    nil : Elements
    element : Json → Elements → Elements

  pub data Fields : Type 0 where
    end : Fields
    field : String → Json → Fields → Fields

-- The tokens of a value in front of others.
unfoldable mutual
  pub tokens : Json → List Token → List Token
  tokens null ts = scalar ∷ ts
  tokens plain ts = scalar ∷ ts
  tokens (string s) ts = text s ∷ ts
  tokens (array es) ts = open_array ∷ element_tokens es (closing ∷ ts)
  tokens (object fs) ts = open_object ∷ field_tokens fs (closing ∷ ts)

  pub element_tokens : Elements → List Token → List Token
  element_tokens nil ts = ts
  element_tokens (element v es) ts = tokens v (element_tokens es ts)

  pub field_tokens : Fields → List Token → List Token
  field_tokens end ts = ts
  field_tokens (field k v fs) ts = text k ∷ tokens v (field_tokens fs ts)

abbrev pub keys : Fields → List String
keys end = []
keys (field k v fs) = k ∷ keys fs
