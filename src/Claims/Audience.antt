-- ===== src/Claims/Audience.antt =====
-- `UnmarshalJSON` of the audience in oidcauth/types.go.
use gobox.Base.{◌≡◌, refl, ◌∙◌, Option, none, some, List, [], ◌∷◌}
use gobox.Base.Text.{Text, codes}
use gobox.Base.Errors.{Result, ok, err, errorf}

-- A JSON value, in what encoding/json tells apart when it decodes into strings: an array is known by
-- its elements, of which one that is an array itself is among the others.
pub data Element : Type 0 where
  null : Element
  string : Text → Element
  other : Element

pub data Json : Type 0 where
  single : Element → Json
  array : List Element → Json

-- json.Unmarshal into a string and into a slice of strings: null leaves the zero value.
abbrev decode_element : Element → Option Text
decode_element null = some []
decode_element (string s) = some s
decode_element other = none

abbrev consed : Option Text → Option (List Text) → Option (List Text)
consed none rest = none
consed (some s) none = none
consed (some s) (some rest) = some (s ∷ rest)

abbrev decode_elements : List Element → Option (List Text)
decode_elements [] = some []
decode_elements (j ∷ js) = consed (decode_element j) (decode_elements js)

abbrev decode_list : Json → Option (List Text)
decode_list (single null) = some []
decode_list (single j) = none
decode_list (array js) = decode_elements js

abbrev decode_string : Json → Option Text
decode_string (single j) = decode_element j
decode_string (array js) = none

unfoldable pub unmarshal_audience : Json → Result (List Text)
unmarshal_audience data_ = elim (decode_list data_) [
  | some list ↦ ok list
  | none ↦ elim (decode_string data_) [ some s ↦ ok (s ∷ []) | none ↦ err errorf ]
]

abbrev strings : List Text → List Element
strings [] = []
strings (s ∷ ss) = string s ∷ strings ss

decode_elements-strings : (ss : List Text) → decode_elements (strings ss) ≡ some ss
decode_elements-strings [] = refl
decode_elements-strings (s ∷ ss) = rw (decode_elements-strings ss) refl

-- An audience that is an array of strings decodes to them, a single string to the slice of it alone, so
-- that it is the same as the array of it, and null to no audience.
pub unmarshal_audience_shapes :
    (ss : List Text) (s : Text)
    → (unmarshal_audience (array (strings ss)) ≡ ok ss)
      × (unmarshal_audience (single (string s)) ≡ unmarshal_audience (array (strings (s ∷ []))))
      × (unmarshal_audience (single null) ≡ ok [])
unfolding unmarshal_audience
unmarshal_audience_shapes ss s =
    (rw (unmarshal_audience, decode_elements-strings ss) refl, refl, refl)

bare_string :
    (unmarshal_audience (array (string (codes "api") ∷ [])) ≡ ok (codes "api" ∷ []))
    × (unmarshal_audience (single (string (codes "api"))) ≡ ok (codes "api" ∷ []))
bare_string =
    let (listed, same, empty) = unmarshal_audience_shapes (codes "api" ∷ []) (codes "api") in
    (listed, same ∙ listed)
