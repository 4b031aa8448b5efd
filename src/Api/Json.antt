-- ===== src/Api/Json.antt =====
-- What `response.json()` gives, and the fields that the errors read
-- (frontend/src/api/errors.ts). A number is its text; the keys of an object are distinct.
use ichat.Base.{Bool, Option, none, some, Text, codes, is_empty, text_eq, or_option, if◌then◌else◌}

mutual
  pub data Json : Type 0 where
    null : Json
    boolean : Bool → Json
    number : Text → Json
    string : Text → Json
    array : Elements → Json
    object : Members → Json

  pub data Elements : Type 0 where
    no_elements : Elements
    element : Json → Elements → Elements

  pub data Members : Type 0 where
    no_members : Members
    member : Text → Json → Members → Members

-- `object[key]`.
unfoldable pub member_of : Text → Members → Option Json
unfolding text_eq
member_of key no_members = none
member_of key (member k v ms) = if text_eq k key then some v else member_of key ms

-- `value[key]` where `value` is an object; an array has none of the keys that are read.
unfoldable pub field : Text → Json → Option Json
unfolding member_of
field key (object ms) = member_of key ms
field key _ = none

-- The field, where it is a string.
unfoldable pub string_field : Text → Json → Option Text
unfolding field
string_field key value = elim (field key value) [ some (string s) ↦ some s | _ ↦ none ]

-- The field, where it is a string that is not empty.
unfoldable pub code_in : Json → Option Text
unfolding string_field
code_in value = elim (string_field (codes "code") value) [
  | none ↦ none
  | some code ↦ if is_empty code then none else some code
]

-- `getErrorCode`.
unfoldable pub get_error_code : Option Json → Option Text
unfolding code_in field
get_error_code none = none
get_error_code (some payload) =
    or_option (code_in payload)
      (elim (field (codes "detail") payload) [ none ↦ none | some detail ↦ code_in detail ])

-- `getLegacyMessageId`.
unfoldable pub get_legacy_message_id : Option Json → Option Text
unfolding string_field field
get_legacy_message_id none = none
get_legacy_message_id (some payload) =
    or_option (string_field (codes "legacy_message_id") payload)
      (elim (field (codes "detail") payload) [
        | none ↦ none
        | some detail ↦ string_field (codes "legacy_message_id") detail
      ])
