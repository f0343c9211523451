-- ===== src/ExtProc/Json.antt =====
-- What the external processors read of JSON: values, and how encoding/json fills the fields of a
-- struct from one. The syntax is a parameter, `unmarshal`: `none` where the text is not JSON.
use quota_management.Prelude.{String, Option, none, some}
use quota_management.Prelude.Int.{ℤ}

-- `other` is a value that fits no field read here: true, false, a list, a number that is not whole
-- or leaves int64.
mutual
  pub data Json : Type 0 where
    null : Json
    number : ℤ → Json
    text : String → Json
    object : Fields → Json
    other : Json

  pub data Fields : Type 0 where
    no_fields : Fields
    field : String → Json → Fields → Fields

-- An int64 field and a string field: null leaves them, and any other kind of value is an error.
abbrev pub decode_int : Json → ℤ → Option ℤ
decode_int null v = some v
decode_int (number n) v = some n
decode_int (text s) v = none
decode_int (object fs) v = none
decode_int other v = none

abbrev pub decode_text : Json → String → Option String
decode_text null v = some v
decode_text (text s) v = some s
decode_text (number n) v = none
decode_text (object fs) v = none
decode_text other v = none

module _ {ℓ} {S : Type ℓ} where
  -- The fields in their order: a later one of a name overwrites an earlier one. `set` fills the
  -- struct from a field; names of fields are compared with their case.
  abbrev fill : (String → Json → S → Option S) → Fields → S → Option S
  fill set no_fields s = some s
  fill set (field k v rest) s = elim (set k v s) [ none ↦ none | some t ↦ fill set rest t ]

  abbrev pub decode_struct : (String → Json → S → Option S) → Json → S → Option S
  decode_struct set null s = some s
  decode_struct set (object fs) s = fill set fs s
  decode_struct set (number n) s = none
  decode_struct set (text t) s = none
  decode_struct set other s = none
