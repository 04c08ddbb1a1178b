-- ===== src/Json.antt =====
-- JSON values: the dictionaries that the handlers return, the JSONB column `response_body` and the
-- `details` of an error.
use chekin_interview.Base.{ℕ, String, Bool, Option, none, some, str_eq, if◌then◌else◌}

mutual
  pub data Json : Type 0 where
    null : Json
    num : ℕ → Json
    -- Any other number, by its text.
    decimal : String → Json
    bool : Bool → Json
    str : String → Json
    arr : Items → Json
    obj : Fields → Json

  pub data Items : Type 0 where
    nil : Items
    cons : Json → Items → Items

  pub data Fields : Type 0 where
    end : Fields
    field : String → Json → Fields → Fields

abbrev pub or_last : Option Json → Option Json → Option Json
or_last (some v) first = some v
or_last none first = first

-- `d[key]` of a dictionary; of a key that a text has twice, `json.loads` keeps the last.
abbrev pub lookup_field : String → Fields → Option Json
lookup_field k end = none
lookup_field k (field j v fs) = or_last (lookup_field k fs) (if str_eq j k then some v else none)

abbrev pub member : String → Json → Option Json
member k (obj fs) = lookup_field k fs
member k _ = none
