-- ===== src/Chain/Json.antt =====
-- A value of Go's `any`, as encoding/json decodes it.
use walletus.Base.{ℕ, String, Bool, Option, none, some, ◌==◌, string_eq, if◌then◌else◌}

mutual
  pub data Json : Type 0 where
    null : Json
    bool : Bool → Json
    num : ℕ → Json
    str : String → Json
    arr : Items → Json
    obj : Fields → Json

  pub data Items : Type 0 where
    nil : Items
    cons : Json → Items → Items

  pub data Fields : Type 0 where
    end : Fields
    field : String → Json → Fields → Fields

-- `m[key]`, nil where the key is missing.
unfoldable pub get : String → Fields → Json
get k end = null
get k (field j v fs) = let rest = get k fs in if j == k then v else rest

-- `v.(string)` in the form that panics: `none` is the panic.
abbrev pub as_string : Json → Option String
as_string (str s) = some s
as_string _ = none
