-- ===== src/ToolFactory/Json.antt =====
-- Values as the request bodies of the tool factory hold them (`json`'s results), and what the program
-- takes from the interpreter to work on them.
use devops_agent.Prelude.{ℕ, Bool, true, false, Option, none, some, List, [], ◌∷◌, if◌then◌else◌}
use devops_agent.Text.{Text, text_eq}

-- `neg n` is -(n + 1); a float is its bit pattern
pub data Number : Type 0 where
  pos neg float : ℕ → Number

mutual
  pub data Json : Type 0 where
    null : Json
    bool : Bool → Json
    num : Number → Json
    str : Text → Json
    arr : Items → Json
    obj : Fields → Json

  pub data Items : Type 0 where
    nil : Items
    cons : Json → Items → Items

  -- a dict in insertion order; its keys differ
  pub data Fields : Type 0 where
    end : Fields
    field : Text → Json → Fields → Fields

-- `d.get(key)`
unfoldable pub get_field : Text → Fields → Option Json
get_field k end = none
get_field k (field j v fs) = if text_eq j k then some v else get_field k fs

unfoldable pub has_field : Text → Fields → Bool
has_field k end = false
has_field k (field j v fs) = if text_eq j k then true else has_field k fs

unfoldable pub items_list : Items → List Json
items_list nil = []
items_list (cons x xs) = x ∷ items_list xs

unfoldable pub field_names : Fields → List Text
field_names end = []
field_names (field k v fs) = k ∷ field_names fs

-- `isinstance(v, str)` and the text
unfoldable pub as_text : Json → Option Text
as_text (str s) = some s
as_text _ = none

-- a number in a comparison: `bool` is an `int`
unfoldable pub as_number : Json → Option Number
as_number (num n) = some n
as_number (bool true) = some (pos 1)
as_number (bool false) = some (pos 0)
as_number _ = none

-- The interpreter's part: comparison of an `int` or a `float` with another, `in` on any container,
-- `re.search` with a pattern of the schema, and whether `re.compile` takes it; `none` is an
-- exception. `show` is `str` of an `int`, `is_decimal` the class `\d`.
pub record Python : Type 0 where
  pub below : Number → Number → Bool
  pub contains : Json → Json → Option Bool
  pub search : Json → Text → Option Bool
  pub compiles : Text → Bool
  pub show : ℕ → Text
  pub is_decimal : ℕ → Bool
