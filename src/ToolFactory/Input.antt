-- ===== src/ToolFactory/Input.antt =====
-- Validation of a tool's arguments (`validate_input` of app/tool_factory/schema.py).
use devops_agent.Prelude.{
  Bool, not, Option, none, some, List, [], ◌∷◌, ◌++◌, map, length, ltb, if◌then◌else◌,
}
use devops_agent.Text.{Text, codes}
use devops_agent.Dict.{Dict, lookup}
use devops_agent.ToolFactory.Json.{
  Number, pos, Json, null, bool, num, str, arr, obj, Items, nil, cons, Fields, end, field,
  get_field, has_field, items_list, field_names, as_number, Python,
}
use devops_agent.ToolFactory.Schema.{
  Problem, wrong_type, not_allowed, too_short, too_long, no_match, below_minimum, above_maximum,
  too_many_items, property_missing, not_an_object, raises, has_type, flag, on_some,
}

-- a comparison with a constraint; one that is no number raises
unfoldable pub compared : (Number → Bool) → Problem → Json → List Problem
unfolding as_number
compared violates p bound = elim (as_number bound) [
  | none ↦ raises ∷ []
  | (some n) ↦ flag (violates n) p
]

-- the result of an operation of the interpreter that may raise
unfoldable pub answered : Option Bool → Problem → List Problem
answered none p = raises ∷ []
answered (some good) p = flag (not good) p

unfoldable pub text_problems : Python → Fields → Text → List Problem
unfolding on_some compared answered get_field
text_problems py schema s =
    on_some (get_field (codes "minLength") schema)
      (compared (λ bound. py.below (pos (length s)) bound) too_short)
    ++ on_some (get_field (codes "maxLength") schema)
        (compared (λ bound. py.below bound (pos (length s))) too_long)
    ++ on_some (get_field (codes "pattern") schema)
        (λ pattern. answered (py.search pattern s) no_match)

unfoldable pub number_problems : Python → Fields → Number → List Problem
unfolding on_some compared get_field
number_problems py schema n =
    on_some (get_field (codes "minimum") schema)
      (compared (λ bound. py.below n bound) below_minimum)
    ++ on_some (get_field (codes "maximum") schema)
        (compared (λ bound. py.below bound n) above_maximum)

-- the checks of a list's items against one schema, in order
unfoldable pub run_items : List (Json → List Problem) → Json → List Problem
run_items [] schema = []
run_items (check ∷ checks) schema = check schema ++ run_items checks schema

-- `isinstance(schema.get("items"), dict)`, the limit, and the items
unfoldable pub list_problems : List (Json → List Problem) → Fields → List Problem
unfolding run_items get_field
list_problems checks schema = elim (get_field (codes "items") schema) [
  | (some (obj item)) ↦
      if ltb 100 (length checks) then too_many_items ∷ [] else run_items checks (obj item)
  | _ ↦ []
]

-- `for name, child in schema["properties"].items(): if name in value`
unfoldable pub run_properties : Dict (Json → List Problem) → Fields → List Problem
unfolding lookup on_some
run_properties checks end = []
run_properties checks (field name child properties) =
    on_some (lookup name checks) (λ check. check child) ++ run_properties checks properties

-- `name not in value`; a list or a dict is no key
unfoldable pub missing : Fields → Json → List Problem
missing value (str name) = flag (not (has_field name value)) property_missing
missing value (arr xs) = raises ∷ []
missing value (obj fs) = raises ∷ []
missing value _ = property_missing ∷ []

unfoldable pub all_missing : Fields → List Json → List Problem
unfolding missing
all_missing value [] = []
all_missing value (name ∷ names) = missing value name ++ all_missing value names

-- `for name in schema.get("required", [])`
unfoldable pub iterated : Json → Option (List Json)
unfolding items_list field_names
iterated (arr names) = some (items_list names)
iterated (obj fs) = some (map str (field_names fs))
iterated (str s) = some (map (λ c. str (c ∷ [])) s)
iterated _ = none

unfoldable pub missing_names : Fields → Option Json → List Problem
unfolding all_missing iterated
missing_names value none = []
missing_names value (some required) = elim (iterated required) [
  | none ↦ raises ∷ []
  | (some names) ↦ all_missing value names
]

unfoldable pub dict_problems : Dict (Json → List Problem) → Fields → Fields → List Problem
unfolding run_properties missing_names get_field
dict_problems checks schema value = elim (get_field (codes "properties") schema) [
  | (some (obj properties)) ↦
      run_properties checks properties ++ missing_names value (get_field (codes "required") schema)
  | _ ↦ []
]

unfoldable pub enum_problems : Python → Json → Json → List Problem
unfolding answered
enum_problems py value enum = answered (py.contains enum value) not_allowed

-- what follows the test of the type
unfoldable pub body_problems :
    Python → Json → List (Json → List Problem) → Dict (Json → List Problem) → Fields → List Problem
unfolding on_some enum_problems text_problems number_problems list_problems dict_problems get_field
body_problems py null items fields schema = []
body_problems py (bool b) items fields schema =
    on_some (get_field (codes "enum") schema) (enum_problems py (bool b))
body_problems py (num n) items fields schema =
    on_some (get_field (codes "enum") schema) (enum_problems py (num n))
    ++ number_problems py schema n
body_problems py (str s) items fields schema =
    on_some (get_field (codes "enum") schema) (enum_problems py (str s))
    ++ text_problems py schema s
body_problems py (arr xs) items fields schema =
    on_some (get_field (codes "enum") schema) (enum_problems py (arr xs))
    ++ list_problems items schema
body_problems py (obj fs) items fields schema =
    on_some (get_field (codes "enum") schema) (enum_problems py (obj fs))
    ++ dict_problems fields schema fs

-- the test of the declared type, which ends the check where it fails
unfoldable pub typed : Option Json → Json → List Problem → List Problem
unfolding has_type
typed none value rest = rest
typed (some null) value rest = rest
typed (some (str declared)) value rest = if has_type declared value then rest else wrong_type ∷ []
typed (some (arr xs)) value rest = raises ∷ []
typed (some (obj fs)) value rest = raises ∷ []
typed (some _) value rest = wrong_type ∷ []

unfoldable pub check_parts :
    Python → Json → List (Json → List Problem) → Dict (Json → List Problem) → Json → List Problem
unfolding body_problems typed get_field
check_parts py value items fields (obj schema) =
    typed (get_field (codes "type") schema) value (body_problems py value items fields schema)
check_parts py value items fields _ = raises ∷ []

-- `_check_value`, with the value first, since the recursion is on it
unfoldable mutual
  unfolding check_parts

  pub check_value : Python → Json → Json → List Problem
  check_value py null schema = check_parts py null [] [] schema
  check_value py (bool b) schema = check_parts py (bool b) [] [] schema
  check_value py (num n) schema = check_parts py (num n) [] [] schema
  check_value py (str s) schema = check_parts py (str s) [] [] schema
  check_value py (arr xs) schema = check_parts py (arr xs) (item_checks py xs) [] schema
  check_value py (obj fs) schema = check_parts py (obj fs) [] (field_checks py fs) schema

  pub item_checks : Python → Items → List (Json → List Problem)
  item_checks py nil = []
  item_checks py (cons x xs) = (λ schema. check_value py x schema) ∷ item_checks py xs

  pub field_checks : Python → Fields → Dict (Json → List Problem)
  field_checks py end = []
  field_checks py (field k v fs) = (k, λ schema. check_value py v schema) ∷ field_checks py fs

unfoldable pub validate_input : Python → Json → Json → List Problem
unfolding check_value
validate_input py (obj schema) value = check_value py value (obj schema)
validate_input py _ value = not_an_object ∷ []
