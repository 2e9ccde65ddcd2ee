-- ===== src/ToolFactory/Schema.antt =====
-- The schema validator (app/tool_factory/schema.py). A problem is its kind, without path and prose;
-- `raises` is an exception that leaves the validator, wherever it comes among the problems.
use devops_agent.Prelude.{
  ℕ, ◌+◌, Bool, true, false, not, Option, none, some, List, [], ◌∷◌, ◌++◌, any, all, length, ltb,
  if◌then◌else◌,
}
use devops_agent.Text.{Text, codes, is_in}
use devops_agent.Dict.{Dict, lookup}
use devops_agent.ToolFactory.Json.{
  pos, float, Json, null, bool, num, str, arr, obj, Items, Fields, end, field, get_field, has_field,
  items_list, Python,
}

pub data Problem : Type 0 where
  too_deep not_an_object unsupported_type bad_length bad_bound bad_pattern bad_enum bad_items
        bad_properties bad_required missing_names :
      Problem
  wrong_type not_allowed too_short too_long no_match below_minimum above_maximum too_many_items
        property_missing :
      Problem
  raises : Problem

-- `_TYPE_CHECKS`
unfoldable pub type_names : List Text
type_names =
    codes "string"
    ∷ codes "integer"
    ∷ codes "number"
    ∷ codes "boolean"
    ∷ codes "array"
    ∷ codes "object"
    ∷ codes "null"
    ∷ []

-- the name of a value's own type; an `int` is a number too
unfoldable pub type_name : Json → Text
type_name null = codes "null"
type_name (bool b) = codes "boolean"
type_name (num (float n)) = codes "number"
type_name (num n) = codes "integer"
type_name (str s) = codes "string"
type_name (arr xs) = codes "array"
type_name (obj fs) = codes "object"

unfoldable pub has_type : Text → Json → Bool
unfolding is_in type_name any
has_type declared (num n) = is_in declared (codes "number" ∷ type_name (num n) ∷ [])
has_type declared v = is_in declared (type_name v ∷ [])

abbrev pub flag : Bool → Problem → List Problem
flag bad p = if bad then p ∷ [] else []

-- a constraint that is there
unfoldable pub on_some {ℓ} : {A : Type ℓ} → Option A → (A → List Problem) → List Problem
on_some none f = []
on_some (some a) f = f a

unfoldable pub type_problems : Json → List Problem
unfolding is_in type_names any
type_problems null = []
type_problems (str t) = flag (not (is_in t type_names)) unsupported_type
type_problems (arr xs) = raises ∷ []
type_problems (obj fs) = raises ∷ []
type_problems _ = unsupported_type ∷ []

unfoldable pub is_length : Json → Bool
is_length (num (pos n)) = true
is_length _ = false

unfoldable pub is_number : Json → Bool
is_number (num n) = true
is_number _ = false

unfoldable pub is_enum : Json → Bool
is_enum (arr xs) = true
is_enum _ = false

-- `isinstance(…, (dict, type(None)))`
unfoldable pub is_items : Json → Bool
is_items (obj fs) = true
is_items null = true
is_items _ = false

unfoldable pub is_str : Json → Bool
is_str (str s) = true
is_str _ = false

unfoldable pub pattern_problems : Python → Json → List Problem
pattern_problems py (str s) =
    if ltb 200 (length s) then bad_pattern ∷ [] else flag (not (py.compiles s)) bad_pattern
pattern_problems py _ = bad_pattern ∷ []

unfoldable pub is_declared : Fields → Json → Bool
unfolding has_field
is_declared properties (str name) = has_field name properties
is_declared properties _ = false

-- the `elif` behind the test of `required`
unfoldable pub undeclared_names : Items → Option Json → List Problem
unfolding is_declared all items_list
undeclared_names names (some (obj properties)) =
    flag (not (all (is_declared properties) (items_list names))) missing_names
undeclared_names names _ = []

unfoldable pub required_problems : Fields → Json → List Problem
unfolding undeclared_names get_field is_str all items_list
required_problems node (arr names) =
    if all is_str (items_list names)
    then undeclared_names names (get_field (codes "properties") node)
    else bad_required ∷ []
required_problems node _ = bad_required ∷ []

-- the checks before the properties
unfoldable pub early_problems : Python → Fields → List Problem
unfolding on_some type_problems is_length is_number pattern_problems is_enum is_items get_field
early_problems py node =
    let length_problems : Json → List Problem = λ v. flag (not (is_length v)) bad_length in
    let bound_problems : Json → List Problem = λ v. flag (not (is_number v)) bad_bound in
    on_some (get_field (codes "type") node) type_problems
    ++ on_some (get_field (codes "minLength") node) length_problems
    ++ on_some (get_field (codes "maxLength") node) length_problems
    ++ on_some (get_field (codes "minimum") node) bound_problems
    ++ on_some (get_field (codes "maximum") node) bound_problems
    ++ on_some (get_field (codes "pattern") node) (pattern_problems py)
    ++ on_some (get_field (codes "enum") node) (λ v. flag (not (is_enum v)) bad_enum)
    ++ on_some (get_field (codes "items") node) (λ v. flag (not (is_items v)) bad_items)

-- `_check_schema_node`. The dict of functions holds, for each key of the node, the check of its value
-- as the node's properties, so that the recursion is on the node.
unfoldable mutual
  unfolding on_some early_problems required_problems lookup get_field

  pub node_problems : Python → Json → ℕ → List Problem
  node_problems py null depth = flag (ltb 6 depth) too_deep
  node_problems py (obj node) depth =
      if ltb 6 depth
      then too_deep ∷ []
      else early_problems py node
        ++ on_some (lookup (codes "properties") (property_checks py node))
            (λ check. check (depth + 1))
        ++ on_some (get_field (codes "required") node) (required_problems node)
  node_problems py (bool b) depth =
      flag (ltb 6 depth) too_deep ++ flag (not (ltb 6 depth)) not_an_object
  node_problems py (num n) depth =
      flag (ltb 6 depth) too_deep ++ flag (not (ltb 6 depth)) not_an_object
  node_problems py (str s) depth =
      flag (ltb 6 depth) too_deep ++ flag (not (ltb 6 depth)) not_an_object
  node_problems py (arr xs) depth =
      flag (ltb 6 depth) too_deep ++ flag (not (ltb 6 depth)) not_an_object

  pub property_checks : Python → Fields → Dict (ℕ → List Problem)
  property_checks py end = []
  property_checks py (field k v fs) =
      (k, λ depth. children_problems py v depth) ∷ property_checks py fs

  pub children_problems : Python → Json → ℕ → List Problem
  children_problems py (obj children) depth = fields_problems py children depth
  children_problems py null depth = bad_properties ∷ []
  children_problems py (bool b) depth = bad_properties ∷ []
  children_problems py (num n) depth = bad_properties ∷ []
  children_problems py (str s) depth = bad_properties ∷ []
  children_problems py (arr xs) depth = bad_properties ∷ []

  pub fields_problems : Python → Fields → ℕ → List Problem
  fields_problems py end depth = []
  fields_problems py (field k v fs) depth = node_problems py v depth ++ fields_problems py fs depth

unfoldable pub validate_schema : Python → Json → List Problem
validate_schema py schema = node_problems py schema 0
