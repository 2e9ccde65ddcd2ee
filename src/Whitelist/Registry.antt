-- ===== src/Whitelist/Registry.antt =====
-- `register_readonly_pattern` (app/ssh_whitelist.py): one more read-only pattern from the server's
-- configuration. It returns its answer and the new value of `_COMPILED_PATTERNS`.
pub mod Scan
pub mod Prefix
pub mod Allowed
use devops_agent.Prelude.{
  ℕ, Bool, true, false, ◌&&◌, ◌||◌, not, List, [], ◌∷◌, ◌++◌, leb, ◌==◌, if◌then◌else◌, any, all,
}
use devops_agent.Text.{
  Text, codes, is_in, starts_with, is_lower, is_upper, is_digit, strip, tokens, split_on,
}
use devops_agent.Whitelist.{
  Item, lit, name_slot, path_slot, query_slot, Pending, idle, brace, is_slot_letter,
  pattern_to_regex,
}

abbrev pub readonly_binary_prefixes : List Text
readonly_binary_prefixes =
    codes "grep"
    ∷ codes "head"
    ∷ codes "tail"
    ∷ codes "find"
    ∷ codes "cat"
    ∷ codes "stat"
    ∷ codes "wc"
    ∷ codes "du"
    ∷ []

-- `_FORBIDDEN_IN_PATTERN_RE`, on one code point
unfoldable pub is_forbidden : ℕ → Bool
is_forbidden c =
    (c == b';')
    || (c == b'|')
    || (c == b'&')
    || (c == b'$')
    || (c == b'`')
    || (c == b'(')
    || (c == b')')
    || (c == b'<')
    || (c == b'>')
    || (c == b'{')
    || (c == b'}')
    || (c == b'!')
    || (c == 92)
    || (c == b'*')
    || (c == b'?')
    || (c == b'~')
    || (c == 10)
    || (c == 13)
    || (c == 9)

-- `[a-zA-Z0-9_]`, behind the first letter of a placeholder's name
unfoldable pub is_mask_char : ℕ → Bool
is_mask_char c = is_slot_letter c || is_digit c

unfoldable pub mask_give_up : Pending → Text
mask_give_up idle = []
mask_give_up (brace name) = b'{' ∷ name

unfoldable pub mask_outside : ℕ → Text × Pending
mask_outside c = if c == b'{' then ([], brace []) else (c ∷ [], idle)

unfoldable pub mask_step : Pending → ℕ → Text × Pending
mask_step idle c = mask_outside c
mask_step (brace []) c =
    if is_slot_letter c
    then ([], brace (c ∷ []))
    else (let (out, next) = mask_outside c in (b'{' ∷ out, next))
mask_step (brace (n ∷ name)) c =
    if is_mask_char c
    then ([], brace (n ∷ name ++ c ∷ []))
    else (if c == b'}'
        then (codes "PH", idle)
        else (let (out, next) = mask_outside c in (mask_give_up (brace (n ∷ name)) ++ out, next)))

-- `re.sub(r"\{[a-zA-Z_][a-zA-Z0-9_]*\}", "PH", candidate)`
unfoldable pub mask_from : Pending → Text → Text
mask_from pending [] = mask_give_up pending
mask_from pending (c ∷ s) = let (out, next) = mask_step pending c in out ++ mask_from next s

unfoldable pub item_eq : Item → Item → Bool
item_eq (lit a) (lit b) = a == b
item_eq name_slot name_slot = true
item_eq path_slot path_slot = true
item_eq query_slot query_slot = true
item_eq _ _ = false

-- `existing.pattern == compiled.pattern`
unfoldable pub items_eq : List Item → List Item → Bool
unfolding item_eq
items_eq [] [] = true
items_eq [] (j ∷ js) = false
items_eq (i ∷ is) [] = false
items_eq (i ∷ is) (j ∷ js) = item_eq i j && items_eq is js

unfoldable pub first_is_readonly : List Text → Bool
unfolding is_in
first_is_readonly [] = false
first_is_readonly (binary ∷ rest) = is_in binary readonly_binary_prefixes

unfoldable pub has_traversal : Text → Bool
unfolding starts_with is_in split_on
has_traversal token = starts_with (codes "/") token && is_in (codes "..") (split_on b'/' token)

-- the checks on the stripped text, up to the duplicate guard
unfoldable pub is_acceptable : Text → Bool
is_acceptable candidate =
    first_is_readonly (tokens candidate)
    && not (any is_forbidden (mask_from idle candidate))
    && not (any has_traversal (tokens candidate))

unfoldable pub add_pattern : List Item → List (List Item) → List (List Item)
unfolding any
add_pattern compiled patterns =
    if any (λ existing. items_eq existing compiled) patterns
    then patterns
    else patterns ++ compiled ∷ []

unfoldable pub register_readonly_pattern : Text → List (List Item) → Bool × List (List Item)
register_readonly_pattern pattern patterns =
    if is_acceptable (strip pattern)
    then (true, add_pattern (pattern_to_regex (strip pattern)) patterns)
    else (false, patterns)

-- the registrations of a start-up, in order
unfoldable pub register_all : List Text → List (List Item) → List (List Item)
register_all [] patterns = patterns
register_all (p ∷ ps) patterns = register_all ps (register_readonly_pattern p patterns).1
