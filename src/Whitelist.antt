-- ===== src/Whitelist.antt =====
-- The SSH command whitelist (app/ssh_whitelist.py): patterns with slots are compiled to regular
-- expressions, and a command passes if one of them matches it whole. `_COMPILED_PATTERNS`, which
-- `register_readonly_pattern` extends, is passed as a list of compiled patterns.
pub mod Registry
pub mod Actions
mod Examples
use devops_agent.Prelude.{
  ℕ, suc, Bool, true, false, ◌&&◌, ◌||◌, not, Option, none, some, List, [], ◌∷◌, ◌++◌, map, leb,
  ◌==◌, if◌then◌else◌, any, all,
}
use devops_agent.Text.{
  Text, codes, text_eq, is_in, starts_with, is_space, is_lower, is_upper, is_digit, ascii_word,
  Unicode, strip,
}
use devops_agent.Regex.{Regex, empty, cls, seq, upto, not_ahead, chr, repeat1, full_match}

-- `[a-zA-Z0-9_.\-]`, of `_NAME_RE`
unfoldable pub is_name_char : ℕ → Bool
unfolding ascii_word
is_name_char c = ascii_word c || (c == b'.') || (c == b'-')

-- `^[a-zA-Z0-9_.\-]{1,128}$`
unfoldable pub name_regex : Regex
unfolding is_name_char
name_regex = repeat1 is_name_char 127

-- A part of a compiled pattern: a literal code point, or one of the three kinds of slot.
pub data Item : Type 0 where
  lit : ℕ → Item
  name_slot path_slot query_slot : Item

-- `[a-zA-Z_]`, the code points of a placeholder's name
unfoldable pub is_slot_letter : ℕ → Bool
unfolding is_lower is_upper
is_slot_letter c = is_lower c || is_upper c || (c == b'_')

unfoldable pub slot_of : Text → Item
unfolding text_eq
slot_of name =
    if text_eq name (codes "path")
    then path_slot
    else (if text_eq name (codes "query") then query_slot else name_slot)

-- What the scan holds: nothing, or the letters seen behind an opening brace.
pub data Pending : Type 0 where
  idle : Pending
  brace : Text → Pending

unfoldable pub give_up : Pending → List Item
give_up idle = []
give_up (brace name) = lit b'{' ∷ map lit name

unfoldable pub scan_outside : ℕ → List Item × Pending
scan_outside c = if c == b'{' then ([], brace []) else (lit c ∷ [], idle)

unfoldable pub scan_step : Pending → ℕ → List Item × Pending
scan_step idle c = scan_outside c
scan_step (brace []) c =
    if is_slot_letter c
    then ([], brace (c ∷ []))
    else (let (out, next) = scan_outside c in (lit b'{' ∷ out, next))
scan_step (brace (n ∷ name)) c =
    if is_slot_letter c
    then ([], brace (n ∷ name ++ c ∷ []))
    else (if c == b'}'
        then (slot_of (n ∷ name) ∷ [], idle)
        else (let (out, next) = scan_outside c in (give_up (brace (n ∷ name)) ++ out, next)))

-- `_pattern_to_regex`: escape the text, and put a slot for each `{letters}`
unfoldable pub compile_from : Pending → Text → List Item
compile_from pending [] = give_up pending
compile_from pending (c ∷ s) = let (out, next) = scan_step pending c in out ++ compile_from next s

unfoldable pub pattern_to_regex : Text → List Item
pattern_to_regex pattern = compile_from idle pattern

abbrev pub whitelist_patterns : List Text
whitelist_patterns =
    codes "docker ps"
    ∷ codes "docker ps -a"
    ∷ codes "docker ps -a --format '{{.Names}}|{{.Status}}|{{.State}}'"
    ∷ codes "docker ps -a --format '{{.Names}}'"
    ∷ codes "df -h"
    ∷ codes "free -h"
    ∷ codes "docker stats --no-stream"
    ∷ codes "docker logs {container} --tail {n}"
    ∷ codes "docker inspect {container}"
    ∷ codes "uptime"
    ∷ codes "nproc"
    ∷ codes "systemctl status {service}"
    ∷ codes "docker restart {container}"
    ∷ codes "docker images --format '{{.Repository}}|{{.Tag}}|{{.ID}}|{{.Size}}|{{.CreatedAt}}'"
    ∷ codes "systemctl restart {service}"
    ∷ codes "ps aux --sort=-%cpu"
    ∷ codes "kubectl get nodes"
    ∷ codes "kubectl get pods -A"
    ∷ codes "kubectl get deployments -A"
    ∷ codes "kubectl get services -A"
    ∷ codes "kubectl get events -A"
    ∷ codes "kubectl cluster-info"
    ∷ []

abbrev pub action_whitelist_patterns : List Text
action_whitelist_patterns =
    codes "docker start {container}"
    ∷ codes "docker stop {container}"
    ∷ codes "docker restart {container}"
    ∷ codes "systemctl restart {service}"
    ∷ []

unfoldable pub compiled_patterns : List (List Item)
compiled_patterns = map pattern_to_regex whitelist_patterns

unfoldable pub compiled_action_patterns : List (List Item)
compiled_action_patterns = map pattern_to_regex action_whitelist_patterns

module _ (u : Unicode) where
  -- `[\w.\-]`
  unfoldable pub is_slot_char : ℕ → Bool
  is_slot_char c = u.is_word c || (c == b'.') || (c == b'-')

  -- `[\w.\-@/+]`
  unfoldable pub is_query_char : ℕ → Bool
  unfolding is_slot_char
  is_query_char c = is_slot_char c || (c == b'@') || (c == b'/') || (c == b'+')

  unfoldable pub item_regex : Item → Regex
  unfolding is_slot_char is_query_char
  item_regex (lit c) = chr c
  item_regex name_slot = repeat1 is_slot_char 127
  item_regex path_slot =
      upto 16 (seq (chr b'/') (seq (not_ahead (λ c. c == b'.')) (repeat1 is_slot_char 127)))
  item_regex query_slot =
      seq (repeat1 is_query_char 59) (upto 5 (seq (chr b' ') (repeat1 is_query_char 59)))

  unfoldable pub items_regex : List Item → Regex
  unfolding item_regex
  items_regex [] = empty
  items_regex (i ∷ is) = seq (item_regex i) (items_regex is)

  -- `p.match(command)` for a compiled pattern
  unfoldable pub matches : Text → List Item → Bool
  unfolding items_regex full_match
  matches command items = full_match (items_regex items) command

  unfoldable pub any_match : Text → List (List Item) → Bool
  unfolding matches any
  any_match [] patterns = false
  any_match (c ∷ s) patterns = any (matches (c ∷ s)) patterns

  -- `patterns` is the present value of `_COMPILED_PATTERNS`
  unfoldable pub is_command_allowed : List (List Item) → Text → Bool
  unfolding any_match
  is_command_allowed patterns command = any_match command patterns

  unfoldable pub is_action_command_allowed : Text → Bool
  unfolding any_match
  is_action_command_allowed command = any_match command compiled_action_patterns
