-- ===== src/Whitelist/Examples.antt =====
-- Runs of the whitelist, and its theorems at concrete inputs.
use devops_agent.Prelude.{◌≡◌, refl, ◌↔◌, ◌⊎◌, true, false, [], ◌∷◌, List, any}
use devops_agent.Text.{
  Text, codes, text_eq, is_in, is_space, strip, tokens, split_on, starts_with, is_digit, ascii_word,
}
use devops_agent.Whitelist.{
  is_slot_letter, slot_of, give_up, scan_outside, scan_step, compile_from, pattern_to_regex,
  compiled_patterns, compiled_action_patterns, is_command_allowed, is_action_command_allowed,
}
use devops_agent.Whitelist.Actions.{IsMutation, is_action_command_allowed_iff}
use devops_agent.Whitelist.Registry.{
  is_forbidden, is_mask_char, mask_give_up, mask_outside, mask_step, mask_from, items_eq,
  first_is_readonly, has_traversal, is_acceptable, add_pattern, register_readonly_pattern,
  register_all,
}
use devops_agent.Whitelist.Registry.Allowed.{IsReadonly, register_all-allowed}
use devops_agent.Samples.{ascii}

abbrev cat_pattern : List Text
cat_pattern = codes " cat {path} " ∷ codes "rm {path}" ∷ codes "grep a|b" ∷ []

abbrev cat_log : Text
cat_log = codes "cat /var/log/syslog"

cat_allowed : is_command_allowed ascii (register_all cat_pattern compiled_patterns) cat_log ≡ true
unfolding is_command_allowed register_all register_readonly_pattern is_acceptable first_is_readonly
    tokens has_traversal add_pattern items_eq strip is_space any is_forbidden mask_from mask_step
    mask_outside mask_give_up is_mask_char compiled_patterns pattern_to_regex compile_from scan_step
    scan_outside slot_of text_eq is_slot_letter give_up is_in split_on starts_with is_digit
    ascii_word
cat_allowed = refl

register_all-allowed_example :
    (is_command_allowed ascii compiled_patterns cat_log ≡ true) ⊎ IsReadonly cat_log
register_all-allowed_example = register_all-allowed ascii cat_pattern cat_log cat_allowed

is_action_command_allowed_iff_example :
    (is_action_command_allowed ascii (codes "docker restart web") ≡ true)
    ↔ IsMutation ascii (codes "docker restart web")
is_action_command_allowed_iff_example =
    is_action_command_allowed_iff ascii (codes "docker restart web")

-- a chained command is refused
chained_refused : is_action_command_allowed ascii (codes "docker restart web; rm -rf /") ≡ false
unfolding is_action_command_allowed compiled_action_patterns pattern_to_regex compile_from scan_step
    scan_outside slot_of text_eq is_slot_letter give_up ascii_word
chained_refused = refl
