-- ===== src/Agent/Context.antt =====
-- What of the history the model is shown (app/context_budget.py, `bound_history`), with its default
-- limits. The length of a message as JSON is a parameter; the values of the keys that the code does not
-- read are kept as JSON text. A content that is no text is not modelled.
pub mod Kept
use devops_agent.Prelude.{
  ℕ, zero, suc, ◌+◌, ◌-◌, Bool, true, false, ◌&&◌, List, [], ◌∷◌, ◌++◌, map, length, take, ltb,
  if◌then◌else◌,
}
use devops_agent.Text.{Text, codes, text_eq}

pub record HistoryItem : Type 0 where
  pub role : Text
  pub content : Text
  -- the other keys, with their values
  pub others : List (Text × Text)

abbrev pub max_messages : ℕ
max_messages = 24

abbrev pub max_chars : ℕ
max_chars = 48000

abbrev pub tool_result_chars : ℕ
tool_result_chars = 3500

unfoldable pub is_system : HistoryItem → Bool
unfolding text_eq
is_system m = text_eq m.role (codes "system")

unfoldable pub truncated : HistoryItem → HistoryItem
unfolding text_eq
truncated m =
    if text_eq m.role (codes "tool") && ltb tool_result_chars (length m.content)
    then record m {
      content =
          take tool_result_chars m.content ++ (10 ∷ codes "...[tool result truncated in context]");
    }
    else m

-- `l[n:]`
unfoldable pub drop : ℕ → List HistoryItem → List HistoryItem
drop zero l = l
drop (suc n) [] = []
drop (suc n) (m ∷ l) = drop n l

-- `l[-n:]`, for a positive n
unfoldable pub last_items : ℕ → List HistoryItem → List HistoryItem
unfolding drop
last_items n l = drop (length l - n) l

-- `bounded[:1]`, if it is the system's
unfoldable pub first_system : List HistoryItem → List HistoryItem
unfolding is_system
first_system [] = []
first_system (m ∷ l) = if is_system m then m ∷ [] else []

unfoldable pub window : List HistoryItem → List HistoryItem
unfolding first_system last_items
window bounded =
    let first = first_system bounded in
    if ltb max_messages (length bounded)
    then first ++ last_items (max_messages - length first) bounded
    else bounded

-- `bounded.pop(index)`
unfoldable pub pop_oldest : List HistoryItem → List HistoryItem
unfolding is_system
pop_oldest [] = []
pop_oldest (m ∷ []) = m ∷ []
pop_oldest (m ∷ n ∷ l) = if is_system m then m ∷ l else n ∷ l

module _ (size : HistoryItem → ℕ) where
  unfoldable pub total : List HistoryItem → ℕ
  total [] = 0
  total (m ∷ l) = size m + total l

  unfoldable pub is_too_long : List HistoryItem → Bool
  unfolding total
  is_too_long bounded = ltb max_chars (total bounded) && ltb 2 (length bounded)

  -- the `while`, on fuel
  unfoldable pub shrink : ℕ → List HistoryItem → List HistoryItem
  unfolding is_too_long pop_oldest
  shrink zero bounded = bounded
  shrink (suc fuel) bounded =
      let rest = shrink fuel (pop_oldest bounded) in if is_too_long bounded then rest else bounded

  unfoldable pub bound_history : List HistoryItem → List HistoryItem
  unfolding truncated window shrink
  bound_history history =
      let bounded = window (map truncated history) in shrink (length bounded) bounded
