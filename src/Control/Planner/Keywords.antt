-- ===== src/Control/Planner/Keywords.antt =====
-- Which words of a request can select a path.
use devops_agent.Prelude.{
  ◌≤◌, ◌≡◌, refl, Bool, true, false, not, List, [], ◌∷◌, all, All, All-keep_if, leb, keep_if,
  length, arith, Bool-cases, inl, inr,
}
use devops_agent.Text.{Text, Unicode, is_in, is_in-All, lower_text}
use devops_agent.Control.Planner.{
  is_small_letter, letter_runs, find_words, extract_keywords, noise_words,
}

IsRun : Text → Type 0
IsRun word = all is_small_letter word ≡ true

letter_runs-IsRun : (s : Text) → IsRun (letter_runs s).0 × All IsRun (letter_runs s).1
unfolding letter_runs IsRun all
letter_runs-IsRun [] = (refl, tt)
letter_runs-IsRun (c ∷ s) = elim (Bool-cases (is_small_letter c)) [
  | inl small ↦ rw (small, small) (letter_runs-IsRun s)
  | inr other ↦ rw other (refl, letter_runs-IsRun s)
]

keep_if-test : (p : Text → Bool) (words : List Text) → All (λ word. p word ≡ true) (keep_if p words)
unfolding keep_if
keep_if-test p [] = tt
keep_if-test p (w ∷ words) = elim (Bool-cases (p w)) [
  | inl kept ↦ rw kept (kept, keep_if-test p words)
  | inr dropped ↦ rw dropped (keep_if-test p words)
]

-- A keyword of a request has at least three characters, which are all letters from a to z, and is
-- no noise word; a word of the paths' lists that is shorter, has a digit or a slash, or is a noise
-- word never selects its path.
pub extract_keywords-live :
    (u : Unicode) (request word : Text)
    → is_in word (extract_keywords u request) ≡ true
    → (all is_small_letter word ≡ true) × (3 ≤ length word) × (is_in word noise_words ≡ false)
unfolding extract_keywords find_words IsRun
extract_keywords-live u request word h =
    let s = lower_text u request in
    let runs = (letter_runs s).0 ∷ (letter_runs s).1 in
    let is_long : Text → Bool = λ w. leb 3 (length w) in
    let long = keep_if is_long runs in
    let is_quiet : Text → Bool = λ w. not (is_in w noise_words) in
    let letters : IsRun word =
      is_in-All IsRun word (keep_if is_quiet long)
        (All-keep_if IsRun is_quiet long (All-keep_if IsRun is_long runs (letter_runs-IsRun s)))
        h in
    let size : leb 3 (length word) ≡ true =
      is_in-All (λ w. is_long w ≡ true) word (keep_if is_quiet long)
        (All-keep_if (λ w. is_long w ≡ true) is_quiet long (keep_if-test is_long runs)) h in
    let quiet : is_quiet word ≡ true =
      is_in-All (λ w. is_quiet w ≡ true) word (keep_if is_quiet long) (keep_if-test is_quiet long)
        h in
    (letters, ground arith, ground arith)
