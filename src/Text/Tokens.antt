-- ===== src/Text/Tokens.antt =====
-- The first word of a stripped text is a prefix of it.
use devops_agent.Prelude.{
  ℕ, ◌≡◌, refl, ap, sym, ◌∙◌, Bool, true, false, List, [], ◌∷◌, ◌++◌, Bool-cases, inl, inr,
  append_assoc, append-nil,
}
use devops_agent.Text.{
  Text, is_space, drop_spaces, all_space, drop_trailing, strip, flush, token_step, tokens_from,
  tokens,
}

-- no text, or one that begins with no space
abbrev HeadSolid : Text → Type 0
HeadSolid [] = Unit
HeadSolid (c ∷ s) = is_space c ≡ false

drop_spaces-HeadSolid : (s : Text) → HeadSolid (drop_spaces s)
unfolding drop_spaces
drop_spaces-HeadSolid [] = tt
drop_spaces-HeadSolid (c ∷ s) = elim (Bool-cases (is_space c)) [
  | inl white ↦ rw white (drop_spaces-HeadSolid s)
  | inr solid ↦ rw solid solid
]

drop_trailing-HeadSolid : (s : Text) → HeadSolid s → HeadSolid (drop_trailing s)
unfolding drop_trailing all_space
drop_trailing-HeadSolid [] h = tt
drop_trailing-HeadSolid (c ∷ s) h = rw h h

strip-HeadSolid : (s : Text) → HeadSolid (strip s)
unfolding strip
strip-HeadSolid s = drop_trailing-HeadSolid (drop_spaces s) (drop_spaces-HeadSolid s)

-- at the end of a word: nothing, or a space
unfoldable pub ends_word : Text → Bool
ends_word [] = true
ends_word (c ∷ s) = is_space c

tokens_from-head :
    (n : ℕ) (word s : Text) {first : Text} {rest : List Text}
    → tokens_from (n ∷ word) s ≡ first ∷ rest
    → (v : Text) × (r : Text) × (first ≡ (n ∷ word) ++ v) × (s ≡ v ++ r) × (ends_word r ≡ true)
unfolding ends_word tokens_from token_step flush
tokens_from-head n word [] e = ([], [], rw append-nil (cc), refl, refl)
tokens_from-head n word (c ∷ s) e = elim (Bool-cases (is_space c)) [
  | inl white ↦ ([], c ∷ s, rw append-nil (cc (rw white at e)), refl, white)
  | inr solid ↦
      let (v, r, e', f, ends) = tokens_from-head n (word ++ c ∷ []) s (rw solid at e) in
      (c ∷ v, r, e' ∙ ap (λ x. n ∷ x) (append_assoc word (c ∷ []) v), ap (λ x. c ∷ x) f, ends)
]

-- A stripped text that has a first word begins with it, and the word ends there.
pub tokens-strip :
    (s : Text) {first : Text} {rest : List Text}
    → tokens (strip s) ≡ first ∷ rest
    → (r : Text) × (strip s ≡ first ++ r) × (ends_word r ≡ true)
unfolding tokens
tokens-strip s {first} {rest} = from_solid (strip s) (strip-HeadSolid s)
  where
    from_solid :
        (t : Text)
        → HeadSolid t
        → tokens_from [] t ≡ first ∷ rest
        → (r : Text) × (t ≡ first ++ r) × (ends_word r ≡ true)
    from_solid [] solid e = cc
    from_solid (c ∷ t) solid e =
        let (v, r, e', f, ends) = tokens_from-head c [] t (rw solid at e) in
        (r, ap (λ x. c ∷ x) f ∙ sym (ap (λ x. x ++ r) e'), ends)
