-- ===== src/Whitelist/Registry/Prefix.antt =====
-- The binary that an acceptable pattern begins with is also what its matches begin with.
use devops_agent.Prelude.{
  ◌≡◌, refl, ap, ◌∙◌, Bool, true, false, ◌&&◌, not, List, [], ◌∷◌, ◌++◌, ◌==◌, arith, map, any, all,
  inl, inr, Bool-cases, or-eq-true, or-true_right, subst,
}
use devops_agent.Text.{Unicode, Text, text_eq→eq, is_in, is_in-all, is_space, strip, tokens}
use devops_agent.Text.Tokens.{ends_word, tokens-strip}
use devops_agent.Regex.Language.{Runs}
use devops_agent.Regex.Repeat.{IsLineEnd}
use devops_agent.Whitelist.{
  Item, lit, idle, item_regex, items_regex, scan_outside, scan_step, compile_from, give_up,
}
use devops_agent.Whitelist.Registry.{readonly_binary_prefixes, first_is_readonly}

-- the text begins with a word, which ends there
unfoldable pub starts_word : Text → Text → Bool
unfolding ends_word
starts_word [] s = ends_word s
starts_word (c ∷ w) [] = false
starts_word (c ∷ w) (d ∷ s) = (c == d) && starts_word w s

-- the first word of the text is one of the read-only binaries
unfoldable pub is_readonly_start : Text → Bool
unfolding starts_word
is_readonly_start s = any (λ b. starts_word b s) readonly_binary_prefixes

starts_word-append : (w s : Text) → ends_word s ≡ true → starts_word w (w ++ s) ≡ true
unfolding starts_word
starts_word-append [] s h = h
starts_word-append (c ∷ w) s h = ground (arith, starts_word-append w s h)

no_brace : Text → Bool
no_brace = all (λ c. not (c == b'{'))

compile_from-append :
    (b r : Text) → no_brace b ≡ true → compile_from idle (b ++ r) ≡ map lit b ++ compile_from idle r
unfolding no_brace all compile_from scan_step scan_outside
compile_from-append [] r h = refl
compile_from-append (c ∷ b) r h = elim (Bool-cases (c == b'{')) [
  | inl open_brace ↦ cc (rw open_brace at h)
  | inr other ↦ rw other (ap (λ x. lit c ∷ x) (compile_from-append b r (rw other at h)))
]

Runs-map_lit :
    (u : Unicode) (b : Text) (items : List Item) (s t : Text)
    → Runs (items_regex u (map lit b ++ items)) s t
    → (r : Text) × (s ≡ b ++ r) × Runs (items_regex u items) r t
unfolding items_regex item_regex
Runs-map_lit u [] items s t r = (s, refl, r)
Runs-map_lit u (c ∷ b) items s t (m, (x, e, same), r) =
    let (rest, f, left) = Runs-map_lit u b items m t r in (rest, e ∙ ground (arith, f), left)

any-is_in :
    (b s : Text) (ws : List Text)
    → is_in b ws ≡ true
    → starts_word b s ≡ true
    → any (λ w. starts_word w s) ws ≡ true
unfolding is_in any
any-is_in b s [] m h = m
any-is_in b s (w ∷ ws) m h = elim (or-eq-true _ _ m) [
  | inl same ↦ rw (← text_eq→eq b w same, h)
  | inr later ↦ or-true_right (starts_word w s) _ (any-is_in b s ws later h)
]

-- what the rest of a pattern, behind its first word, matches begins with no further part of a word
ends_word-Runs :
    (u : Unicode) (rest r t : Text)
    → ends_word rest ≡ true
    → IsLineEnd t
    → Runs (items_regex u (compile_from idle rest)) r t
    → ends_word r ≡ true
unfolding ends_word is_space compile_from give_up items_regex no_brace all
ends_word-Runs u [] r t h (inl nothing) same = rw (same ∙ nothing) refl
ends_word-Runs u [] r t h (inr newline) same = rw (same ∙ newline) refl
ends_word-Runs u (c ∷ rest) r t h end reading = elim (Bool-cases (c == b'{')) [
  | inl open_brace ↦ let is_brace : c ≡ b'{' = ground arith in cc (rw is_brace at h)
  | inr other ↦
      let one = compile_from-append (c ∷ []) rest (ground (arith, other)) in
      let (x, e, left) =
        Runs-map_lit u (c ∷ []) (compile_from idle rest) r t
          (subst (λ items. Runs (items_regex u items) r t) one reading) in
      rw e h
]

readonly-no_brace : (b : Text) → is_in b readonly_binary_prefixes ≡ true → no_brace b ≡ true
unfolding no_brace all
readonly-no_brace b m = is_in-all no_brace b readonly_binary_prefixes refl m

-- What matches the compiled form of an acceptable pattern begins with a read-only binary.
pub Runs-readonly :
    (u : Unicode) (pattern s t : Text)
    → first_is_readonly (tokens (strip pattern)) ≡ true
    → IsLineEnd t
    → Runs (items_regex u (compile_from idle (strip pattern))) s t
    → is_readonly_start s ≡ true
unfolding is_readonly_start first_is_readonly
Runs-readonly u pattern s t first end = by_tokens (tokens (strip pattern)) refl first
  where
    by_tokens :
        (ws : List Text)
        → tokens (strip pattern) ≡ ws
        → first_is_readonly ws ≡ true
        → Runs (items_regex u (compile_from idle (strip pattern))) s t
        → any (λ b. starts_word b s) readonly_binary_prefixes ≡ true
    by_tokens [] e h r = cc
    by_tokens (b ∷ ws) e h r =
        let m : is_in b readonly_binary_prefixes ≡ true = h in
        let (rest, f, ends) = tokens-strip pattern e in
        let compiled =
          ap (compile_from idle) f ∙ compile_from-append b rest (readonly-no_brace b m) in
        let (s', g, left) =
          Runs-map_lit u b (compile_from idle rest) s t
            (subst (λ items. Runs (items_regex u items) s t) compiled r) in
        any-is_in b s readonly_binary_prefixes m
          (rw g (starts_word-append b s' (ends_word-Runs u rest s' t ends end left)))
