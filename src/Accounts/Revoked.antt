-- ===== src/Accounts/Revoked.antt =====
-- Sessions that are deleted are valid no more.
use devops_agent.Prelude.{
  ◌≡◌, refl, sym, ap, ◌∙◌, true, false, some, List, [], ◌∷◌, any, keep_if, arith, if_true, if_false,
  Bool-cases, inl, inr,
}
use devops_agent.Text.{Text, text_eq, text_eq→eq, text_eq_refl}
use devops_agent.Dict.{Dict, lookup}
use devops_agent.Accounts.{
  Sessions, has_token, discard, valid_session, tokens_of, delete_each, delete_all_sessions,
}

has_token-discard_self : (t : Text) (ts : List Text) → has_token t (discard t ts) ≡ false
unfolding has_token discard any keep_if
has_token-discard_self t [] = refl
has_token-discard_self t (k ∷ ts) = ground (arith, has_token-discard_self t ts)

has_token-discard_other :
    (t k : Text) (ts : List Text) → has_token t ts ≡ false → has_token t (discard k ts) ≡ false
unfolding has_token discard any keep_if
has_token-discard_other t k [] h = refl
has_token-discard_other t k (x ∷ ts) h =
    let rest : has_token t ts ≡ false = ground arith in
    ground (arith, has_token-discard_other t k ts rest)

delete_each-absent :
    (tokens : List Text) (t : Text) (s : Sessions)
    → has_token t s.tokens ≡ false
    → has_token t (delete_each tokens s).tokens ≡ false
unfolding delete_each
delete_each-absent [] t s h = h
delete_each-absent (k ∷ tokens) t s h =
    delete_each-absent tokens t _ (has_token-discard_other t k s.tokens h)

delete_each-gone :
    (tokens : List Text) (t : Text) (s : Sessions)
    → has_token t tokens ≡ true
    → has_token t (delete_each tokens s).tokens ≡ false
unfolding delete_each has_token any
delete_each-gone [] t s h = cc
delete_each-gone (k ∷ tokens) t s h = elim (Bool-cases (text_eq k t)) [
  | inl same ↦ delete_each-absent tokens t _ (
      ap (λ x. has_token t (discard x s.tokens)) (text_eq→eq k t same)
      ∙ has_token-discard_self t s.tokens)
  | inr other ↦
      let later : has_token t tokens ≡ true = ground arith in delete_each-gone tokens t _ later
]

tokens_of-owned :
    (username t : Text) (users : Dict Text)
    → lookup t users ≡ some username
    → has_token t (tokens_of username users) ≡ true
unfolding tokens_of lookup has_token any
tokens_of-owned username t [] h = cc
tokens_of-owned username t ((k, owner) ∷ users) h = elim (Bool-cases (text_eq k t)) [
  | inl same ↦
      let this : some owner ≡ some username = sym (if_true _ _ same) ∙ h in
      let is_owner : owner ≡ username = cc in
      let own : text_eq owner username ≡ true =
        ap (λ o. text_eq o username) is_owner ∙ text_eq_refl username in
      ground arith
  | inr other ↦
      let rest = tokens_of-owned username t users (sym (if_false _ _ other) ∙ h) in ground arith
]

-- When all sessions of a user are deleted, no session of that user is valid.
pub valid_session-delete_all_sessions :
    (username t : Text) (s : Sessions)
    → lookup t s.users ≡ some username
    → valid_session t (delete_all_sessions username s) ≡ false
unfolding valid_session delete_all_sessions
valid_session-delete_all_sessions username [] s h = refl
valid_session-delete_all_sessions username (c ∷ t) s h =
    delete_each-gone (tokens_of username s.users) (c ∷ t) s
      (tokens_of-owned username (c ∷ t) s.users h)
