-- ===== src/Accounts.antt =====
-- Accounts of the web interface (app/auth.py): passwords, and the browser sessions that are kept in
-- memory (no database is configured). `scrypt`, base64 and the random bytes are parameters.
pub mod Passwords
pub mod Revoked
mod Examples
use devops_agent.Prelude.{
  ℕ, Bool, true, false, ◌&&◌, ◌≡◌, Option, none, some, List, [], ◌∷◌, ◌++◌, any, keep_if, not, ◌==◌,
  if◌then◌else◌,
}
use devops_agent.Text.{Text, codes, text_eq}
use devops_agent.Dict.{Dict, lookup, insert, remove}

-- what the passwords use of `hashlib` and `base64`: a decoder gives back what was encoded, and an
-- encoded text has no `$`
pub record Crypto : Type 0 where
  pub scrypt : Text → Text → Text
  pub encode : Text → Text
  pub decode : Text → Option Text
  pub decode-encode : (bytes : Text) → decode (encode bytes) ≡ some bytes
  pub encode-no_dollar : (bytes : Text) → any (λ c. c == 36) (encode bytes) ≡ false

module _ (crypto : Crypto) where
  -- `salt` is what `secrets.token_bytes` gives
  unfoldable pub hash_password : Text → Text → Text
  hash_password salt password =
      codes "scrypt"
      ++ (36 ∷ crypto.encode salt ++ (36 ∷ crypto.encode (crypto.scrypt password salt)))

-- one step of `encoded.split("$", 2)`: the text before the first `$` and the text behind it
unfoldable pub split_dollar : Text → Option (Text × Text)
split_dollar [] = none
split_dollar (c ∷ s) =
    let rest = split_dollar s in
    if c == 36 then some ([], s) else (elim rest [ none ↦ none | (some p) ↦ some (c ∷ p.0, p.1) ])

module _ (crypto : Crypto) where
  same_digest : Text → Option Text → Option Text → Bool
  same_digest password (some salt) (some digest) = text_eq (crypto.scrypt password salt) digest
  same_digest password salt digest = false

  second_part : Text → Option (Text × Text) → Bool
  unfolding same_digest
  second_part password none = false
  second_part password (some (salt, digest)) =
      same_digest password (crypto.decode salt) (crypto.decode digest)

  first_part : Text → Option (Text × Text) → Bool
  unfolding second_part split_dollar
  first_part password none = false
  first_part password (some (name, rest)) = second_part password (split_dollar rest)

  unfoldable pub verify_password : Text → Text → Bool
  unfolding first_part
  verify_password password encoded = first_part password (split_dollar encoded)

-- `_sessions` and `_session_users`
pub record Sessions : Type 0 where
  pub tokens : List Text
  pub users : Dict Text

unfoldable pub has_token : Text → List Text → Bool
unfolding any
has_token token tokens = any (λ t. text_eq t token) tokens

unfoldable pub discard : Text → List Text → List Text
unfolding keep_if
discard token tokens = keep_if (λ t. not (text_eq t token)) tokens

-- `token` is what `secrets.token_urlsafe` gives
unfoldable pub create_session : Text → Option Text → Sessions → Sessions
unfolding has_token insert
create_session token username s =
    let tokens = if has_token token s.tokens then s.tokens else token ∷ s.tokens in
    elim username [
      | none ↦ record s { tokens = tokens }
      | (some []) ↦ record s { tokens = tokens }
      | (some (c ∷ name)) ↦ record { tokens = tokens; users = insert token (c ∷ name) s.users }
    ]

unfoldable pub valid_session : Text → Sessions → Bool
unfolding has_token
valid_session [] s = false
valid_session (c ∷ token) s = has_token (c ∷ token) s.tokens

unfoldable pub delete_session : Text → Sessions → Sessions
unfolding discard remove
delete_session [] s = s
delete_session (c ∷ token) s = record {
  tokens = discard (c ∷ token) s.tokens;
  users = remove (c ∷ token) s.users;
}

-- the tokens of a user
unfoldable pub tokens_of : Text → Dict Text → List Text
unfolding text_eq
tokens_of username [] = []
tokens_of username ((token, owner) ∷ users) =
    let rest = tokens_of username users in if text_eq owner username then token ∷ rest else rest

unfoldable pub delete_each : List Text → Sessions → Sessions
unfolding discard remove
delete_each [] s = s
delete_each (token ∷ tokens) s =
    delete_each tokens (record { tokens = discard token s.tokens; users = remove token s.users })

unfoldable pub delete_all_sessions : Text → Sessions → Sessions
unfolding tokens_of delete_each
delete_all_sessions username s = delete_each (tokens_of username s.users) s

unfoldable pub session_user : Text → Sessions → Option Text
unfolding valid_session lookup
session_user token s = if valid_session token s then lookup token s.users else none
