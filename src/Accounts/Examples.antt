-- ===== src/Accounts/Examples.antt =====
-- The theorems of the accounts at a concrete password and concrete sessions.
use devops_agent.Prelude.{◌+◌, ◌-◌, ◌≡◌, refl, ap, false, some, [], ◌∷◌, ◌++◌, any, ◌==◌, arith}
use devops_agent.Text.{Text, codes, text_eq}
use devops_agent.Dict.{lookup}
use devops_agent.Accounts.{
  Crypto, hash_password, verify_password, Sessions, valid_session, delete_all_sessions,
}
use devops_agent.Accounts.Passwords.{verify_password-hash_password}
use devops_agent.Accounts.Revoked.{valid_session-delete_all_sessions}

-- an encoding that shifts every code above the one of `$`
abbrev shift_up : Text → Text
shift_up [] = []
shift_up (c ∷ s) = (c + 37) ∷ shift_up s

abbrev shift_down : Text → Text
shift_down [] = []
shift_down (c ∷ s) = (c - 37) ∷ shift_down s

shift_down-shift_up : (s : Text) → shift_down (shift_up s) ≡ s
shift_down-shift_up [] = refl
shift_down-shift_up (c ∷ s) =
    let here : (c + 37) - 37 ≡ c = omega arith in rw (here, shift_down-shift_up s) refl

shift_up-no_dollar : (s : Text) → any (λ c. c == 36) (shift_up s) ≡ false
unfolding any
shift_up-no_dollar [] = refl
shift_up-no_dollar (c ∷ s) = ground (arith, shift_up-no_dollar s)

abbrev crypto : Crypto
crypto = record {
  scrypt = λ password salt. password ++ salt;
  encode = shift_up;
  decode = λ s. some (shift_down s);
  decode-encode = λ s. ap some (shift_down-shift_up s);
  encode-no_dollar = shift_up-no_dollar;
}

verify_password-hash_password_example :
    verify_password crypto (codes "guess") (hash_password crypto (codes "s1") (codes "secret"))
    ≡ text_eq
        (crypto.scrypt (codes "guess") (codes "s1"))
        (crypto.scrypt (codes "secret") (codes "s1"))
verify_password-hash_password_example =
    verify_password-hash_password crypto (codes "s1") (codes "secret") (codes "guess")

abbrev two_users : Sessions
two_users = record {
  tokens = codes "t1" ∷ codes "t2" ∷ [];
  users = (codes "t1", codes "ann") ∷ (codes "t2", codes "bob") ∷ [];
}

valid_session-delete_all_sessions_example :
    valid_session (codes "t2") (delete_all_sessions (codes "bob") two_users) ≡ false
unfolding lookup text_eq
valid_session-delete_all_sessions_example =
    valid_session-delete_all_sessions (codes "bob") (codes "t2") two_users refl
