-- ===== src/Accounts/Passwords.antt =====
-- A stored password accepts the passwords with its digest, and no others.
use devops_agent.Prelude.{◌≡◌, refl, ap, ◌∙◌, false, some, [], ◌∷◌, ◌++◌, any, ◌==◌, arith}
use devops_agent.Text.{Text, text_eq}
use devops_agent.Accounts.{
  Crypto, hash_password, split_dollar, same_digest, second_part, verify_password,
}

split_dollar-append :
    (s t : Text) → any (λ c. c == 36) s ≡ false → split_dollar (s ++ (36 ∷ t)) ≡ some (s, t)
unfolding split_dollar any
split_dollar-append [] t h = refl
split_dollar-append (c ∷ s) t h =
    let here : (c == 36) ≡ false = ground arith in
    let rest : any (λ x. x == 36) s ≡ false = ground arith in
    rw (here, split_dollar-append s t rest) refl

-- A password is accepted against the stored form of another exactly when the digests of the two, under
-- the salt of the stored form, are the same.
pub verify_password-hash_password :
    (crypto : Crypto) (salt stored password : Text)
    → verify_password crypto password (hash_password crypto salt stored)
      ≡ text_eq (crypto.scrypt password salt) (crypto.scrypt stored salt)
unfolding verify_password hash_password
verify_password-hash_password crypto salt stored password =
    let digest = crypto.scrypt stored salt in
    let split =
      split_dollar-append (crypto.encode salt) (crypto.encode digest)
        (crypto.encode-no_dollar salt) in
    ap (second_part crypto password) split
    ∙ ap (λ s. same_digest crypto password s (crypto.decode (crypto.encode digest)))
        (crypto.decode-encode salt)
    ∙ ap (same_digest crypto password (some salt)) (crypto.decode-encode digest)
