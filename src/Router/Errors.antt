-- ===== src/Router/Errors.antt =====
-- Classification of a provider's error (app/llm_router.py, `_classify_error`).
use devops_agent.Prelude.{Bool, true, false, not, List, [], ◌∷◌, any, ◌==◌, if◌then◌else◌}
use devops_agent.Text.{Text, Unicode, codes, found_in, lower_text}
use devops_agent.Regex.{Regex, seq, star, lits, search_in}

unfoldable pub failover_errors : List Text
failover_errors =
    codes "rate_limit"
    ∷ codes "rate_limit_exceeded"
    ∷ codes "tokens_per_minute"
    ∷ codes "requests_per_minute"
    ∷ codes "quota_exceeded"
    ∷ codes "429"
    ∷ codes "timeout"
    ∷ codes "connection_error"
    ∷ codes "connection_timeout"
    ∷ codes "connect_timeout"
    ∷ codes "server_error"
    ∷ codes "500"
    ∷ codes "502"
    ∷ codes "503"
    ∷ codes "504"
    ∷ codes "model_not_found"
    ∷ codes "model_unavailable"
    ∷ codes "model_overloaded"
    ∷ codes "provider_unavailable"
    ∷ codes "temporarily_unavailable"
    ∷ codes "overloaded"
    ∷ codes "capacity"
    ∷ codes "tool use"
    ∷ codes "tool_use"
    ∷ codes "tool calling"
    ∷ codes "tool_calling"
    ∷ codes "does not support tools"
    ∷ codes "tools are not supported"
    ∷ codes "model does not support"
    ∷ codes "unsupported tool"
    ∷ codes "unsupported parameter"
    ∷ codes "no endpoints found that support"
    ∷ []

unfoldable pub non_retryable_errors : List Text
non_retryable_errors =
    codes "authentication"
    ∷ codes "auth"
    ∷ codes "invalid_api_key"
    ∷ codes "unauthorized"
    ∷ codes "invalid_request"
    ∷ codes "bad_request"
    ∷ codes "malformed"
    ∷ []

unfoldable pub model_unavailable_patterns : List Text
model_unavailable_patterns =
    codes "model_not_found"
    ∷ codes "model_unavailable"
    ∷ codes "model_overloaded"
    ∷ codes "model not found"
    ∷ codes "model unavailable"
    ∷ codes "model does not exist"
    ∷ codes "does not exist"
    ∷ codes "model access unavailable"
    ∷ []

-- `MODEL_UNAVAILABLE_REGEX`
unfoldable pub model_unavailable_regex : List Regex
unfolding lits
model_unavailable_regex =
    let gap : Regex = star (λ c. not (c == 10)) in
    seq (lits (codes "model")) (seq gap (lits (codes "not found")))
    ∷ seq (lits (codes "model")) (seq gap (lits (codes "does not exist")))
    ∷ []

pub data ErrorClass : Type 0 where
  failover non_retryable unknown : ErrorClass

abbrev mentions : Text → List Text → Bool
mentions message patterns = any (λ pattern. found_in pattern message) patterns

unfoldable pub classify_lower : Text → ErrorClass
unfolding failover_errors non_retryable_errors model_unavailable_patterns model_unavailable_regex
    found_in search_in any
classify_lower message =
    if mentions message model_unavailable_patterns
    then failover
    else (if any (λ pattern. search_in pattern message) model_unavailable_regex
        then failover
        else (if mentions message failover_errors
            then failover
            else (if mentions message non_retryable_errors then non_retryable else unknown)))

unfoldable pub classify_error : Unicode → Text → ErrorClass
unfolding classify_lower
classify_error u error_msg = classify_lower (lower_text u error_msg)

-- `retryable` in `record_failure` of `chat`
unfoldable pub is_retryable : ErrorClass → Bool
is_retryable non_retryable = false
is_retryable _ = true
