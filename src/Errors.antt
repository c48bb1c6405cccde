-- ===== src/Errors.antt =====
-- domain/errors.py: the error codes that the modelled code raises, and the result of a call that may
-- raise `BusinessException`. The message beside a code is text for the client and is left out.
use interview_agent_py.Prelude.{Bool, true, false}

pub data ErrorCode : Type 0 where
  bad_request internal_error : ErrorCode
  interview_session_not_found interview_question_not_found : ErrorCode
  interview_already_completed interview_question_insufficient : ErrorCode
  knowledge_base_not_found skill_not_found : ErrorCode
  knowledge_base_upload_failed knowledge_base_parse_failed storage_download_failed : ErrorCode
  voice_session_not_found provider_not_found : ErrorCode

pub data Result {ℓ} (A : Type ℓ) : Type ℓ where
  ok : A → Result A
  raise : ErrorCode → Result A

infixl 5 ◌>>=◌
abbrev pub ◌>>=◌ {ℓ κ} : {A : Type ℓ} {B : Type κ} → Result A → (A → Result B) → Result B
ok a >>= f = f a
raise e >>= f = raise e

-- `if test: raise BusinessException(code)`
abbrev pub raise_if : Bool → ErrorCode → Result (Unit {0})
raise_if true e = raise e
raise_if false e = ok tt
