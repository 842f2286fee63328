-- ===== src/Protocol/Identity.antt =====
-- protocol/identity.go and the roles of protocol/capability.go: native identifiers, digests, roles.
use mission_control_edge.Common.{
  ◌||◌, not, ltb, eqb, length, all_of, is_empty, take, drop, ◌==◌, bytes_eq, Bytes, bytes, Check,
  ◌>>◌, reject_if,
}
use mission_control_edge.Protocol.Error.{GoError, plain}
use mission_control_edge.Protocol.Text.{is_digit, is_upper, between, utf8_valid, has_breaks}

-- The method `Validate` of `NativeID`.
unfoldable pub validate_native_id : Bytes → Check GoError
unfolding utf8_valid
validate_native_id value = do
  reject_if (is_empty value) (plain "native_id is required")
  reject_if (ltb 1024 (length value) || not (utf8_valid value) || has_breaks value)
      (plain "native_id is invalid")

-- The method `Validate` of `Digest`. Among ASCII texts `strings.ToLower` changes the upper-case
-- letters; a text with other bytes is refused by one of the last two tests.
unfoldable pub validate_digest : Bytes → Check GoError
validate_digest value = do
  reject_if (not (take 7 value == bytes "sha256:")) (plain "digest must use sha256")
  let hex = drop 7 value
  reject_if (not (eqb (length hex) 64) || not (all_of (λ b. not (is_upper b)) hex))
      (plain "digest must contain 64 lowercase hexadecimal characters")
  reject_if (not (all_of (λ b. is_digit b || between b'a' b'f' b || between b'A' b'F' b) hex))
      (plain "digest is invalid")

abbrev pub role_provider : Bytes
role_provider = bytes "provider"

abbrev pub role_agent_harness : Bytes
role_agent_harness = bytes "agent-harness"

abbrev pub role_session_runtime : Bytes
role_session_runtime = bytes "session-runtime"

abbrev pub role_execution_environment : Bytes
role_execution_environment = bytes "execution-environment"

abbrev pub role_orchestration : Bytes
role_orchestration = bytes "orchestration"

-- The method `Validate` of `ProviderRole`.
unfoldable pub validate_role : Bytes → Check GoError
validate_role r =
    reject_if
      (not (
        r == role_provider
        || r == role_agent_harness
        || r == role_session_runtime
        || r == role_execution_environment
        || r == role_orchestration))
      (plain "provider role is unsupported")
