-- ===== src/Message/ValidationContext.antt =====
-- light-clients/lcp/types/message.go: validation contexts, how they are decoded and checked.
use lcp_go.Common.{◌/◌, ◌%◌, Bytes, Bool, true, false, not, length, take, drop, big_endian, ◌==◌}
use lcp_go.Common.Int.{ℤ, pos, ◌+ℤ◌, ◌*ℤ◌, ltb_ℤ, int_64}
use lcp_go.Result.{
  Result, ok, panic, ◌>>=◌, ◌>>◌, reject_if, plain, after_trusting_period, header_in_future,
}
use lcp_go.GoTime.{Time, giga, unix_time, unix}
use lcp_go.Message.{AnyContext, TrustingPeriodValidationContext, empty, trusting}

abbrev pub panic_if : Bool → Result (Unit {0})
panic_if b = elim b [ true ↦ panic | false ↦ ok tt ]

unfoldable pub uint128_bytes_to_big_int : Bytes → Result ℤ
uint128_bytes_to_big_int bz = do panic_if (not (length bz == 16)); ok (pos (big_endian bz))

unfoldable pub timestamp_nanos_bytes_to_time : Bytes → Result Time
timestamp_nanos_bytes_to_time bz = do
  panic_if (not (length bz == 16))
  let timestamp_nanos = big_endian bz
  let secs = timestamp_nanos / giga
  let nanos = timestamp_nanos % giga
  ok (unix_time (int_64 secs) nanos)

unfoldable pub time_to_big_int : Time → ℤ
time_to_big_int t = unix t *ℤ pos giga +ℤ pos t.nsec

unfoldable pub decode_trusting_period_validation_context :
    Bytes → Bytes → Result TrustingPeriodValidationContext
decode_trusting_period_validation_context timestamps params = do
  untrusted_header_timestamp ← timestamp_nanos_bytes_to_time (take 16 timestamps)
  trusted_state_timestamp ← timestamp_nanos_bytes_to_time (take 16 (drop 16 timestamps))
  trusting_period ← uint128_bytes_to_big_int (take 16 params)
  clock_drift ← uint128_bytes_to_big_int (take 16 (drop 16 params))
  ok (record {
    untrusted_header_timestamp = untrusted_header_timestamp;
    trusted_state_timestamp = trusted_state_timestamp;
    trusting_period = trusting_period;
    clock_drift = clock_drift;
  })

unfoldable pub validate_trusting_period : TrustingPeriodValidationContext → Time → Result (Unit {0})
validate_trusting_period c now = do
  let current_timestamp = time_to_big_int now
  let trusted_state_timestamp = time_to_big_int c.trusted_state_timestamp
  let untrusted_header_timestamp = time_to_big_int c.untrusted_header_timestamp
  let trusting_period_end = trusted_state_timestamp +ℤ c.trusting_period
  let drifted_current_timestamp = current_timestamp +ℤ c.clock_drift
  reject_if (ltb_ℤ trusting_period_end current_timestamp) (plain after_trusting_period)
  reject_if (ltb_ℤ drifted_current_timestamp untrusted_header_timestamp) (plain header_in_future)
  ok tt

-- `ValidationContext.Validate`
unfoldable pub validate : AnyContext → Time → Result (Unit {0})
validate empty now = ok tt
validate (trusting c) now = validate_trusting_period c now
