-- ===== src/Message/TrustingPeriod.antt =====
-- The trusting period: what is decoded from 64 bytes, and when it is accepted.
use lcp_go.Common.{
  ℕ, ◌/◌, ◌%◌, ◌<◌, ◌≡◌, ◌↔◌, refl, subst, Bytes, length, take, drop, big_endian, length-take,
  length-drop, arith,
}
use lcp_go.Common.Int.{ℤ, pos, ◌+ℤ◌, ◌*ℤ◌, ◌≤ℤ◌, ltb_ℤ, int_64, two_63}
use lcp_go.Result.{ok, ◌>>◌, reject_if, plain, after_trusting_period, header_in_future}
use lcp_go.GoTime.{Time, giga, unix_time, unix}
use lcp_go.Message.{TrustingPeriodValidationContext}
use lcp_go.Message.ValidationContext.{
  uint128_bytes_to_big_int, timestamp_nanos_bytes_to_time, time_to_big_int,
  decode_trusting_period_validation_context, validate_trusting_period,
}

unix-unix_time_pos : (n k : ℕ) → n < two_63 → unix (unix_time (pos n) k) ≡ pos n
unfolding unix unix_time
unix-unix_time_pos n k h = ground arith

int_64-pos : (n : ℕ) → n < two_63 → int_64 n ≡ pos n
unfolding int_64
int_64-pos n h = ground arith

pos_regroup : (n : ℕ) → pos (n / giga) *ℤ pos giga +ℤ pos (n % giga) ≡ pos n
unfolding ◌+ℤ◌ ◌*ℤ◌
pos_regroup n = ground arith

-- Seconds and nanoseconds below 2^63 seconds stand for the number that they were split from.
time_of_nanos :
    (n : ℕ) → n / giga < two_63 → time_to_big_int (unix_time (int_64 (n / giga)) (n % giga)) ≡ pos n
unfolding time_to_big_int unix_time
time_of_nanos n h =
    rw (int_64-pos (n / giga) h) (rw (unix-unix_time_pos (n / giga) (n % giga) h) (pos_regroup n))

-- The timestamp that 16 bytes stand for, in nanoseconds since 1970, is the number that they write in
-- big-endian order.
time_of_bytes :
    (bz : Bytes)
    → length bz ≡ 16
    → big_endian bz / giga < two_63
    → (t : Time) × (timestamp_nanos_bytes_to_time bz ≡ ok t)
      × (time_to_big_int t ≡ pos (big_endian bz))
unfolding timestamp_nanos_bytes_to_time
time_of_bytes bz h small = (
  unix_time (int_64 (big_endian bz / giga)) (big_endian bz % giga),
  rw h refl,
  time_of_nanos (big_endian bz) small,
)

-- A header is accepted exactly when the current time is at most the trusted time plus the trusting
-- period, and the header's time is at most the current time plus the clock drift.
validate_trusting_period_iff :
    (c : TrustingPeriodValidationContext) (now : Time)
    → (validate_trusting_period c now ≡ ok tt) ↔ (
        (time_to_big_int now ≤ℤ time_to_big_int c.trusted_state_timestamp +ℤ c.trusting_period)
        × (time_to_big_int c.untrusted_header_timestamp ≤ℤ time_to_big_int now +ℤ c.clock_drift))
unfolding validate_trusting_period
validate_trusting_period_iff c now =
    guards (time_to_big_int c.trusted_state_timestamp +ℤ c.trusting_period) (time_to_big_int now)
      (time_to_big_int now +ℤ c.clock_drift) (time_to_big_int c.untrusted_header_timestamp)
  where
    guards :
        (a b c' d : ℤ)
        → ((do
          reject_if (ltb_ℤ a b) (plain after_trusting_period)
          reject_if (ltb_ℤ c' d) (plain header_in_future)
          ok (tt {0}))
            ≡ ok (tt {0}))
          ↔ ((b ≤ℤ a) × (d ≤ℤ c'))
    guards a b c' d = ground arith

-- the number in 16 bytes of a 32-byte word
abbrev pub first_half : Bytes → ℕ
first_half w = big_endian (take 16 w)

abbrev pub second_half : Bytes → ℕ
second_half w = big_endian (take 16 (drop 16 w))

length-first_half : (w : Bytes) → length w ≡ 32 → length (take 16 w) ≡ 16
length-first_half w h = omega (arith, length-take 16 w)

length-second_half : (w : Bytes) → length w ≡ 32 → length (take 16 (drop 16 w)) ≡ 16
length-second_half w h = omega (arith, length-take 16 (drop 16 w), length-drop 16 w)

-- From the two words of a context, whose times are below 2^63 seconds, decoding succeeds, and the
-- context holds at a time `now` exactly when, in nanoseconds as integers, `now` is at most the second
-- half of the first word plus the first half of the second, and the first half of the first word is
-- at most `now` plus the second half of the second.
pub decode-validate_trusting_period :
    (timestamps params : Bytes) (now : Time)
    → length timestamps ≡ 32
    → length params ≡ 32
    → first_half timestamps / giga < two_63
    → second_half timestamps / giga < two_63
    → (c : TrustingPeriodValidationContext) × (decode_trusting_period_validation_context timestamps
          params
        ≡ ok c)
      × ((validate_trusting_period c now ≡ ok tt) ↔ (
          (time_to_big_int now ≤ℤ pos (second_half timestamps) +ℤ pos (first_half params))
          × (pos (first_half timestamps) ≤ℤ time_to_big_int now +ℤ pos (second_half params))))
unfolding decode_trusting_period_validation_context uint128_bytes_to_big_int
decode-validate_trusting_period timestamps params now lt lp a b =
    let (t1, d1, e1) = time_of_bytes (take 16 timestamps) (length-first_half timestamps lt) a in
    let (t2, d2, e2) =
      time_of_bytes (take 16 (drop 16 timestamps)) (length-second_half timestamps lt) b in
    let c : TrustingPeriodValidationContext = record {
      untrusted_header_timestamp = t1;
      trusted_state_timestamp = t2;
      trusting_period = pos (first_half params);
      clock_drift = pos (second_half params);
    } in
    (
      c,
      rw d1 (rw d2 (rw (length-first_half params lp) (rw (length-second_half params lp) refl))),
      subst
          (λ (z : ℤ × ℤ). (validate_trusting_period c now ≡ ok tt) ↔ (
            (time_to_big_int now ≤ℤ z.1 +ℤ pos (first_half params))
            × (z.0 ≤ℤ time_to_big_int now +ℤ pos (second_half params))))
          (λ i. (e1 i, e2 i)) (validate_trusting_period_iff c now),
    )
