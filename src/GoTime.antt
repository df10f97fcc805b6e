-- ===== src/GoTime.antt =====
-- What the source uses of Go's `time.Time` and `time.Duration`: the seconds since the year 1 as an
-- `int64`, and nanoseconds below 10^9. `time.Unix` and `Time.Unix` wrap around at the ends of `int64`.
use lcp_go.Common.{
  ℕ, suc, ◌+◌, ◌-◌, ◌/◌, ◌%◌, ◌<◌, ◌≡◌, Bool, true, false, arith, ltb, leb, bool_eq, if◌then◌else◌,
}
use lcp_go.Common.Int.{
  ℤ, pos, negsuc, ltb_ℤ, ◌+ℤ◌, ◌-ℤ◌, ◌*ℤ◌, bits_64, int_64, wrap_64, two_63, two_64,
}

pub record Time : Type 0 where
  pub sec : ℤ
  pub nsec : ℕ

-- the seconds from the year 1 to 1970
abbrev pub unix_to_internal : ℕ
unix_to_internal = 62135596800

abbrev pub giga : ℕ
giga = 1000000000

-- `time.Unix(sec, nsec)` for nsec in [0, 10^9)
unfoldable pub unix_time : ℤ → ℕ → Time
unfolding wrap_64 ◌+ℤ◌
unix_time s n = record { sec = wrap_64 (s +ℤ pos unix_to_internal); nsec = n }

-- `t.Unix()`
unfoldable pub unix : Time → ℤ
unfolding wrap_64 ◌-ℤ◌
unix t = wrap_64 (t.sec -ℤ pos unix_to_internal)

-- `t.UnixNano()`, which wraps too
unfoldable pub unix_nano : Time → ℤ
unfolding unix ◌+ℤ◌ ◌*ℤ◌ wrap_64
unix_nano t = wrap_64 (unix t *ℤ pos giga +ℤ pos t.nsec)

-- `t.Before(u)`
unfoldable pub before : Time → Time → Bool
before t u =
    if ltb_ℤ t.sec u.sec then true else if ltb_ℤ u.sec t.sec then false else ltb t.nsec u.nsec

-- `t.Truncate(time.Second)`
unfoldable pub truncate_second : Time → Time
truncate_second t = record t { nsec = 0 }

-- `Time.addSec`, which saturates
unfoldable pub add_sec : ℤ → ℤ → ℤ
unfolding wrap_64 ◌+ℤ◌
add_sec s d =
    let sum = wrap_64 (s +ℤ d) in
    let grows = ltb_ℤ s sum in
    let positive = ltb_ℤ (pos 0) d in
    if bool_eq grows positive
    then sum
    else if positive
    then pos (two_63 - 1)
    else negsuc (two_63 - 2)

-- `t.Add(d)` for a duration of `d` nanoseconds
unfoldable pub add_duration : Time → ℤ → Time
unfolding add_sec ◌+ℤ◌ ◌-ℤ◌
add_duration t (pos n) =
    if ltb (t.nsec + n % giga) giga
    then record { sec = add_sec t.sec (pos (n / giga)); nsec = t.nsec + n % giga }
    else record { sec = add_sec t.sec (pos (n / giga + 1)); nsec = t.nsec + n % giga - giga }
add_duration t (negsuc m) =
    let n = suc m in
    if leb (n % giga) t.nsec
    then record { sec = add_sec t.sec (pos 0 -ℤ pos (n / giga)); nsec = t.nsec - n % giga }
    else record {
      sec = add_sec t.sec (pos 0 -ℤ pos (n / giga + 1));
      nsec = t.nsec + giga - n % giga;
    }

abbrev seconds_mul : ℕ → ℤ
seconds_mul k = wrap_64 (int_64 k *ℤ pos giga)

-- `time.Duration(k) * time.Second` for a `uint64` k
unfoldable pub seconds : ℕ → ℤ
unfolding int_64 wrap_64 ◌*ℤ◌
seconds k = seconds_mul k

-- The Unix seconds put into a time come back, over the whole of `int64`.
pub unix-unix_time : (u n : ℕ) → u < two_64 → bits_64 (unix (unix_time (int_64 u) n)) ≡ u
unfolding unix unix_time int_64 bits_64
unix-unix_time u n h = ground arith
