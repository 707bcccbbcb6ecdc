-- ===== src/Server/Misc.antt =====
-- lab_2/chat/src/server/misc.c (and the same `get_tstamp` and `parse_tstamp` of
-- lab_2/chat/src/client/misc.c): ranges, times and worker ids.
use acos_chat.Base.{ℕ, ◌+◌, ◌*◌, ◌/◌, ◌%◌, ◌^◌, ◌<◌, ◌≡◌, ap₂, ◌⊎◌, if◌then◌else◌, arith}
use acos_chat.Base.Int.{ℤ, ltb_ℤ, ◌≤ℤ◌}

unfoldable pub to_range : ℤ → ℤ → ℤ → ℤ
to_range min val max = if ltb_ℤ val min then min else if ltb_ℤ max val then max else val

-- Where the minimum is at most the maximum, `to_range` returns a number of the range, and of a
-- number in the range that number.
pub to_range_bounds :
    (min val max : ℤ)
    → min ≤ℤ max
    → (min ≤ℤ to_range min val max)
      × (to_range min val max ≤ℤ max)
      × (min ≤ℤ val → val ≤ℤ max → to_range min val max ≡ val)
unfolding to_range
to_range_bounds min val max h = (ground arith, ground arith, λ a b. ground arith)

-- `tv.tv_sec << 32 | (uint32_t) tv.tv_usec` in 64 bits: the halves do not overlap.
unfoldable pub get_tstamp : ℕ → ℕ → ℕ
get_tstamp sec usec = (sec * 2 ^ 32) % 2 ^ 64 + usec % 2 ^ 32

-- `parse_tstamp`: the seconds and the microseconds.
unfoldable pub parse_tstamp : ℕ → ℕ × ℕ
parse_tstamp tstamp = (tstamp / 2 ^ 32, tstamp % 2 ^ 32)

-- For seconds below 2 ^ 32 and microseconds below a million, `parse_tstamp` of the stamp of a time
-- is the time.
pub parse_tstamp-get_tstamp :
    (sec usec : ℕ)
    → sec < 2 ^ 32
    → usec < 1000000
    → parse_tstamp (get_tstamp sec usec) ≡ (sec, usec)
unfolding parse_tstamp get_tstamp
parse_tstamp-get_tstamp sec usec h k = ap₂ (λ a b. (a, b)) (omega arith) (omega arith)

-- For seconds below 2 ^ 32 and microseconds below a million, a later time has a greater stamp.
pub get_tstamp_mono :
    (s u s' u' : ℕ)
    → s < 2 ^ 32
    → u < 1000000
    → s' < 2 ^ 32
    → u' < 1000000
    → (s < s') ⊎ ((s ≡ s') × (u < u'))
    → get_tstamp s u < get_tstamp s' u'
unfolding get_tstamp
get_tstamp_mono s u s' u' a b c d h = omega arith
