-- ===== src/Queue/Backoff.antt =====
-- `backoff` and `traceIdFromTraceparent` of worker/src/queue.ts.
pub mod Laws
use price_scout.Base.{ℕ, ◌*◌, ◌^◌, min, Bool, true, false, ◌||◌, Option, none, some, take, drop}
use price_scout.Base.{if◌then◌else◌}
use price_scout.Base.Text.{Text, codes, in_range, is_digit}
use price_scout.Regex.{Regex, unit, seq, at_start, at_end, not_ahead, exactly, times, test}

unfoldable pub backoff : ℕ → ℕ
backoff redelivery_count = min 60000 (1000 * 2 ^ min redelivery_count 6)

abbrev pub is_hex : ℕ → Bool
is_hex c = is_digit c || in_range b'a' b'f' c

abbrev zeros : ℕ → Regex
zeros n = times n (exactly (codes "0"))

abbrev hex : ℕ → Regex
hex n = times n (unit is_hex)

abbrev pub traceparent : Regex
traceparent = seq at_start (
    seq (exactly (codes "00-")) (
      seq (not_ahead (zeros 32)) (
        seq (hex 32) (
          seq (exactly (codes "-")) (
            seq (not_ahead (zeros 16))
              (seq (hex 16) (seq (exactly (codes "-")) (seq (hex 2) at_end))))))))

-- The captured group is the 32 units behind "00-".
unfoldable pub trace_id : Option Text → Option Text
unfolding test
trace_id none = none
trace_id (some header) = if test traceparent header then some (take 32 (drop 3 header)) else none
