-- ===== src/Prom/Chunks.antt =====
-- `getTimeRangesChunked` and `truncateToSecond` of pkg/operator/prestostore/query.go.
-- An instant is its count of nanoseconds since Go's zero time, from which `Truncate` counts too.
-- Durations are non-negative; a comparison of a difference is written with sums.
pub mod Trace
pub mod Shape
pub mod Total
pub mod Order
pub mod Inverted
use operator_metering.Prelude.{
  ℕ, zero, suc, ◌+◌, ◌-◌, ◌/◌, ◌%◌, Bool, true, false, ◌&&◌, ◌||◌, Option, none, some, List, [],
  ◌∷◌, ltb, ◌==◌, if◌then◌else◌,
}

abbrev pub Time : Type 0
Time = ℕ

abbrev pub Duration : Type 0
Duration = ℕ

abbrev pub second : Duration
second = 1000000000

abbrev pub minute : Duration
minute = 60000000000

-- prom.Range
pub record Range : Type 0 where
  pub start : Time
  pub end : Time
  pub step : Duration

-- `t.Truncate(time.Minute)`, whatever the name says.
abbrev pub truncate_to_second : Time → Time
truncate_to_second t = t - t % minute

-- The arguments of `getTimeRangesChunked` that the loop only reads.
pub record Chunking : Type 0 where
  pub end_time : Time
  pub chunk_size : Duration
  pub step_size : Duration
  pub allow_incomplete : Bool

-- The chunk's end as the loop body leaves it: clipped to the end time if chunks may be incomplete.
unfoldable pub clip : Chunking → Time → Time
clip c chunk_end =
    if c.allow_incomplete && ltb c.end_time chunk_end
    then truncate_to_second c.end_time
    else chunk_end

-- The `break`s before the append.
unfoldable pub stops_before : Chunking → Time → Time → Bool
stops_before c chunk_start chunk_end =
    if c.allow_incomplete
    then chunk_end == chunk_start
    else (ltb c.end_time chunk_end || ltb chunk_end (chunk_start + c.chunk_size))

-- The `break` after the append.
unfoldable pub stops_after : Chunking → Time → Bool
stops_after c chunk_end = c.allow_incomplete && chunk_end == truncate_to_second c.end_time

unfoldable pub next_start : Chunking → Time → Time
next_start c chunk_end = truncate_to_second (chunk_end + c.step_size)

unfoldable pub next_end : Chunking → Time → Time
next_end c chunk_start = truncate_to_second (chunk_start + c.chunk_size)

-- int64: `neg n` is -(n + 1).
pub data Int64 : Type 0 where
  pos : ℕ → Int64
  neg : ℕ → Int64

-- The rounds that the `for` condition allows; `none` if the limit is disabled.
unfoldable pub rounds : Int64 → Option ℕ
rounds (pos zero) = none
rounds (pos (suc n)) = some (suc n)
rounds (neg n) = none

abbrev pub spent : Option ℕ → Bool
spent none = false
spent (some zero) = true
spent (some (suc n)) = false

abbrev pub spend : Option ℕ → Option ℕ
spend none = none
spend (some zero) = some zero
spend (some (suc n)) = some n

abbrev pub prepend : Range → Option (List Range) → Option (List Range)
prepend r none = none
prepend r (some rs) = some (r ∷ rs)

-- The loop, for at most `fuel` rounds; `none` means that it was still running.
unfoldable pub chunk_loop : ℕ → Chunking → Option ℕ → Time → Time → Option (List Range)
unfolding clip stops_before stops_after next_start next_end
chunk_loop zero c left chunk_start chunk_end = none
chunk_loop (suc fuel) c left chunk_start chunk_end =
    let chunk_end' = clip c chunk_end in
    let start' = next_start c chunk_end' in
    let rest = chunk_loop fuel c (spend left) start' (next_end c start') in
    let range : Range = record { start = chunk_start; end = chunk_end'; step = c.step_size } in
    let more = if stops_after c chunk_end' then some (range ∷ []) else prepend range rest in
    if spent left then some [] else if stops_before c chunk_start chunk_end' then some [] else more

-- Rounds enough for the loop: one more than the limit; with no limit, one for each minute up to the
-- end time, since a round moves the chunk's end by a minute at least, unless chunks are shorter.
abbrev pub enough_rounds : Option ℕ → Time → ℕ
enough_rounds (some n) end_time = suc n
enough_rounds none end_time = end_time / minute + 2

unfoldable pub get_time_ranges_chunked : Time → Chunking → Int64 → Option (List Range)
unfolding chunk_loop rounds
get_time_ranges_chunked begin_time c max_time_ranges =
    let chunk_start = truncate_to_second begin_time in
    let limit = rounds max_time_ranges in
    chunk_loop (enough_rounds limit c.end_time) c limit chunk_start (next_end c chunk_start)
