-- ===== src/Prom/Chunks/Inverted.antt =====
-- A step that jumps past the end time: `getTimeRangesChunked` of pkg/operator/prestostore/query.go
-- then queries a range that ends before it starts.
use operator_metering.Prelude.{
  ℕ, ◌+◌, ◌<◌, ◌≡◌, refl, true, false, Option, some, List, [], ◌∷◌, arith,
}
use operator_metering.Prom.Chunks.{
  Time, Range, Chunking, Int64, truncate_to_second, clip, stops_before, stops_after, next_start,
  next_end, spent, spend, rounds, get_time_ranges_chunked,
}
use operator_metering.Prom.Chunks.Trace.{
  Rounds, out_of_rounds, stopped, final, round, start_after, range_of, chunk_loop-Rounds,
}

module _ (c : Chunking) (s : Time) where
  abbrev first_end : Time
  first_end = truncate_to_second (s + c.chunk_size)

  abbrev second_start : Time
  second_start = truncate_to_second (first_end + c.step_size)

-- Incomplete chunks are allowed, the first chunk is a full one, and a step from its end
-- the end time is passed by a minute or more.
pub record Overshoots (c : Chunking) (s : Time) : Type 0 where
  pub incomplete : c.allow_incomplete ≡ true
  pub nonempty : s < first_end c s
  pub first_fits : first_end c s < truncate_to_second c.end_time
  pub second_late : truncate_to_second c.end_time < second_start c s
  pub second_ends_late : c.end_time < truncate_to_second (second_start c s + c.chunk_size)

module _ (c : Chunking) (s : Time) (h : Overshoots c s) where
  first_clip : clip c (next_end c s) ≡ first_end c s
  unfolding clip next_end
  first_clip = ground arith

  first_runs : stops_before c s (clip c (next_end c s)) ≡ false
  unfolding clip next_end stops_before
  first_runs = ground arith

  first_goes_on : stops_after c (clip c (next_end c s)) ≡ false
  unfolding clip next_end stops_after
  first_goes_on = ground arith

  first_next : start_after c (next_end c s) ≡ second_start c s
  unfolding next_start
  first_next = ground (arith, first_clip)

  second_clip : clip c (next_end c (start_after c (next_end c s))) ≡ truncate_to_second c.end_time
  second_clip = rw first_next (unfold clip next_end in ground arith)

  second_runs :
      stops_before c
        (start_after c (next_end c s))
        (clip c (next_end c (start_after c (next_end c s))))
      ≡ false
  second_runs = rw (second_clip, first_next) (unfold stops_before in ground arith)

  second_stops : stops_after c (clip c (next_end c (start_after c (next_end c s)))) ≡ true
  second_stops = rw second_clip (unfold stops_after in ground arith)

  inverted_pair : List Range
  inverted_pair =
      range_of c s (next_end c s)
      ∷ range_of c (start_after c (next_end c s)) (next_end c (start_after c (next_end c s)))
      ∷ []

  second-Rounds :
      {left : Option ℕ} {rs : List Range}
      → Rounds c left (start_after c (next_end c s)) (next_end c (start_after c (next_end c s))) rs
      → spent left ≡ false
      → rs
        ≡ range_of c (start_after c (next_end c s)) (next_end c (start_after c (next_end c s))) ∷ []
  second-Rounds (out_of_rounds m) k = cc
  second-Rounds (stopped b) k = cc (second_runs)
  second-Rounds (final m nb a) k = refl
  second-Rounds (round m nb na rest) k = cc (second_stops)

  first-Rounds :
      {left : Option ℕ} {rs : List Range}
      → Rounds c left s (next_end c s) rs
      → spent left ≡ false
      → spent (spend left) ≡ false
      → rs ≡ inverted_pair
  unfolding inverted_pair
  first-Rounds (out_of_rounds m) k l = cc
  first-Rounds (stopped b) k l = cc (first_runs)
  first-Rounds (final m nb a) k l = cc (first_goes_on)
  first-Rounds (round m nb na rest) k l = cc (second-Rounds rest l)

-- With incomplete chunks allowed, if the first chunk is full and ends before the truncated end time,
-- a step from there passes the truncated end time, and two rounds are allowed, then the function
-- returns two ranges, and the second one starts after it ends.
pub ranges-inverted :
    (begin_time : Time) (c : Chunking) (max : Int64) (rs : List Range)
    → Overshoots c (truncate_to_second begin_time)
    → spent (rounds max) ≡ false
    → spent (spend (rounds max)) ≡ false
    → get_time_ranges_chunked begin_time c max ≡ some rs
    → (r : Range) × (r' : Range) × (rs ≡ r ∷ r' ∷ []) × (r'.end < r'.start)
unfolding get_time_ranges_chunked inverted_pair
ranges-inverted begin_time c max rs h k l eq =
    let t = truncate_to_second begin_time in
    let d = chunk_loop-Rounds _ c (rounds max) t (next_end c t) eq in
    (_, _, first-Rounds c t h d k l, rw (second_clip c t h, first_next c t h) h.second_late)
