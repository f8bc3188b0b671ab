-- ===== src/Prom/Chunks/Order.antt =====
-- When the time ranges of pkg/operator/prestostore/query.go run forwards, and what they cover.
use operator_metering.Prelude.{
  ℕ, ◌+◌, ◌≤◌, ◌<◌, ◌≡◌, refl, some, true, false, ◌⊎◌, Option, none, List, [], ◌∷◌, arith, All,
  Chain,
}
use operator_metering.Prom.Chunks.{
  Time, minute, Range, Chunking, Int64, truncate_to_second, clip, stops_before, stops_after,
  next_start, next_end, rounds, get_time_ranges_chunked,
}
use operator_metering.Prom.Chunks.Trace.{
  Rounds, out_of_rounds, stopped, final, round, start_after, chunk_loop-Rounds,
}
use operator_metering.Prom.Chunks.Shape.{
  IsAligned, IsWithin, Follows, truncate-IsAligned, next_end-IsAligned, next_end-ge,
  start_after-IsAligned, ranges-IsWithin,
}

-- Incomplete chunks with a step of at most a minute, or full chunks of a positive size.
abbrev pub RunsForward : Chunking → Type 0
RunsForward c =
    (c.allow_incomplete ≡ true) × (c.step_size ≤ minute)
    ⊎ (c.allow_incomplete ≡ false) × (0 < c.chunk_size)

abbrev pub Forward : Range → Type 0
Forward r = r.start < r.end

-- The start is not past the truncated end time, if chunks may be incomplete.
abbrev IsBehind : Chunking → Time → Type 0
IsBehind c s = c.allow_incomplete ≡ true → s ≤ truncate_to_second c.end_time

clip-gt :
    (c : Chunking) (s e : Time)
    → RunsForward c
    → IsAligned s
    → IsBehind c s
    → s ≤ e
    → stops_before c s (clip c e) ≡ false
    → s < clip c e
unfolding clip stops_before
clip-gt c s e h a b l nb = ground arith

start_after-IsBehind :
    (c : Chunking) (s e : Time)
    → RunsForward c
    → IsAligned e
    → stops_before c s (clip c e) ≡ false
    → stops_after c (clip c e) ≡ false
    → IsBehind c (start_after c e)
unfolding clip stops_before stops_after next_start
start_after-IsBehind c s e h a nb na = ground arith

Rounds-Forward :
    (c : Chunking) {left : Option ℕ} {s e : Time} {rs : List Range}
    → RunsForward c
    → Rounds c left s e rs
    → IsAligned s
    → IsBehind c s
    → e ≡ next_end c s
    → All Forward rs
Rounds-Forward c h (out_of_rounds _) a b q = tt
Rounds-Forward c h (stopped _) a b q = tt
Rounds-Forward c h (final {s = s} {e = e} m nb sa) a b q =
    (clip-gt c s e h a b (omega (arith, next_end-ge c s a, q)) nb, tt)
Rounds-Forward c h (round {s = s} {e = e} m nb na rest) a b q =
    let al : IsAligned e = omega (arith, next_end-IsAligned c s, q) in
    (
      clip-gt c s e h a b (omega (arith, next_end-ge c s a, q)) nb,
      Rounds-Forward c h rest (start_after-IsAligned c e) (start_after-IsBehind c s e h al nb na)
          refl,
    )

-- If the begin time is not after the end time and the step is at most a minute, or only full chunks
-- of a positive size are asked for, every range ends after it starts.
pub ranges-Forward :
    (begin_time : Time) (c : Chunking) (max : Int64) (rs : List Range)
    → begin_time ≤ c.end_time
    → RunsForward c
    → get_time_ranges_chunked begin_time c max ≡ some rs
    → All Forward rs
unfolding get_time_ranges_chunked
ranges-Forward begin_time c max rs b h eq =
    let t = truncate_to_second begin_time in
    Rounds-Forward c h (chunk_loop-Rounds _ c (rounds max) t (next_end c t) eq)
      (truncate-IsAligned begin_time) (λ _. omega arith) refl

-- `r'` starts after `r` ends, and no more than a step after.
abbrev pub Apart : Chunking → Range → Range → Type 0
Apart c r r' = (r.end < r'.start) × (r'.start ≤ r.end + c.step_size)

-- `r'` queries the instant again at which `r` ended.
abbrev pub Touches : Range → Range → Type 0
Touches r r' = r'.start ≡ r.end

Follows-Apart :
    (c : Chunking) (from : Time) (rs : List Range)
    → minute ≤ c.step_size
    → All (IsWithin c from) rs
    → Chain (Follows c) rs
    → Chain (Apart c) rs
Follows-Apart c from [] h w f = tt
Follows-Apart c from (r ∷ []) h w f = tt
Follows-Apart c from (r ∷ (r' ∷ rs)) h w f =
    ((omega (arith, w.0.end_aligned), omega arith), Follows-Apart c from (r' ∷ rs) h w.1 f.1)

Follows-Touches :
    (c : Chunking) (from : Time) (rs : List Range)
    → c.step_size < minute
    → All (IsWithin c from) rs
    → Chain (Follows c) rs
    → Chain Touches rs
Follows-Touches c from [] h w f = tt
Follows-Touches c from (r ∷ []) h w f = tt
Follows-Touches c from (r ∷ (r' ∷ rs)) h w f =
    (omega (arith, w.0.end_aligned), Follows-Touches c from (r' ∷ rs) h w.1 f.1)

-- With a step of a minute or more no instant lies in two neighbouring ranges, and at most a step is
-- left out between them.
pub ranges-Apart :
    (begin_time : Time) (c : Chunking) (max : Int64) (rs : List Range)
    → minute ≤ c.step_size
    → get_time_ranges_chunked begin_time c max ≡ some rs
    → Chain (Apart c) rs
ranges-Apart begin_time c max rs h eq =
    let (w, f, _) = ranges-IsWithin begin_time c max rs eq in Follows-Apart c _ rs h w f

-- With a step below a minute every range queries the end of the range before it once more.
pub ranges-Touches :
    (begin_time : Time) (c : Chunking) (max : Int64) (rs : List Range)
    → c.step_size < minute
    → get_time_ranges_chunked begin_time c max ≡ some rs
    → Chain Touches rs
ranges-Touches begin_time c max rs h eq =
    let (w, f, _) = ranges-IsWithin begin_time c max rs eq in Follows-Touches c _ rs h w f

-- The ranges go on from `t`, each from the end of the last plus the step, truncated to the minute, until the truncated end time is reached.
abbrev pub Covers : Chunking → Time → List Range → Type 0
Covers c t [] = truncate_to_second c.end_time ≤ t
Covers c t (r ∷ rs) = (r.start ≡ t) × Covers c (truncate_to_second (r.end + c.step_size)) rs

stopped_at_end :
    (c : Chunking) (s : Time)
    → c.allow_incomplete ≡ true
    → minute ≤ c.chunk_size
    → IsAligned s
    → stops_before c s (clip c (next_end c s)) ≡ true
    → truncate_to_second c.end_time ≤ s
unfolding clip stops_before next_end
stopped_at_end c s h k a sb = ground arith

final_at_end :
    (c : Chunking) (e : Time)
    → stops_after c (clip c e) ≡ true
    → truncate_to_second c.end_time ≤ truncate_to_second (clip c e + c.step_size)
unfolding stops_after
final_at_end c e h = ground arith

Rounds-Covers :
    (c : Chunking) {left : Option ℕ} {s e : Time} {rs : List Range}
    → c.allow_incomplete ≡ true
    → minute ≤ c.chunk_size
    → Rounds c left s e rs
    → left ≡ none
    → IsAligned s
    → e ≡ next_end c s
    → Covers c s rs
unfolding next_start
Rounds-Covers c h k (out_of_rounds m) n a q = ground arith
Rounds-Covers c h k (stopped {s = s} {e = e} sb) n a q = stopped_at_end c s h k a (rw q at sb)
Rounds-Covers c h k (final {e = e} m nb sa) n a q = (refl, final_at_end c e sa)
Rounds-Covers c h k (round {s = s} {e = e} m nb na rest) n a q =
    (refl, Rounds-Covers c h k rest (ground arith) (start_after-IsAligned c e) refl)

-- With incomplete chunks allowed, chunks of a minute or more and no limit, the ranges begin at the truncated begin time, each
-- starts at the end of the one before plus the step, truncated to the minute, and they go on until the truncated end
-- time is reached.
pub ranges-Covers :
    (begin_time : Time) (c : Chunking) (max : Int64) (rs : List Range)
    → c.allow_incomplete ≡ true
    → minute ≤ c.chunk_size
    → rounds max ≡ none
    → get_time_ranges_chunked begin_time c max ≡ some rs
    → Covers c (truncate_to_second begin_time) rs
unfolding get_time_ranges_chunked
ranges-Covers begin_time c max rs h k n eq =
    let t = truncate_to_second begin_time in
    Rounds-Covers c h k (chunk_loop-Rounds _ c (rounds max) t (next_end c t) eq) n
      (truncate-IsAligned begin_time) refl

-- The range spans the chunk size exactly.
abbrev pub Full : Chunking → Range → Type 0
Full c r = r.end ≡ r.start + c.chunk_size

clip-Full :
    (c : Chunking) (s : Time)
    → c.allow_incomplete ≡ false
    → stops_before c s (clip c (next_end c s)) ≡ false
    → clip c (next_end c s) ≡ s + c.chunk_size
unfolding clip stops_before next_end
clip-Full c s h nb = ground arith

Rounds-Full :
    (c : Chunking) {left : Option ℕ} {s e : Time} {rs : List Range}
    → c.allow_incomplete ≡ false
    → Rounds c left s e rs
    → e ≡ next_end c s
    → All (Full c) rs
Rounds-Full c h (out_of_rounds m) q = tt
Rounds-Full c h (stopped sb) q = tt
Rounds-Full c h (final {s = s} {e = e} m nb sa) q = (rw q (clip-Full c s h (rw q at nb)), tt)
Rounds-Full c h (round {s = s} {e = e} m nb na rest) q =
    (rw q (clip-Full c s h (rw q at nb)), Rounds-Full c h rest refl)

-- Without incomplete chunks every range spans exactly the chunk size.
pub ranges-Full :
    (begin_time : Time) (c : Chunking) (max : Int64) (rs : List Range)
    → c.allow_incomplete ≡ false
    → get_time_ranges_chunked begin_time c max ≡ some rs
    → All (Full c) rs
unfolding get_time_ranges_chunked
ranges-Full begin_time c max rs h eq =
    let t = truncate_to_second begin_time in
    Rounds-Full c h (chunk_loop-Rounds _ c (rounds max) t (next_end c t) eq) refl
