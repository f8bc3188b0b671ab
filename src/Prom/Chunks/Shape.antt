-- ===== src/Prom/Chunks/Shape.antt =====
-- What the time ranges of pkg/operator/prestostore/query.go look like: minute-aligned, each
-- starting from where the last one ended, and none ending past the end time.
use operator_metering.Prelude.{
  ℕ, zero, suc, ◌+◌, ◌%◌, ◌≤◌, ◌≡◌, refl, false, Option, none, some, List, arith, All, Chain,
  length,
}
use operator_metering.Prom.Chunks.{
  Time, minute, Range, Chunking, Int64, truncate_to_second, clip, stops_before, stops_after,
  next_start, next_end, spent, spend, rounds, get_time_ranges_chunked,
}
use operator_metering.Prom.Chunks.Trace.{
  Rounds, out_of_rounds, stopped, final, round, start_after, chunk_loop-Rounds,
}

abbrev pub IsAligned : Time → Type 0
IsAligned t = t % minute ≡ 0

pub truncate-IsAligned : (t : Time) → IsAligned (truncate_to_second t)
truncate-IsAligned t = omega arith

pub next_end-IsAligned : (c : Chunking) (s : Time) → IsAligned (next_end c s)
unfolding next_end
next_end-IsAligned c s = omega arith

pub start_after-IsAligned : (c : Chunking) (e : Time) → IsAligned (start_after c e)
unfolding next_start
start_after-IsAligned c e = omega arith

pub clip-IsAligned : (c : Chunking) (e : Time) → IsAligned e → IsAligned (clip c e)
unfolding clip
clip-IsAligned c e h = ground arith

pub clip-le :
    (c : Chunking) (s e : Time) → stops_before c s (clip c e) ≡ false → clip c e ≤ c.end_time
unfolding clip stops_before
clip-le c s e h = ground arith

-- A chunk that is not the last one was not clipped.
pub clip_of_round : (c : Chunking) (e : Time) → stops_after c (clip c e) ≡ false → clip c e ≡ e
unfolding clip stops_after
clip_of_round c e h = ground arith

pub next_end-ge : (c : Chunking) (s : Time) → IsAligned s → s ≤ next_end c s
unfolding next_end
next_end-ge c s h = omega arith

pub start_after-ge :
    (c : Chunking) (e : Time) → IsAligned e → stops_after c (clip c e) ≡ false → e ≤ start_after c e
unfolding next_start
start_after-ge c e h na = omega (arith, clip_of_round c e na)

-- The range starts at `from` or later and ends by the end time, both on whole minutes, and has the step; it may start after it ends.
pub record IsWithin (c : Chunking) (from : Time) (r : Range) : Type 0 where
  pub from_le : from ≤ r.start
  pub start_aligned : IsAligned r.start
  pub end_aligned : IsAligned r.end
  pub end_le : r.end ≤ c.end_time
  pub step_eq : r.step ≡ c.step_size

Rounds-IsWithin :
    (c : Chunking) (from : Time) {left : Option ℕ} {s e : Time} {rs : List Range}
    → Rounds c left s e rs
    → from ≤ s
    → IsAligned s
    → e ≡ next_end c s
    → All (IsWithin c from) rs
Rounds-IsWithin c from (out_of_rounds _) h a q = tt
Rounds-IsWithin c from (stopped _) h a q = tt
Rounds-IsWithin c from (final {s = s} {e = e} m nb sa) h a q = (
  record {
    from_le = h;
    start_aligned = a;
    end_aligned = clip-IsAligned c e (omega (arith, next_end-IsAligned c s, q));
    end_le = clip-le c s e nb;
    step_eq = refl;
  },
  tt,
)
Rounds-IsWithin c from (round {s = s} {e = e} m nb na rest) h a q =
    let al : IsAligned e = omega (arith, next_end-IsAligned c s, q) in
    (
      record {
        from_le = h;
        start_aligned = a;
        end_aligned = clip-IsAligned c e al;
        end_le = clip-le c s e nb;
        step_eq = refl;
      },
      Rounds-IsWithin c from rest (omega (arith, next_end-ge c s a, start_after-ge c e al na))
          (start_after-IsAligned c e) refl,
    )

-- Each range starts where the one before ended, one step later, truncated to the minute.
abbrev pub Follows : Chunking → Range → Range → Type 0
Follows c r r' = r'.start ≡ truncate_to_second (r.end + c.step_size)

Rounds-Follows :
    (c : Chunking) {left : Option ℕ} {s e : Time} {rs : List Range}
    → Rounds c left s e rs
    → Chain (Follows c) rs
unfolding next_start
Rounds-Follows c (out_of_rounds _) = tt
Rounds-Follows c (stopped _) = tt
Rounds-Follows c (final m nb sa) = tt
Rounds-Follows c (round m nb na (out_of_rounds _)) = tt
Rounds-Follows c (round m nb na (stopped _)) = tt
Rounds-Follows c (round m nb na (final x y z)) = (refl, tt)
Rounds-Follows c (round m nb na (round x y z rest)) = (refl, Rounds-Follows c (round x y z rest))

abbrev pub WithinLimit : Option ℕ → ℕ → Type 0
WithinLimit none n = Unit
WithinLimit (some k) n = n ≤ k

WithinLimit-suc :
    (left : Option ℕ) (n : ℕ)
    → spent left ≡ false
    → WithinLimit (spend left) n
    → WithinLimit left (suc n)
WithinLimit-suc none n s h = tt
WithinLimit-suc (some zero) n s h = cc
WithinLimit-suc (some (suc k)) n s h = omega arith

WithinLimit-zero : (left : Option ℕ) → WithinLimit left 0
WithinLimit-zero none = tt
WithinLimit-zero (some k) = omega arith

Rounds-length :
    (c : Chunking) {left : Option ℕ} {s e : Time} {rs : List Range}
    → Rounds c left s e rs
    → WithinLimit left (length rs)
Rounds-length c (out_of_rounds {left = left} _) = WithinLimit-zero left
Rounds-length c (stopped {left = left} _) = WithinLimit-zero left
Rounds-length c (final {left = left} m nb sa) =
    WithinLimit-suc left 0 m (WithinLimit-zero (spend left))
Rounds-length c (round {left = left} {rs = rs} m nb na rest) =
    WithinLimit-suc left (length rs) m (Rounds-length c rest)

-- Whatever the sizes, every range starts on a whole minute, not before the truncated begin time, ends on a whole minute, not after the end
-- time, and has the configured step; it may start after it ends. Each starts at the end of the one before plus the step,
-- truncated to the minute, and there are no more than the limit allows.
pub ranges-IsWithin :
    (begin_time : Time) (c : Chunking) (max : Int64) (rs : List Range)
    → get_time_ranges_chunked begin_time c max ≡ some rs
    → All (IsWithin c (truncate_to_second begin_time)) rs
      × Chain (Follows c) rs
      × WithinLimit (rounds max) (length rs)
unfolding get_time_ranges_chunked
ranges-IsWithin begin_time c max rs h =
    let t = truncate_to_second begin_time in
    let d = chunk_loop-Rounds _ c (rounds max) t (next_end c t) h in
    (
      Rounds-IsWithin c t d (omega arith) (truncate-IsAligned begin_time) refl,
      Rounds-Follows c d,
      Rounds-length c d,
    )
