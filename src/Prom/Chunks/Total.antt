-- ===== src/Prom/Chunks/Total.antt =====
-- The loop of `getTimeRangesChunked` (pkg/operator/prestostore/query.go) ends.
use operator_metering.Prelude.{
  ℕ, zero, suc, ◌+◌, ◌*◌, ◌≤◌, ◌<◌, ◌≡◌, refl, ◌∙◌, ap, false, Option, none, some, List, [], ◌∷◌,
  inl, inr, arith, Bool-cases,
}
use operator_metering.Prom.Chunks.{
  Time, minute, Range, Chunking, Int64, pos, neg, clip, stops_before, stops_after, next_start,
  next_end, spent, spend, prepend, rounds, chunk_loop, get_time_ranges_chunked,
}
use operator_metering.Prom.Chunks.Trace.{
  start_after, range_of, loop_out, loop_stopped, loop_final, loop_round,
}
use operator_metering.Prom.Chunks.Shape.{IsAligned, next_end-IsAligned, clip-le, clip_of_round}

abbrev pub Returns : Option (List Range) → Type 0
Returns o = (rs : List Range) × (o ≡ some rs)

prepend-Returns : (r : Range) {o : Option (List Range)} → Returns o → Returns (prepend r o)
prepend-Returns r (rs, h) = (r ∷ rs, ap (prepend r) h)

-- A round returns if the loop that it goes on to does.
round-Returns :
    (f : ℕ) (c : Chunking) (left : Option ℕ) (s e : Time)
    → (spent left ≡ false
        → stops_before c s (clip c e) ≡ false
        → stops_after c (clip c e) ≡ false
        → Returns (chunk_loop f c (spend left) (start_after c e) (next_end c (start_after c e))))
    → Returns (chunk_loop (suc f) c left s e)
round-Returns f c left s e rest = elim (Bool-cases (spent left)) [
  | inl out ↦ ([], loop_out f c left s e out)
  | inr more ↦ elim (Bool-cases (stops_before c s (clip c e))) [
    | inl b ↦ ([], loop_stopped f c left s e more b)
    | inr nb ↦ elim (Bool-cases (stops_after c (clip c e))) [
      | inl a ↦ (range_of c s e ∷ [], loop_final f c left s e more nb a)
      | inr na ↦
          let (rs, h) = prepend-Returns (range_of c s e) (rest more nb na) in
          (rs, loop_round f c left s e more nb na ∙ h)
    ]
  ]
]

limited-Returns : (n : ℕ) (c : Chunking) (s e : Time) → Returns (chunk_loop (suc n) c (some n) s e)
limited-Returns zero c s e = round-Returns zero c (some zero) s e (λ more. cc)
limited-Returns (suc n) c s e =
    round-Returns (suc n) c (some (suc n)) s e (λ _ _ _. limited-Returns n c _ _)

-- The end of the next chunk is a minute later at least.
next_end-advances :
    (c : Chunking) (e : Time)
    → minute ≤ c.chunk_size
    → IsAligned e
    → stops_after c (clip c e) ≡ false
    → e + minute ≤ next_end c (start_after c e)
unfolding next_end next_start
next_end-advances c e h a na = omega (arith, clip_of_round c e na)

unlimited-Returns :
    (f : ℕ) (c : Chunking) (s e : Time)
    → minute ≤ c.chunk_size
    → IsAligned e
    → 0 < f
    → c.end_time + minute < e + f * minute
    → Returns (chunk_loop f c none s e)
unlimited-Returns zero c s e h a p m = absurd (omega arith)
unlimited-Returns (suc f) c s e h a p m = round-Returns f c none s e λ more nb na.
    let e≤ : e ≤ c.end_time = omega (arith, clip-le c s e nb, clip_of_round c e na) in
    unlimited-Returns f c _ _ h (next_end-IsAligned c (start_after c e)) (omega arith)
      (omega (arith, next_end-advances c e h a na))

-- With a limit on the time ranges, or with chunks of a minute or more, `getTimeRangesChunked` returns.
pub ranges-Returns :
    (begin_time : Time) (c : Chunking) (max : Int64)
    → (rounds max ≡ none → minute ≤ c.chunk_size)
    → Returns (get_time_ranges_chunked begin_time c max)
unfolding get_time_ranges_chunked
ranges-Returns begin_time c (pos zero) h =
    unlimited-Returns _ c _ _ (h refl) (next_end-IsAligned c _) (omega arith) (omega arith)
ranges-Returns begin_time c (pos (suc n)) h = limited-Returns (suc n) c _ _
ranges-Returns begin_time c (neg n) h =
    unlimited-Returns _ c _ _ (h refl) (next_end-IsAligned c _) (omega arith) (omega arith)
