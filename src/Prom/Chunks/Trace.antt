-- ===== src/Prom/Chunks/Trace.antt =====
-- The rounds of the loop in pkg/operator/prestostore/query.go as a derivation, for induction.
use operator_metering.Prelude.{
  ℕ, zero, suc, ◌≡◌, refl, sym, ◌∙◌, true, false, Option, none, some, List, [], ◌∷◌, inl, inr,
  arith, Bool-cases,
}
use operator_metering.Prom.Chunks.{
  Time, Range, Chunking, clip, stops_before, stops_after, next_start, next_end, spent, spend,
  prepend, chunk_loop,
}

abbrev pub range_of : Chunking → Time → Time → Range
range_of c chunk_start chunk_end = record {
  start = chunk_start;
  end = clip c chunk_end;
  step = c.step_size;
}

abbrev pub start_after : Chunking → Time → Time
start_after c chunk_end = next_start c (clip c chunk_end)

-- `Rounds c left s e rs`: from the chunk [s, e] with `left` rounds allowed the loop gives `rs`.
pub data Rounds (c : Chunking) : Option ℕ → Time → Time → List Range → Type 0 where
  out_of_rounds : {left : Option ℕ} {s e : Time} → spent left ≡ true → Rounds c left s e []
  stopped :
      {left : Option ℕ} {s e : Time} → stops_before c s (clip c e) ≡ true → Rounds c left s e []
  final :
      {left : Option ℕ} {s e : Time}
      → spent left ≡ false
      → stops_before c s (clip c e) ≡ false
      → stops_after c (clip c e) ≡ true
      → Rounds c left s e (range_of c s e ∷ [])
  round :
      {left : Option ℕ} {s e : Time} {rs : List Range}
      → spent left ≡ false
      → stops_before c s (clip c e) ≡ false
      → stops_after c (clip c e) ≡ false
      → Rounds c (spend left) (start_after c e) (next_end c (start_after c e)) rs
      → Rounds c left s e (range_of c s e ∷ rs)

-- One round of the function, with the tests decided.
module _ (f : ℕ) (c : Chunking) (left : Option ℕ) (s e : Time) where
  pub loop_out : spent left ≡ true → chunk_loop (suc f) c left s e ≡ some []
  unfolding chunk_loop
  loop_out h = ground (arith, h)

  pub loop_stopped :
      spent left ≡ false
      → stops_before c s (clip c e) ≡ true
      → chunk_loop (suc f) c left s e ≡ some []
  unfolding chunk_loop
  loop_stopped h k = ground (arith, h, k)

  pub loop_final :
      spent left ≡ false
      → stops_before c s (clip c e) ≡ false
      → stops_after c (clip c e) ≡ true
      → chunk_loop (suc f) c left s e ≡ some (range_of c s e ∷ [])
  unfolding chunk_loop
  loop_final h k l = ground (arith, h, k, l)

  pub loop_round :
      spent left ≡ false
      → stops_before c s (clip c e) ≡ false
      → stops_after c (clip c e) ≡ false
      → chunk_loop (suc f) c left s e
        ≡ prepend
            (range_of c s e)
            (chunk_loop f c (spend left) (start_after c e) (next_end c (start_after c e)))
  unfolding chunk_loop
  loop_round h k l = ground (arith, h, k, l)

prepend-some :
    (r : Range) (o : Option (List Range)) {rs : List Range}
    → prepend r o ≡ some rs
    → (rest : List Range) × (o ≡ some rest) × (rs ≡ r ∷ rest)
prepend-some r none h = cc
prepend-some r (some rest) h = (rest, refl, cc)

some-eq : {xs ys : List Range} → some xs ≡ some ys → ys ≡ xs
some-eq h = cc

-- What the function returns is the list of a derivation.
pub chunk_loop-Rounds :
    (f : ℕ) (c : Chunking) (left : Option ℕ) (s e : Time) {rs : List Range}
    → chunk_loop f c left s e ≡ some rs
    → Rounds c left s e rs
chunk_loop-Rounds zero c left s e h = absurd (unfold chunk_loop in cc)
chunk_loop-Rounds (suc f) c left s e h = elim (Bool-cases (spent left)) [
  | inl out ↦ rw (some-eq (sym (loop_out f c left s e out) ∙ h)) (out_of_rounds out)
  | inr more ↦ elim (Bool-cases (stops_before c s (clip c e))) [
    | inl b ↦ rw (some-eq (sym (loop_stopped f c left s e more b) ∙ h)) (stopped b)
    | inr nb ↦ elim (Bool-cases (stops_after c (clip c e))) [
      | inl a ↦ rw (some-eq (sym (loop_final f c left s e more nb a) ∙ h)) (final more nb a)
      | inr na ↦
          let (rest, eq, shape) = prepend-some _ _ (sym (loop_round f c left s e more nb na) ∙ h) in
          rw shape (round more nb na (chunk_loop-Rounds f c _ _ _ eq))
    ]
  ]
]
