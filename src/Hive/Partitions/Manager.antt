-- ===== src/Hive/Partitions/Manager.antt =====
-- What running through a list of partitions does to a table, for a partition manager that does what
-- `DROP IF EXISTS` and `ADD IF NOT EXISTS` are documented to do (pkg/operator/hivetables.go).
use operator_metering.Prelude.{
  String, ◌≡◌, ◌≢◌, refl, sym, ap, ◌∙◌, Bool, true, false, ◌⊎◌, inl, inr, Option, none, some, List,
  [], ◌∷◌, str_eq, eq_iff, All, if◌then◌else◌, Bool-cases,
}
use operator_metering.Hive.Partitions.{Partition, PartitionManager, Run, and_then, for_each}

-- Some element has the property.
abbrev pub Any {ℓ} : {A : Type ℓ} → (A → Type 0) → List A → Type 0
Any P [] = ⊥
Any P (x ∷ xs) = P x ⊎ Any P xs

abbrev pub or_else {ℓ} : {A : Type ℓ} → Option A → Option A → Option A
or_else (some a) o = some a
or_else none o = o

-- A partition is known to Hive by the clause that the statement names it with, and has a location there.
pub record IsManager {W : Type 0} (m : PartitionManager W) (clause : Partition → String)
    (location : W → String → Option String) : Type 0 where
  pub dropped :
      (p : Partition) (w : W) (c : String)
      → (m.drop_partition p w).0 ≡ none
      → location (m.drop_partition p w).1 c ≡ (if str_eq (clause p) c then none else location w c)
  pub added :
      (p : Partition) (w : W) (c : String)
      → (m.add_partition p w).0 ≡ none
      → location (m.add_partition p w).1 c
        ≡ (if str_eq (clause p) c then or_else (location w c) (some p.location) else location w c)

module _ {ℓ} {A : Type ℓ} where
  if-eq : (s t : String) (x y : A) → s ≡ t → (if str_eq s t then x else y) ≡ x
  if-eq s t x y h = rw ((eq_iff s t).1 h) refl

  if-ne : (s t : String) (x y : A) → s ≢ t → (if str_eq s t then x else y) ≡ y
  if-ne s t x y h = elim (Bool-cases (str_eq s t)) [
    | inl e ↦ absurd (h ((eq_iff s t).0 e))
    | inr e ↦ rw e refl
  ]

  if-both : (b : Bool) (x y z : A) → x ≡ z → y ≡ z → (if b then x else y) ≡ z
  if-both true x y z h k = h
  if-both false x y z h k = k

module _ {W : Type 0} (m : PartitionManager W) (clause : Partition → String)
    (location : W → String → Option String) (lawful : IsManager m clause location) where
  pub first_ok :
      (r : Run W) (next : W → Run W)
      → (and_then r next).0 ≡ none
      → (r.0 ≡ none) × (and_then r next ≡ next r.1)
  first_ok (none, w) next h = (refl, refl)
  first_ok (some e, w) next h = cc

  abbrev pub Ran : (Partition → W → Run W) → List Partition → W → Type 0
  Ran call ps w = (for_each call ps w).0 ≡ none

  unfoldable pub after : (Partition → W → Run W) → List Partition → W → W
  after call ps w = (for_each call ps w).1

  -- A run over a list is a run over its first element and one over the others.
  cons-Ran :
      (call : Partition → W → Run W) (p : Partition) (ps : List Partition) (w : W)
      → Ran call (p ∷ ps) w
      → ((call p w).0 ≡ none)
        × (Ran call ps (call p w).1 × (after call (p ∷ ps) w ≡ after call ps (call p w).1))
  unfolding for_each after
  cons-Ran call p ps w h =
      let (a, b) = first_ok (call p w) (for_each call ps) h in
      (a, (sym (ap (λ r. r.0) b) ∙ h, ap (λ r. r.1) b))

  -- Clauses that no partition of the list has are left as they were.
  pub dropped-others :
      (ps : List Partition) (w : W) (c : String)
      → Ran m.drop_partition ps w
      → All (λ p. clause p ≢ c) ps
      → location (after m.drop_partition ps w) c ≡ location w c
  unfolding for_each after
  dropped-others [] w c r h = refl
  dropped-others (p ∷ ps) w c r h =
      let (a, (b, e)) = cons-Ran m.drop_partition p ps w r in
      ap (λ x. location x c) e
      ∙ dropped-others ps (m.drop_partition p w).1 c b h.1
      ∙ lawful.dropped p w c a
      ∙ if-ne (clause p) c none (location w c) h.0

  pub dropped-some :
      (ps : List Partition) (w : W) (c : String)
      → Ran m.drop_partition ps w
      → Any (λ p. clause p ≡ c) ps ⊎ (location w c ≡ none)
      → location (after m.drop_partition ps w) c ≡ none
  unfolding for_each after
  dropped-some [] w c r (inr h) = h
  dropped-some [] w c r (inl h) = absurd h
  dropped-some (p ∷ ps) w c r h =
      let (a, (b, e)) = cons-Ran m.drop_partition p ps w r in
      ap (λ x. location x c) e ∙ dropped-some ps (m.drop_partition p w).1 c b (tail a h)
    where
      tail :
          (m.drop_partition p w).0 ≡ none
          → Any (λ q. clause q ≡ c) (p ∷ ps) ⊎ (location w c ≡ none)
          → Any (λ q. clause q ≡ c) ps ⊎ (location (m.drop_partition p w).1 c ≡ none)
      tail a (inl (inl q)) = inr (lawful.dropped p w c a ∙ if-eq (clause p) c none (location w c) q)
      tail a (inl (inr q)) = inl q
      tail a (inr n) =
          inr
            (lawful.dropped p w c a ∙ if-both (str_eq (clause p) c) none (location w c) none refl n)

  pub added-others :
      (ps : List Partition) (w : W) (c : String)
      → Ran m.add_partition ps w
      → All (λ p. clause p ≢ c) ps
      → location (after m.add_partition ps w) c ≡ location w c
  unfolding for_each after
  added-others [] w c r h = refl
  added-others (p ∷ ps) w c r h =
      let (a, (b, e)) = cons-Ran m.add_partition p ps w r in
      ap (λ x. location x c) e
      ∙ added-others ps (m.add_partition p w).1 c b h.1
      ∙ lawful.added p w c a
      ∙ if-ne (clause p) c _ (location w c) h.0

  -- If all partitions with the clause have one location, and it is free or has that location, it has it
  -- afterwards.
  pub added-some :
      (ps : List Partition) (w : W) (c v : String)
      → Ran m.add_partition ps w
      → All (λ p. (clause p ≢ c) ⊎ (p.location ≡ v)) ps
      → (location w c ≡ none) × Any (λ p. clause p ≡ c) ps ⊎ (location w c ≡ some v)
      → location (after m.add_partition ps w) c ≡ some v
  unfolding for_each after
  added-some [] w c v r h (inl k) = absurd k.1
  added-some [] w c v r h (inr k) = k
  added-some (p ∷ ps) w c v r h k =
      let (a, (b, e)) = cons-Ran m.add_partition p ps w r in
      ap (λ x. location x c) e ∙ added-some ps (m.add_partition p w).1 c v b h.1 (tail a h.0 k)
    where
      taken :
          (m.add_partition p w).0 ≡ none
          → (clause p ≢ c) ⊎ (p.location ≡ v)
          → location w c ≡ none
          → clause p ≡ c
          → location (m.add_partition p w).1 c ≡ some v
      taken a (inl ne) n q = absurd (ne q)
      taken a (inr l) n q =
          lawful.added p w c a
          ∙ if-eq (clause p) c (or_else (location w c) (some p.location)) (location w c) q
          ∙ ap (λ o. or_else o (some p.location)) n
          ∙ ap some l

      tail :
          (m.add_partition p w).0 ≡ none
          → (clause p ≢ c) ⊎ (p.location ≡ v)
          → (location w c ≡ none) × Any (λ q. clause q ≡ c) (p ∷ ps) ⊎ (location w c ≡ some v)
          → (location (m.add_partition p w).1 c ≡ none) × Any (λ q. clause q ≡ c) ps
            ⊎ (location (m.add_partition p w).1 c ≡ some v)
      tail a l (inr k) = inr (
          lawful.added p w c a
          ∙ if-both (str_eq (clause p) c) _ (location w c) (some v)
              (ap (λ o. or_else o (some p.location)) k) k)
      tail a l (inl (n, inl q)) = inr (taken a l n q)
      tail a l (inl (n, inr q)) = elim (Bool-cases (str_eq (clause p) c)) [
        | inl e ↦ inr (taken a l n ((eq_iff (clause p) c).0 e))
        | inr e ↦ inl (lawful.added p w c a ∙ rw e n, q)
      ]
