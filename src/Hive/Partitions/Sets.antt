-- ===== src/Hive/Partitions/Sets.antt =====
-- The sets of identifiers of `getPartitionChanges` (pkg/operator/hivetables.go), and what its map finds.
use operator_metering.Prelude.{
  String, ◌≡◌, refl, sym, ap, ◌∙◌, Bool, true, false, ◌&&◌, ◌||◌, not, ◌⊎◌, inl, inr, Option, some,
  List, [], ◌∷◌, ◌++◌, map, str_eq, eq_iff, All, arith, if◌then◌else◌, Bool-cases,
}
use mathlib.Core.Path.{subst}
use mathlib.Core.Option.{some-injective}
use operator_metering.Hive.Partitions.{
  Partition, member, insert, filter, difference, intersection, ids_from, find_last,
}
use operator_metering.Hive.Partitions.Manager.{Any}

member-append : (k : String) (s t : List String) → member k (s ++ t) ≡ member k s || member k t
member-append k [] t = refl
member-append k (x ∷ s) t = ground (arith, member-append k s t)

member-insert : (j k : String) (s : List String) → member k (insert j s) ≡ member k s || str_eq j k
member-insert j k s = ground (arith, member-append k s (j ∷ []), eq_iff j k)

member-filter :
    (k : String) (f : String → Bool) (s : List String) → member k (filter f s) ≡ member k s && f k
member-filter k f [] = refl
member-filter k f (x ∷ s) = elim (Bool-cases (str_eq x k)) [
  | inl e ↦ ground (arith, member-filter k f s, ap f ((eq_iff x k).0 e))
  | inr e ↦ ground (arith, member-filter k f s)
]

module _ (id : Partition → String) where
  abbrev pub has_id : String → List Partition → Bool
  has_id k [] = false
  has_id k (p ∷ ps) = str_eq (id p) k || has_id k ps

  pub member-ids_from :
      (k : String) (s : List String) (ps : List Partition)
      → member k (ids_from id s ps) ≡ member k s || has_id k ps
  unfolding ids_from
  member-ids_from k s [] = ground arith
  member-ids_from k s (p ∷ ps) =
      ground (arith, member-ids_from k (insert (id p) s) ps, member-insert (id p) k s)

  pub find_last-id :
      (o : Option Partition) (k : String) (ps : List Partition) (q : Partition)
      → ((r : Partition) → o ≡ some r → id r ≡ k)
      → find_last id o k ps ≡ some q
      → id q ≡ k
  unfolding find_last
  find_last-id o k [] q f h = f q h
  find_last-id o k (p ∷ ps) q f h =
      find_last-id (if str_eq (id p) k then some p else o) k ps q
        (λ r x. ground (arith, f r, eq_iff (id p) k)) h

  pub find_last-All :
      (P : Partition → Type 0) (o : Option Partition) (k : String) (ps : List Partition)
      (q : Partition)
      → ((r : Partition) → o ≡ some r → P r)
      → All P ps
      → find_last id o k ps ≡ some q
      → P q
  unfolding find_last
  find_last-All P o k [] q f a h = f q h
  find_last-All P o k (p ∷ ps) q f a h =
      find_last-All P (if str_eq (id p) k then some p else o) k ps q (pick (str_eq (id p) k)) a.1 h
    where
      pick : (b : Bool) (r : Partition) → (if b then some p else o) ≡ some r → P r
      pick true r x = subst P (some-injective _ _ x) a.0
      pick false r x = f r x

  -- An identifier that no partition has: what was found before stays.
  pub find_last-missing :
      (o : Option Partition) (k : String) (ps : List Partition)
      → has_id k ps ≡ false
      → find_last id o k ps ≡ o
  unfolding find_last
  find_last-missing o k [] h = refl
  find_last-missing o k (p ∷ ps) h =
      find_last-missing (if str_eq (id p) k then some p else o) k ps (ground arith) ∙ ground arith

  -- One that some partition has: what was found before does not matter, and one is found.
  pub find_last-same :
      (o o' : Option Partition) (k : String) (ps : List Partition)
      → has_id k ps ≡ true
      → find_last id o k ps ≡ find_last id o' k ps
  unfolding find_last
  find_last-same o o' k [] h = cc
  find_last-same o o' k (p ∷ ps) h = elim (Bool-cases (has_id k ps)) [
    | inl e ↦
        find_last-same (if str_eq (id p) k then some p else o)
          (if str_eq (id p) k then some p else o') k ps e
    | inr e ↦
        let here : str_eq (id p) k ≡ true = ground arith in
        ap (λ b. find_last id (if b then some p else o) k ps) here
        ∙ sym (ap (λ b. find_last id (if b then some p else o') k ps) here)
  ]

  pub find_last-found :
      (o : Option Partition) (k : String) (ps : List Partition)
      → has_id k ps ≡ true
      → (q : Partition) × (find_last id o k ps ≡ some q)
  unfolding find_last
  find_last-found o k [] h = cc
  find_last-found o k (p ∷ ps) h = elim (Bool-cases (has_id k ps)) [
    | inl e ↦ find_last-found (if str_eq (id p) k then some p else o) k ps e
    | inr e ↦ (p, find_last-missing (if str_eq (id p) k then some p else o) k ps e ∙ ground arith)
  ]

pub member-difference :
    (k : String) (s t : List String) → member k (difference s t) ≡ member k s && not (member k t)
unfolding difference
member-difference k s t = member-filter k (λ x. not (member x t)) s

pub member-intersection :
    (k : String) (s t : List String) → member k (intersection s t) ≡ member k s && member k t
unfolding intersection
member-intersection k s t = member-filter k (λ x. member x t) s

pub All-keys :
    (P : Partition → Type 0) (f : String → Partition) (ks : List String)
    → ((j : String) → member j ks ≡ true → P (f j))
    → All P (map f ks)
All-keys P f [] h = tt
All-keys P f (k ∷ ks) h =
    (h k (ground (arith, eq_iff k k)), All-keys P f ks (λ j x. h j (ground (arith, x))))

pub Any-key :
    (P : Partition → Type 0) (f : String → Partition) (ks : List String) (k : String)
    → member k ks ≡ true
    → P (f k)
    → Any P (map f ks)
Any-key P f [] k h p = cc
Any-key P f (j ∷ ks) k h p = elim (Bool-cases (str_eq j k)) [
  | inl e ↦ inl (subst (λ x. P (f x)) (sym ((eq_iff j k).0 e)) p)
  | inr e ↦ inr (Any-key P f ks k (ground arith) p)
]

pub Any-append :
    (P : Partition → Type 0) (xs ys : List Partition) → Any P xs ⊎ Any P ys → Any P (xs ++ ys)
Any-append P [] ys (inl h) = absurd h
Any-append P [] ys (inr h) = h
Any-append P (x ∷ xs) ys (inl (inl h)) = inl h
Any-append P (x ∷ xs) ys (inl (inr h)) = inr (Any-append P xs ys (inl h))
Any-append P (x ∷ xs) ys (inr h) = inr (Any-append P xs ys (inr h))
