-- ===== src/Hive/Partitions/Converge.antt =====
-- Applying the changes that `getPartitionChanges` (pkg/operator/hivetables.go) computes leads from the current
-- partitions to the desired ones.
use operator_metering.Prelude.{
  String, ◌≡◌, ◌≢◌, ◌↔◌, refl, sym, ap, ◌∙◌, true, false, ◌⊎◌, inl, inr, Option, none, some, List,
  [], ◌++◌, map, str_eq, eq_iff, All, All-append, arith, Bool-cases,
}
use mathlib.Core.Path.{subst}
use operator_metering.Hive.Partitions.{
  Partition, PartitionManager, or_none, member, difference, intersection, ids_from, find_last,
  lookup, partition_changes, for_each, apply_changes,
}
use operator_metering.Hive.Partitions.Manager.{
  Any, IsManager, Ran, after, dropped-others, dropped-some, added-others, added-some, first_ok,
}
use operator_metering.Hive.Partitions.Sets.{
  has_id, member-ids_from, find_last-id, find_last-All, find_last-missing, find_last-same,
  find_last-found, member-difference, member-intersection, All-keys, Any-key, Any-append,
}

abbrev location_of : Option Partition → Option String
location_of none = none
location_of (some q) = some q.location

-- The location of the partition that a list has for an identifier: the last one counts.
unfoldable pub wanted : (Partition → String) → List Partition → String → Option String
wanted id ps k = location_of (find_last id none k ps)

-- Two partitions have one identifier exactly if they have one clause.
abbrev pub Agree : (Partition → String) → (Partition → String) → Partition → Partition → Type 0
Agree id clause p q = (clause q ≡ clause p) ↔ (id q ≡ id p)

module _ (order : List String → List String)
    (order-member : (k : String) (ks : List String) → member k (order ks) ≡ member k ks)
    (id clause : Partition → String) (current desired : List Partition) (p : Partition)
    (agree : All (Agree id clause p) current) (agree' : All (Agree id clause p) desired) where
  abbrev find : String → Partition
  find = lookup order id current desired

  abbrev IsKnown : String → Type 0
  IsKnown j = (has_id id j current ≡ true) ⊎ (has_id id j desired ≡ true)

  found :
      (j : String)
      → IsKnown j
      → (q : Partition) × (find_last id (find_last id none j current) j desired ≡ some q)
  found j (inr h) = find_last-found id _ j desired h
  found j (inl h) = elim (Bool-cases (has_id id j desired)) [
    | inl d ↦ find_last-found id _ j desired d
    | inr d ↦
        let (q, e) = find_last-found id none j current h in
        (q, find_last-missing id _ j desired d ∙ e)
  ]

  find-Agree : (j : String) → IsKnown j → (clause (find j) ≡ clause p) ↔ (j ≡ id p)
  unfolding lookup
  find-Agree j known =
      let (q, e) = found j known in
      let same : id q ≡ j =
        find_last-id id (find_last id none j current) j desired q
          (λ r x. find_last-id id none j current r (λ t y. cc) x) e in
      let a : Agree id clause p q =
        find_last-All id (Agree id clause p) (find_last id none j current) j desired q
          (λ r x. find_last-All id (Agree id clause p) none j current r (λ t y. cc) agree x) agree'
          e in
      let at : find j ≡ q = ap or_none e in
      (λ h. sym same ∙ a.0 (ap clause (sym at) ∙ h), λ h. ap clause at ∙ a.1 (same ∙ h))

  abbrev picked : List String → List String → List Partition
  picked s t = map find (order s) ++ map find (order t)

  abbrev In : List String → List String → String → Type 0
  In s t j = (member j s ≡ true) ⊎ (member j t ≡ true)

  All-picked :
      (P : Partition → Type 0) (s t : List String)
      → ((j : String) → In s t j → P (find j))
      → All P (picked s t)
  All-picked P s t f =
      All-append P (map find (order s)) (map find (order t))
        (All-keys P find (order s) (λ j h. f j (inl (sym (order-member j s) ∙ h))))
        (All-keys P find (order t) (λ j h. f j (inr (sym (order-member j t) ∙ h))))

  Any-picked :
      (P : Partition → Type 0) (s t : List String) (k : String)
      → In s t k
      → P (find k)
      → Any P (picked s t)
  Any-picked P s t k (inl h) x =
      Any-append P (map find (order s)) (map find (order t))
        (inl (Any-key P find (order s) k (order-member k s ∙ h) x))
  Any-picked P s t k (inr h) x =
      Any-append P (map find (order s)) (map find (order t))
        (inr (Any-key P find (order t) k (order-member k t ∙ h) x))

  abbrev curr_set : List String
  curr_set = ids_from id [] current

  abbrev desired_set : List String
  desired_set = ids_from id [] desired

  -- What is removed is current, and what is current is removed; likewise what is added is desired.
  removed-current :
      (j : String)
      → In (difference curr_set desired_set) (intersection curr_set desired_set) j
        ↔ (has_id id j current ≡ true)
  removed-current j =
      let a = member-difference j curr_set desired_set in
      let b = member-intersection j curr_set desired_set in
      let c = member-ids_from id j [] current in
      let d = member-ids_from id j [] desired in
      (λ h. ground (arith, a, b, c, d, h), λ h. ground (arith, a, b, c, d, h))

  added-desired :
      (j : String)
      → In (difference desired_set curr_set) (intersection curr_set desired_set) j
        ↔ (has_id id j desired ≡ true)
  added-desired j =
      let a = member-difference j desired_set curr_set in
      let b = member-intersection j curr_set desired_set in
      let c = member-ids_from id j [] current in
      let d = member-ids_from id j [] desired in
      (λ h. ground (arith, a, b, c, d, h), λ h. ground (arith, a, b, c, d, h))

  -- An identifier that some list has is not that of `p`, if the list does not have that.
  other-clause :
      (ps : List Partition) (j : String)
      → IsKnown j
      → has_id id (id p) ps ≡ false
      → has_id id j ps ≡ true
      → clause (find j) ≢ clause p
  other-clause ps j known absent present x =
      let e : has_id id (id p) ps ≡ true =
        subst (λ k. has_id id k ps ≡ true) ((find-Agree j known).0 x) present in
      cc

  -- What is found has the clause of `p` only if it is what is found for the identifier of `p`.
  one_location :
      (j : String) (q : Partition)
      → find (id p) ≡ q
      → IsKnown j
      → (clause (find j) ≢ clause p) ⊎ ((find j).location ≡ q.location)
  one_location j q at known = elim (Bool-cases (str_eq j (id p))) [
    | inl e ↦ inr (
        ap (λ k. (find k).location) ((eq_iff j (id p)).0 e) ∙ ap (λ (r : Partition). r.location) at)
    | inr e ↦ inl (λ x. ground (arith, eq_iff j (id p), (find-Agree j known).0 x))
  ]

  module _ {W : Type 0} (m : PartitionManager W) (location : W → String → Option String)
      (lawful : IsManager m clause location) where
    -- After the removals the partition has no location.
    removed-none :
        (w : W)
        → location w (clause p) ≡ wanted id current (id p)
        → Ran m clause location lawful m.drop_partition
            (picked (difference curr_set desired_set) (intersection curr_set desired_set))
            w
        → location
            (after m clause location lawful m.drop_partition
              (picked (difference curr_set desired_set) (intersection curr_set desired_set))
              w)
            (clause p)
          ≡ none
    unfolding wanted
    removed-none w sync ran =
        let s = difference curr_set desired_set in
        let t = intersection curr_set desired_set in
        elim (Bool-cases (has_id id (id p) current)) [
          | inl h ↦ dropped-some m clause location lawful (picked s t) w (clause p) ran (
              inl (
                Any-picked (λ q. clause q ≡ clause p) s t (id p) ((removed-current (id p)).1 h)
                  ((find-Agree (id p) (inl h)).1 refl)))
          | inr h ↦
              dropped-others m clause location lawful (picked s t) w (clause p) ran (
                All-picked (λ q. clause q ≢ clause p) s t
                  (λ j i. let c = (removed-current j).0 i in other-clause current j (inl c) h c))
              ∙ sync
              ∙ ap location_of (find_last-missing id none (id p) current h)
        ]

    added-wanted :
        (w : W)
        → location w (clause p) ≡ none
        → Ran m clause location lawful m.add_partition
            (picked (difference desired_set curr_set) (intersection curr_set desired_set))
            w
        → location
            (after m clause location lawful m.add_partition
              (picked (difference desired_set curr_set) (intersection curr_set desired_set))
              w)
            (clause p)
          ≡ wanted id desired (id p)
    unfolding wanted lookup
    added-wanted w free ran =
        let s = difference desired_set curr_set in
        let t = intersection curr_set desired_set in
        elim (Bool-cases (has_id id (id p) desired)) [
          | inl h ↦
              let (q, e) = find_last-found id none (id p) desired h in
              let at : find (id p) ≡ q =
                ap or_none (
                  find_last-same id (find_last id none (id p) current) none (id p) desired h ∙ e) in
              added-some m clause location lawful (picked s t) w (clause p) q.location ran
                (All-picked (λ r. (clause r ≢ clause p) ⊎ (r.location ≡ q.location)) s t
                  (λ j i. one_location j q at (inr ((added-desired j).0 i))))
                (inl (
                  free,
                  Any-picked (λ r. clause r ≡ clause p) s t (id p) ((added-desired (id p)).1 h)
                      ((find-Agree (id p) (inr h)).1 refl),
                ))
              ∙ sym (ap location_of e)
          | inr h ↦
              added-others m clause location lawful (picked s t) w (clause p) ran (
                All-picked (λ q. clause q ≢ clause p) s t
                  (λ j i. let c = (added-desired j).0 i in other-clause desired j (inr c) h c))
              ∙ free
              ∙ sym (ap location_of (find_last-missing id none (id p) desired h))
        ]

    -- If the changes are applied without an error, then the partition `p`, which was where the current
    -- partitions have it, is where the desired ones have it, or nowhere if they do not. `p` is any partition
    -- whose clause and identifier tell it from the same ones of the two lists, and the partition manager does what it
    -- is documented to do.
    pub apply_changes-wanted :
        (w : W)
        → location w (clause p) ≡ wanted id current (id p)
        → (apply_changes m (partition_changes order id current desired) w).0 ≡ none
        → location (apply_changes m (partition_changes order id current desired) w).1 (clause p)
          ≡ wanted id desired (id p)
    unfolding apply_changes partition_changes after
    apply_changes-wanted w sync ran =
        let changes = partition_changes order id current desired in
        let (a, b) =
          first_ok m clause location lawful
            (for_each m.drop_partition (changes.to_remove ++ changes.to_update) w)
            (for_each m.add_partition (changes.to_add ++ changes.to_update)) ran in
        ap (λ r. location r.1 (clause p)) b
        ∙ added-wanted _ (removed-none w sync a) (sym (ap (λ r. r.0) b) ∙ ran)
