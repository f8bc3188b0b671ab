-- ===== src/Hive/Billing/Identifiers.antt =====
-- The partitions that `getDesiredPartitions` (pkg/operator/aws_usage_hive.go) makes, as `getPartitionChanges`
-- (pkg/operator/hivetables.go) identifies them: their specifications have other keys than the table has columns.
use operator_metering.Prelude.{String, ◌≡◌, refl, ap, ◌∙◌, List, [], ◌∷◌, All}
use mathlib.Core.Path.{subst}
use operator_metering.Kube.{Result, ok, err}
use operator_metering.Hive.Partitions.{Partition, set_id, ids_from, insert}
use operator_metering.Hive.Billing.{
  Text, Manifest, aws_usage_hive_partitions, s3_location, data_directory, get_desired_partitions,
  and_partition,
}

module _ (text : Text) where
  abbrev HasOneId : List Partition → Type 0
  HasOneId ps = All (λ (p : Partition). set_id aws_usage_hive_partitions p ≡ "-") ps

  abbrev IfOk : (List Partition → Type 0) → Result (List Partition) → Type 0
  IfOk P (err e) = Unit
  IfOk P (ok ps) = P ps

  and_partition-HasOneId :
      (m : Manifest) (r : Result String) (rs : Result (List Partition))
      → IfOk HasOneId rs
      → IfOk HasOneId (and_partition text m r rs)
  unfolding set_id
  and_partition-HasOneId m (err e) rs h = tt
  and_partition-HasOneId m (ok l) (err e) h = tt
  and_partition-HasOneId m (ok l) (ok ps) h = (refl, h)

  desired-HasOneId :
      (bucket : String) (ms : List Manifest) → IfOk HasOneId (get_desired_partitions text bucket ms)
  unfolding get_desired_partitions
  desired-HasOneId bucket [] = tt
  desired-HasOneId bucket (m ∷ ms) =
      and_partition-HasOneId m (s3_location text bucket (data_directory text m))
        (get_desired_partitions text bucket ms) (desired-HasOneId bucket ms)

  ids-HasOneId :
      (ps : List Partition)
      → HasOneId ps
      → ids_from (set_id aws_usage_hive_partitions) ("-" ∷ []) ps ≡ "-" ∷ []
  unfolding ids_from
  ids-HasOneId [] h = refl
  ids-HasOneId (p ∷ ps) h =
      ap (λ k. ids_from (set_id aws_usage_hive_partitions) (insert k ("-" ∷ [])) ps) h.0
      ∙ ids-HasOneId ps h.1

  -- Whatever the manifests are, the partitions that are made for them have one identifier, which is "-": of the set of
  -- identifiers that is compared with the present partitions there is one element.
  pub desired_partitions-HasOneId :
      (bucket : String) (ms : List Manifest) (p : Partition) (ps : List Partition)
      → get_desired_partitions text bucket ms ≡ ok (p ∷ ps)
      → ids_from (set_id aws_usage_hive_partitions) [] (p ∷ ps) ≡ "-" ∷ []
  unfolding ids_from
  desired_partitions-HasOneId bucket ms p ps h =
      let one : HasOneId (p ∷ ps) = subst (IfOk HasOneId) h (desired-HasOneId bucket ms) in
      ap (λ k. ids_from (set_id aws_usage_hive_partitions) (insert k []) ps) one.0
      ∙ ids-HasOneId ps one.1
