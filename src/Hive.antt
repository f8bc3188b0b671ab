-- ===== src/Hive.antt =====
-- Hive tables (pkg/operator/hivetables.go) and those of AWS billing data (pkg/operator/aws_usage_hive.go).
pub mod Partitions
pub mod Tables
pub mod Billing
