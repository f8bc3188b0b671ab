-- ===== src/Examples/Ranges.antt =====
-- Time ranges for concrete chunk sizes and steps (pkg/operator/prestostore/query.go).
use operator_metering.Prelude.{ℕ, ◌*◌, refl, true, false, List, [], ◌∷◌, arith, All, Chain, length}
use operator_metering.Prom.Chunks.{
  Duration, minute, Range, Chunking, pos, rounds, get_time_ranges_chunked,
}
use operator_metering.Prom.Chunks.Shape.{IsWithin, Follows, WithinLimit, ranges-IsWithin}
use operator_metering.Prom.Chunks.Order.{Covers, ranges-Covers}

abbrev minutes : ℕ → Duration
minutes n = n * minute

-- Ten minutes in chunks of five, with a step of one minute.
abbrev hourly : Chunking
hourly = record {
  end_time = minutes 10;
  chunk_size = minutes 5;
  step_size = minute;
  allow_incomplete = true;
}

abbrev hourly_ranges : List Range
hourly_ranges =
    record { start = 0; end = minutes 5; step = minute }
    ∷ record { start = minutes 6; end = minutes 10; step = minute }
    ∷ []

ranges-IsWithin_example :
    All (IsWithin hourly 0) hourly_ranges
    × Chain (Follows hourly) hourly_ranges
    × WithinLimit (rounds (pos 0)) (length hourly_ranges)
unfolding get_time_ranges_chunked
ranges-IsWithin_example = ranges-IsWithin 0 hourly (pos 0) hourly_ranges refl

ranges-Covers_example : Covers hourly 0 hourly_ranges
unfolding get_time_ranges_chunked rounds
ranges-Covers_example = ranges-Covers 0 hourly (pos 0) hourly_ranges refl (omega arith) refl refl

-- A step of half a minute: the end of the first range is queried again.
abbrev half_minute : Chunking
half_minute = record {
  end_time = minutes 10;
  chunk_size = minutes 5;
  step_size = 30000000000;
  allow_incomplete = true;
}

abbrev half_minute_ranges : List Range
half_minute_ranges =
    record { start = 0; end = minutes 5; step = 30000000000 }
    ∷ record { start = minutes 5; end = minutes 10; step = 30000000000 }
    ∷ []

-- Full chunks only: what is left after the first one is not queried.
abbrev full : Chunking
full = record {
  end_time = minutes 9;
  chunk_size = minutes 5;
  step_size = minute;
  allow_incomplete = false;
}

abbrev full_ranges : List Range
full_ranges = record { start = 0; end = minutes 5; step = minute } ∷ []

-- A step of five minutes from minute five passes the end at minute seven.
abbrev long_step : Chunking
long_step = record {
  end_time = minutes 7;
  chunk_size = minutes 5;
  step_size = minutes 5;
  allow_incomplete = true;
}

abbrev long_step_ranges : List Range
long_step_ranges =
    record { start = 0; end = minutes 5; step = minutes 5 }
    ∷ record { start = minutes 10; end = minutes 7; step = minutes 5 }
    ∷ []
