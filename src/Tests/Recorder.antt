-- ===== src/Tests/Recorder.antt =====
-- internal/memory/controller.go and internal/recorder/gop_assembler.go at concrete inputs.
use record_storage.Common.{◌≡◌, refl, true, List, [], ◌∷◌, ◌++◌, All}
use record_storage.Memory.{Controller, get_pressure_level, should_drop_frame}
use record_storage.Sample.{frame_b, Sample}
use record_storage.Gop.{new_assembler}
use record_storage.Gop.Invariant.{IsGop, IsValid}
use record_storage.Gop.Partition.{feed_all, feed_all_partition, concat, from_key}
use record_storage.Tests.Data.{key_sample, next_sample}

abbrev half_full : Controller
half_full = record { max_bytes = 1000; used_bytes = 500 }

abbrev nearly_full : Controller
nearly_full = record { max_bytes = 1000; used_bytes = 950 }

abbrev loaded : Controller
loaded = record { max_bytes = 1000; used_bytes = 850 }

dropped : should_drop_frame loaded frame_b ≡ true
unfolding should_drop_frame get_pressure_level
dropped = refl

-- Beyond the limits of the theorem the rounding shows: the exact ratio is below 0.8.
rounded_up :
    should_drop_frame
      (record { max_bytes = 90071992547409920; used_bytes = 72057594037927935 })
      frame_b
    ≡ true
unfolding should_drop_frame get_pressure_level
rounded_up = refl

abbrev stream : List Sample
stream = next_sample ∷ key_sample ∷ next_sample ∷ key_sample ∷ []

feed_all_partition_example :
    (concat (feed_all new_assembler stream).1 ++ (feed_all new_assembler stream).0.samples
      ≡ from_key stream)
    × All IsGop (feed_all new_assembler stream).1
    × IsValid (feed_all new_assembler stream).0
feed_all_partition_example = feed_all_partition stream
