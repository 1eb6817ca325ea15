-- ===== src/Config/Examples.antt =====
-- Settings read from an environment that writes a number as its sign and so many strokes.
use real_time_data_pipeline.Base.{◌≡◌, refl}
use real_time_data_pipeline.Base.Errors.{returned}
use real_time_data_pipeline.Value.{pos}
use real_time_data_pipeline.Config.{parse_watermark_seconds}
use real_time_data_pipeline.Config.Strokes.{to_int}

two_minutes : parse_watermark_seconds to_int " +|| minutes" ≡ returned (pos 120)
unfolding parse_watermark_seconds
two_minutes = refl
