-- ===== src/Producer/Generator/Examples.antt =====
-- Events of the generator, with a defect and without.
use real_time_data_pipeline.Base.{ℕ, ◌≡◌, refl, true, false, arith}
use real_time_data_pipeline.Base.Errors.{raised}
use real_time_data_pipeline.Sink.Statements.{permanent_defect, validate}
use real_time_data_pipeline.Stream.Schema.{Conforms, next_event-Conforms}
use real_time_data_pipeline.Producer.Generator.{Draw, GeneratorConf, Generator, Format, next_event}
use real_time_data_pipeline.Producer.Generator.Trips.{validate-next_event}

abbrev fmt : Format
fmt = record {
  decimal = λ d n. "1.5";
  instant = λ n. "2024-01-01T00:00:00Z";
  driver_id = λ n. "drv_1";
  rider_id = λ n. "rdr_1";
}

abbrev conf : GeneratorConf
conf = record { producer_id = "producer-1"; late_event_ratio = 10; malformed_ratio = 100 }

abbrev draw : ℕ → Draw
draw malformed = record {
  city = 2;
  vehicle = 1;
  payment = 0;
  distance = 4200;
  speed = 24000;
  jitter_ms = 100000;
  is_surged = true;
  surge = 150;
  is_cancelled = false;
  pays_fee = false;
  shortened = 300;
  late = 500;
  lateness_ms = 60000;
  lag_ms = 900;
  malformed = malformed;
  trip_id = "5f8c";
  event_id = "77aa";
  driver = 17;
  rider = 23;
  pickup = 4;
  dropoff = 9;
}

abbrev fresh : Generator
fresh = record { late_count = 0; malformed_count = 0 }

validate-next_event_example :
    validate (next_event fmt conf 1700000000000 (draw 7) fresh).0
    ≡ raised (permanent_defect "fare_amount is null")
validate-next_event_example =
    validate-next_event fmt conf 1700000000000 (draw 7) fresh (refl, refl, (λ n. refl), λ n. refl)

next_event-Conforms_example : Conforms true (next_event fmt conf 1700000000000 (draw 7) fresh).0
next_event-Conforms_example =
    next_event-Conforms fmt conf 1700000000000 (draw 7) fresh (omega arith)
      (omega arith, omega arith, omega arith, omega arith)
