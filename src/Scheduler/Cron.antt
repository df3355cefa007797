-- ===== src/Scheduler/Cron.antt =====
-- chronon-scheduler/src/cron.rs: parsed cron expressions. The crates `croner` and `chrono-tz` are
-- parameters.
use Prim.Native.String.{◌++◌ as append}
use chronon.Base.{Option, none, some, String, Instant}
use chronon.Model.Error.{Result, ok, err, invalid_cron, invalid_timezone}

-- `C` is `croner::Cron`, `Tz` is `chrono_tz::Tz`. A refused expression comes with its message.
pub record Croner (C Tz : Type 0) : Type 0 where
  pub parse_schedule : String → Option C
  pub message : String → String
  pub parse_timezone : String → Option Tz
  pub utc : Tz
  pub find_next_occurrence : C → Tz → Instant → Option Instant

pub record CronExpr (C Tz : Type 0) : Type 0 where
  pub expr : String
  pub schedule : C
  pub timezone : Tz

module _ {C Tz : Type 0} (croner : Croner C Tz) where
  resolve_timezone : Option String → Result Tz
  resolve_timezone none = ok croner.utc
  resolve_timezone (some tz_str) = elim (croner.parse_timezone tz_str) [
    | none ↦ err (invalid_timezone tz_str)
    | some tz ↦ ok tz
  ]

  unfoldable pub parse : String → Option String → Result (CronExpr C Tz)
  unfolding resolve_timezone
  parse expr timezone = elim (croner.parse_schedule expr) [
    | none ↦ err (invalid_cron (append expr (append ": " (croner.message expr))))
    | some schedule ↦ elim (resolve_timezone timezone) [
      | err e ↦ err e
      | ok tz ↦ ok (record { expr = expr; schedule = schedule; timezone = tz })
    ]
  ]

  -- Strictly after the instant: the search is not inclusive.
  unfoldable pub next_after : CronExpr C Tz → Instant → Option Instant
  next_after c after = croner.find_next_occurrence c.schedule c.timezone after
