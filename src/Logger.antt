-- ===== src/Logger.antt =====
-- pkg/logger/metrics.go and logger.go: the zap core that counts warnings and errors. The core that it
-- wraps is zap's, a parameter. The metrics are one object that all cores of a logger share, so they
-- are part of the state, with the lines that reached a wrapped core.
pub mod Counts
pub mod Lines
use fuddle.Metrics.{Runtime, Gauge, LabelledValue, new_gauge, inc}
use fuddle.Prelude.{
  String, Bool, true, false, not, ◌&&◌, List, [], ◌∷◌, ℤ, pos, negsuc, leb_ℤ, string_dec, is_yes,
  ite, if◌then◌else◌,
}

-- `zapcore.Level`: debug is -1, info 0, warn 1, error 2.
abbrev pub Level : Type 0
Level = ℤ

abbrev pub debug_level : Level
debug_level = negsuc 0

abbrev pub info_level : Level
info_level = pos 0

abbrev pub warn_level : Level
warn_level = pos 1

abbrev pub error_level : Level
error_level = pos 2

unfoldable pub string_to_level : String → Level
string_to_level lvl = ite (string_dec lvl "debug") debug_level (
    ite (string_dec lvl "info") info_level (
      ite (string_dec lvl "warn") warn_level (ite (string_dec lvl "error") error_level info_level)))

-- The parts of `zapcore.Field` and `zapcore.Entry` that are read.
pub record Field : Type 0 where
  pub key : String
  pub string : String

pub record Entry : Type 0 where
  pub level : Level
  pub message : String

-- What the code uses of a zap core. `adds` tells whether its `Check` adds the core to the entry.
pub record Zap : Type 1 where
  pub Core : Type 0
  pub with_fields : Core → List Field → Core
  pub adds : Core → Entry → Bool
  pub enabled : Core → Level → Bool

pub record Metrics : Type 0 where
  pub warnings_count : Gauge
  pub errors_count : Gauge

unfoldable pub new_metrics : Metrics
unfolding new_gauge
new_metrics = record { warnings_count = new_gauge; errors_count = new_gauge }

abbrev pub subsystem_labels : String → List LabelledValue
subsystem_labels subsystem = record { label = "subsystem"; value = subsystem } ∷ []

-- The loop of `With`.
unfoldable pub subsystem_of : String → List Field → String
subsystem_of subsystem [] = subsystem
subsystem_of subsystem (field ∷ fields) =
    subsystem_of
      (if is_yes (string_dec field.key "subsystem") && not (is_yes (string_dec field.string ""))
        then field.string
        else subsystem)
      fields

-- The counts that an entry adds.
unfoldable pub count_entry : Runtime → String → Level → Metrics → Metrics
count_entry rt subsystem level m =
    let subsystem = ite (string_dec subsystem "") "unknown" subsystem in
    let labels = subsystem_labels subsystem in
    record {
      warnings_count =
          if leb_ℤ level warn_level && leb_ℤ warn_level level
          then inc rt labels m.warnings_count
          else m.warnings_count;
      errors_count =
          if leb_ℤ level error_level && leb_ℤ error_level level
          then inc rt labels m.errors_count
          else m.errors_count;
    }

module _ (zap : Zap) where
  open zap use {Core, with_fields, adds, enabled}

  pub record MetricsCore : Type 0 where
    pub subsystem : String
    pub core : Core

  -- A line that a wrapped core was told to write.
  pub record Line : Type 0 where
    pub core : Core
    pub entry : Entry
    pub fields : List Field

  pub record State : Type 0 where
    pub metrics : Metrics
    pub lines : List Line

  -- A core that a checked entry will be written by.
  pub data Checked : Type 0 where
    counting : MetricsCore → Checked
    base : Core → Checked

  unfoldable pub new_metrics_core : Core → MetricsCore
  new_metrics_core core = record { subsystem = ""; core = core }

  -- `metricsCore.With`
  unfoldable pub with_subsystem : MetricsCore → List Field → MetricsCore
  unfolding subsystem_of
  with_subsystem c fields = record {
    subsystem = subsystem_of "" fields;
    core = with_fields c.core fields;
  }

  -- `Logger.Logger`
  unfoldable pub logger_of : MetricsCore → String → MetricsCore
  unfolding with_subsystem
  logger_of c subsystem = with_subsystem c (record { key = "subsystem"; string = subsystem } ∷ [])

  -- `metricsCore.Check`: the cores are added to those that the entry has.
  unfoldable pub check : MetricsCore → Entry → List Checked → List Checked
  check c entry ce =
      let ce' = if leb_ℤ warn_level entry.level then counting c ∷ ce else ce in
      if adds c.core entry then base c.core ∷ ce' else ce'

  -- `metricsCore.Enabled`
  unfoldable pub is_enabled : MetricsCore → Level → Bool
  is_enabled c level = if leb_ℤ warn_level level then true else enabled c.core level

  unfoldable pub write_base : Core → Entry → List Field → State → State
  write_base core entry fields s = record s {
    lines = record { core = core; entry = entry; fields = fields } ∷ s.lines;
  }

  -- `metricsCore.Write`
  unfoldable pub write : Runtime → MetricsCore → Entry → List Field → State → State
  unfolding count_entry write_base
  write rt c entry fields s =
      write_base c.core entry fields
        (record s { metrics = count_entry rt c.subsystem entry.level s.metrics })
