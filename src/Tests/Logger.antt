-- ===== src/Tests/Logger.antt =====
-- Loggers over a core that keeps the entries of level info and above.
use fuddle.Metrics.{value_at}
use fuddle.Logger.{
  Zap, MetricsCore, Entry, warn_level, error_level, info_level, check, new_metrics_core, logger_of,
}
use fuddle.Logger.Counts.{Written, occurrences, write_each, fresh, write_each-IsCounted}
use fuddle.Logger.Lines.{write_checked, check-lines}
use fuddle.Tests.Data.{plain_runtime}
use fuddle.Prelude.{◌≡◌, ◌+◌, List, [], ◌∷◌, pos, leb_ℤ, length}

abbrev info_zap : Zap
info_zap = record {
  Core = Unit {0};
  with_fields = λ c fields. c;
  adds = λ c entry. leb_ℤ info_level entry.level;
  enabled = λ c level. leb_ℤ info_level level;
}

abbrev root : MetricsCore info_zap
root = new_metrics_core info_zap tt

abbrev slow : Entry
slow = record { level = warn_level; message = "slow" }

abbrev failed : Entry
failed = record { level = error_level; message = "failed" }

abbrev written : List (Written info_zap plain_runtime)
written =
    record { core = logger_of info_zap root "gossip"; entry = slow; fields = [] }
    ∷ record { core = root; entry = failed; fields = [] }
    ∷ []

write_each-IsCounted_example :
    (value_at "subsystem=gossip"
        (write_each info_zap plain_runtime written
          (fresh info_zap plain_runtime)).metrics.warnings_count
      ≡ pos (occurrences info_zap plain_runtime warn_level "subsystem=gossip" written))
    × (value_at "subsystem=gossip"
          (write_each info_zap plain_runtime written
            (fresh info_zap plain_runtime)).metrics.errors_count
        ≡ pos (occurrences info_zap plain_runtime error_level "subsystem=gossip" written))
write_each-IsCounted_example =
    write_each-IsCounted info_zap plain_runtime "subsystem=gossip" written

check-lines_example :
    length
      (write_checked info_zap plain_runtime
        (check info_zap root slow [])
        slow
        []
        (fresh info_zap plain_runtime)).lines
    ≡ 0 + 1 + 1
check-lines_example = check-lines info_zap plain_runtime root slow [] (fresh info_zap plain_runtime)
