-- ===== src/Logger/Counts.antt =====
-- The counters of the logger against the entries that were written.
use fuddle.StringMap.{lookup}
use fuddle.Metrics.{new_gauge, Runtime, value_at, update_key, value_at-inc}
use fuddle.Logger.{
  Zap, MetricsCore, Entry, Field, State, Metrics, Level, write, count_entry, subsystem_labels,
  warn_level, error_level, new_metrics,
}
use fuddle.Prelude.{
  ℕ, suc, ◌+◌, String, ◌≡◌, refl, Bool, ◌&&◌, List, [], ◌∷◌, pos, ◌+ℤ◌, leb_ℤ, string_dec, is_yes,
  ite, arith, if◌then◌else◌,
}

abbrev pub same_level : Level → Level → Bool
same_level a b = leb_ℤ a b && leb_ℤ b a

-- The subsystem under which a core's entries are counted.
abbrev pub counted_as : String → String
counted_as subsystem = ite (string_dec subsystem "") "unknown" subsystem

module _ (zap : Zap) (rt : Runtime) where
  -- A call of `Write`.
  pub record Written : Type 0 where
    pub core : MetricsCore zap
    pub entry : Entry
    pub fields : List Field

  unfoldable pub write_each : List Written → State zap → State zap
  write_each [] s = s
  write_each (w ∷ ws) s = write_each ws (write zap rt w.core w.entry w.fields s)

  -- The number of the writes at a level whose subsystem is counted under a key.
  unfoldable pub occurrences : Level → String → List Written → ℕ
  occurrences level k [] = 0
  occurrences level k (w ∷ ws) =
      let rest = occurrences level k ws in
      if same_level w.entry.level level
        && is_yes (string_dec (update_key rt (subsystem_labels (counted_as w.core.subsystem))) k)
      then suc rest
      else rest

  warnings-count_entry :
      (k subsystem : String) (level : Level) (m : Metrics)
      → value_at k (count_entry rt subsystem level m).warnings_count ≡ (
          if same_level level warn_level
            && is_yes (string_dec (update_key rt (subsystem_labels (counted_as subsystem))) k)
          then value_at k m.warnings_count +ℤ pos 1
          else value_at k m.warnings_count)
  unfolding count_entry
  warnings-count_entry k subsystem level m =
      ground (arith, value_at-inc rt (subsystem_labels (counted_as subsystem)) k m.warnings_count)

  errors-count_entry :
      (k subsystem : String) (level : Level) (m : Metrics)
      → value_at k (count_entry rt subsystem level m).errors_count ≡ (
          if same_level level error_level
            && is_yes (string_dec (update_key rt (subsystem_labels (counted_as subsystem))) k)
          then value_at k m.errors_count +ℤ pos 1
          else value_at k m.errors_count)
  unfolding count_entry
  errors-count_entry k subsystem level m =
      ground (arith, value_at-inc rt (subsystem_labels (counted_as subsystem)) k m.errors_count)

  -- The counters hold so many warnings and errors.
  IsCounted : String → (warnings errors : ℕ) → State zap → Type 0
  IsCounted k warnings errors s =
      (value_at k s.metrics.warnings_count ≡ pos warnings)
      × (value_at k s.metrics.errors_count ≡ pos errors)

  write-IsCounted :
      (k : String) (w : Written) (a b : ℕ) (s : State zap)
      → IsCounted k a b s
      → IsCounted k
          (a + occurrences warn_level k (w ∷ []))
          (b + occurrences error_level k (w ∷ []))
          (write zap rt w.core w.entry w.fields s)
  unfolding IsCounted write occurrences ◌+ℤ◌
  write-IsCounted k w a b s h = (
    ground (arith, warnings-count_entry k w.core.subsystem w.entry.level s.metrics),
    ground (arith, errors-count_entry k w.core.subsystem w.entry.level s.metrics),
  )

  occurrences-cons :
      (level : Level) (k : String) (w : Written) (ws : List Written) (a : ℕ)
      → a + occurrences level k (w ∷ ws) ≡ a + occurrences level k (w ∷ []) + occurrences level k ws
  unfolding occurrences
  occurrences-cons level k w ws a = ground arith

  writes-IsCounted :
      (k : String) (ws : List Written) (a b : ℕ) (s : State zap)
      → IsCounted k a b s
      → IsCounted k
          (a + occurrences warn_level k ws)
          (b + occurrences error_level k ws)
          (write_each ws s)
  unfolding write_each occurrences IsCounted
  writes-IsCounted k [] a b s h = ground arith
  writes-IsCounted k (w ∷ ws) a b s h =
      rw (occurrences-cons warn_level k w ws a, occurrences-cons error_level k w ws b)
        (writes-IsCounted k ws _ _ _ (write-IsCounted k w a b s h))

  abbrev pub fresh : State zap
  fresh = record { metrics = new_metrics; lines = [] }

  fresh-IsCounted : (k : String) → IsCounted k 0 0 fresh
  unfolding IsCounted new_metrics new_gauge lookup
  fresh-IsCounted k = (refl, refl)

  -- After any writes by any cores of one logger, at each key the counter of warnings holds the number
  -- of warnings, and that of errors the number of errors, which cores of a subsystem that is rendered
  -- as the key wrote; cores with none count as "unknown".
  pub write_each-IsCounted :
      (k : String) (ws : List Written)
      → (value_at k (write_each ws fresh).metrics.warnings_count
          ≡ pos (occurrences warn_level k ws))
        × (value_at k (write_each ws fresh).metrics.errors_count
            ≡ pos (occurrences error_level k ws))
  unfolding IsCounted
  write_each-IsCounted k ws =
      let h = writes-IsCounted k ws 0 0 fresh (fresh-IsCounted k) in ground arith
