-- ===== src/Logger/Lines.antt =====
-- How often an entry reaches the core that is wrapped, and under which subsystem it is counted.
use fuddle.Metrics.{Runtime}
use fuddle.Logger.{
  Zap, MetricsCore, Checked, counting, base, Entry, Field, State, check, write, write_base,
  warn_level, with_subsystem, logger_of, subsystem_of,
}
use fuddle.Prelude.{
  ◌+◌, String, ◌≡◌, refl, ◌≢◌, Bool, false, not, ◌&&◌, List, [], ◌∷◌, leb_ℤ, string_dec, is_yes,
  arith, if◌then◌else◌, All, length,
}

module _ (zap : Zap) (rt : Runtime) where
  open zap use {Core, with_fields, adds, enabled}

  -- zap's `CheckedEntry.Write` calls the `Write` of each core that was added.
  unfoldable pub write_checked : List (Checked zap) → Entry → List Field → State zap → State zap
  write_checked [] entry fields s = s
  write_checked (counting c ∷ ce) entry fields s =
      write_checked ce entry fields (write zap rt c entry fields s)
  write_checked (base core ∷ ce) entry fields s =
      write_checked ce entry fields (write_base zap core entry fields s)

  -- An entry that is checked and then written reaches the wrapped core twice if it is a warning or
  -- worse and that core takes its level, and once if it is only one of these.
  pub check-lines :
      (c : MetricsCore zap) (entry : Entry) (fields : List Field) (s : State zap)
      → length (write_checked (check zap c entry []) entry fields s).lines
        ≡ length s.lines
          + (if leb_ℤ warn_level entry.level then 1 else 0)
          + (if adds c.core entry then 1 else 0)
  unfolding write_checked check write write_base
  check-lines c entry fields s = ground arith

  unfoldable pub is_subsystem : Field → Bool
  is_subsystem f = is_yes (string_dec f.key "subsystem") && not (is_yes (string_dec f.string ""))

  none_is_subsystem :
      (subsystem : String) (fields : List Field)
      → All (λ f. is_subsystem f ≡ false) fields
      → subsystem_of subsystem fields ≡ subsystem
  unfolding subsystem_of is_subsystem
  none_is_subsystem subsystem [] h = refl
  none_is_subsystem subsystem (f ∷ fields) h = rw (h.0) (none_is_subsystem subsystem fields h.1)

  -- The logger of a subsystem counts under its name, but a logger made from it with fields of which
  -- none names a subsystem counts under no subsystem.
  pub logger_of-with_subsystem :
      (c : MetricsCore zap) (name : String) (fields : List Field)
      → name ≢ ""
      → All (λ f. is_subsystem f ≡ false) fields
      → ((logger_of zap c name).subsystem ≡ name)
        × ((with_subsystem zap (logger_of zap c name) fields).subsystem ≡ "")
  unfolding logger_of with_subsystem subsystem_of string_dec
  logger_of-with_subsystem c name fields n h = (ground arith, none_is_subsystem "" fields h)
