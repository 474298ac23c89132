-- ===== src/Metrics.antt =====
-- pkg/metrics/metrics.go: gauges and counters. A `float64` that only counts is an integer, exact
-- below 2^53; the Prometheus vectors beside the values are output.
use Prim.Native.String.{◌++◌ as ◌<>◌}
use fuddle.Prelude.{
  ℕ, String, List, [], map, ℤ, pos, ◌+ℤ◌, ◌-ℤ◌, Option, none, some, ◌≡◌, arith, ite, string_dec,
}
use fuddle.StringMap.{StringMap, lookup, insert, lookup-insert}
use fuddle.Rpc.{Liveness}

pub record LabelledValue : Type 0 where
  pub label : String
  pub value : String

-- What the sources take from Go's libraries and from the generated messages: `strings.ToLower`,
-- `sort.Slice` by label, `strings.Join`, `Liveness.String`.
pub record Runtime : Type 0 where
  pub to_lower : String → String
  pub sort_by_label : List LabelledValue → List LabelledValue
  pub join : List String → String → String
  pub liveness_string : Liveness → String

-- `labelledValue.String`
unfoldable pub labelled_string : LabelledValue → String
labelled_string lv = lv.label <> ("=" <> lv.value)

-- A counter's or gauge's `values`.
pub record Gauge : Type 0 where
  pub values : StringMap ℤ

unfoldable pub new_gauge : Gauge
new_gauge = record { values = [] }

-- A missing key reads as 0.
abbrev pub or_zero : Option ℤ → ℤ
or_zero none = pos 0
or_zero (some v) = v

abbrev pub value_at : String → Gauge → ℤ
value_at k g = or_zero (lookup k g.values)

module _ (rt : Runtime) where
  open rt use {to_lower, sort_by_label, join}

  unfoldable pub labels_to_string : List LabelledValue → String
  unfolding labelled_string
  labels_to_string labels = join (map labelled_string (sort_by_label labels)) ","

  unfoldable pub labels_to_lowercase : List LabelledValue → List LabelledValue
  labels_to_lowercase labels =
      map {A = LabelledValue} (λ lv. record lv { value = to_lower lv.value }) labels

  -- The key that an update of `labels` writes.
  unfoldable pub update_key : List LabelledValue → String
  update_key labels = labels_to_string (labels_to_lowercase labels)

  unfoldable pub inc : List LabelledValue → Gauge → Gauge
  inc labels g =
      let k = update_key labels in record { values = insert k (value_at k g +ℤ pos 1) g.values }

  unfoldable pub dec : List LabelledValue → Gauge → Gauge
  dec labels g =
      let k = update_key labels in record { values = insert k (value_at k g -ℤ pos 1) g.values }

  unfoldable pub set : ℤ → List LabelledValue → Gauge → Gauge
  set v labels g = record { values = insert (update_key labels) v g.values }

  -- `Counter.Add`
  unfoldable pub add : ℕ → List LabelledValue → Gauge → Gauge
  add n labels g =
      let k = update_key labels in record { values = insert k (value_at k g +ℤ pos n) g.values }

  unfoldable pub value : List LabelledValue → Gauge → ℤ
  value labels g = value_at (labels_to_string labels) g

  pub value_at-inc :
      (labels : List LabelledValue) (k : String) (g : Gauge)
      → value_at k (inc labels g)
        ≡ ite (string_dec (update_key labels) k) (value_at k g +ℤ pos 1) (value_at k g)
  unfolding inc
  value_at-inc labels k g = ground (
    arith,
    lookup-insert (update_key labels) k (value_at (update_key labels) g +ℤ pos 1) g.values,
  )

  pub value_at-dec :
      (labels : List LabelledValue) (k : String) (g : Gauge)
      → value_at k (dec labels g)
        ≡ ite (string_dec (update_key labels) k) (value_at k g -ℤ pos 1) (value_at k g)
  unfolding dec
  value_at-dec labels k g = ground (
    arith,
    lookup-insert (update_key labels) k (value_at (update_key labels) g -ℤ pos 1) g.values,
  )

  pub value_at-set :
      (v : ℤ) (labels : List LabelledValue) (g : Gauge)
      → value_at (update_key labels) (set v labels g) ≡ v
  unfolding set
  value_at-set v labels g =
      ground (arith, lookup-insert (update_key labels) (update_key labels) v g.values)
