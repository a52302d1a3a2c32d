-- ===== src/Events.antt =====
-- internal/entities: what the events share: points, the values of a record that InfluxDB gives
-- back, and how a response reads them.
pub mod Callbacks
pub mod Origins
pub mod Security
pub mod Activities
pub mod Transactions
use insight_collector.Prelude.{
  ℕ, String, Bool, true, false, ◌&&◌, ◌||◌, not, Option, none, some, List, ◌==◌, GoMap,
  if◌then◌else◌, All, ◌≡◌,
}

-- A value of a field of a point. An `int` and a float64 are their bits.
pub data Field : Type 0 where
  text_field : String → Field
  int_field : ℕ → Field
  float_field : ℕ → Field
  bool_field : Bool → Field

-- Go's conversions of floats by their bits, and the test for zero
pub record Floats : Type 0 where
  pub truncate : ℕ → ℕ
  pub of_int : ℕ → ℕ
  pub is_zero : ℕ → Bool

-- influxdb.NewPoint
pub record Point : Type 0 where
  pub measurement : String
  pub tags : List (String × String)
  pub fields : List (String × Field)
  pub timestamp : ℕ

-- A value of a record
pub data Raw : Type 0 where
  text : String → Raw
  int64 float64 int : ℕ → Raw
  time : ℕ → Raw
  truth : Bool → Raw
  other : Raw

abbrev pub Record : Type 0
Record = GoMap Raw

-- safeString: InfluxDB has no empty tags.
abbrev pub safe_string : String → String
safe_string s = if s == "" then "-" else s

-- `if v, ok := record[key].(string); ok && v != "" && v != "-"`
abbrev pub visible : Option Raw → String
visible (some (text v)) = if not (v == "") && not (v == "-") then v else ""
visible (some (int64 _)) = ""
visible (some (float64 _)) = ""
visible (some (int _)) = ""
visible (some (time _)) = ""
visible (some (truth _)) = ""
visible (some other) = ""
visible none = ""

-- The type switch of a number
abbrev pub number : Floats → Option Raw → ℕ
number floats (some (int64 n)) = n
number floats (some (float64 x)) = floats.truncate x
number floats (some (int n)) = n
number floats (some (text _)) = 0
number floats (some (time _)) = 0
number floats (some (truth _)) = 0
number floats (some other) = 0
number floats none = 0

-- The type switch of a float64
abbrev pub float_number : Floats → Option Raw → ℕ
float_number floats (some (float64 x)) = x
float_number floats (some (int64 n)) = floats.of_int n
float_number floats (some (int n)) = floats.of_int n
float_number floats (some (text _)) = 0
float_number floats (some (time _)) = 0
float_number floats (some (truth _)) = 0
float_number floats (some other) = 0
float_number floats none = 0

-- The type switch of a bool
abbrev pub flag : Option Raw → Bool
flag (some (truth b)) = b
flag (some (text s)) = s == "true" || s == "1"
flag (some (int64 _)) = false
flag (some (float64 _)) = false
flag (some (int _)) = false
flag (some (time _)) = false
flag (some other) = false
flag none = false

-- The type switch of "_time", over `Format(time.RFC3339)`
abbrev pub moment : (ℕ → String) → Option Raw → String
moment format (some (text t)) = t
moment format (some (time t)) = format t
moment format (some (truth _)) = ""
moment format (some (int64 _)) = ""
moment format (some (float64 _)) = ""
moment format (some (int _)) = ""
moment format (some other) = ""
moment format none = ""

abbrev pub raw : Field → Raw
raw (text_field s) = text s
raw (int_field n) = int64 n
raw (float_field x) = float64 x
raw (bool_field b) = truth b

-- The record gives back the tags, the fields and the time of the point.
pub record Stores (p : Point) (r : Record) : Type 0 where
  pub tags : All (λ (kv : String × String). r kv.0 ≡ some (text kv.1)) p.tags
  pub fields : All (λ (kv : String × Field). r kv.0 ≡ some (raw kv.1)) p.fields
  pub timestamp : r "_time" ≡ some (time p.timestamp)
