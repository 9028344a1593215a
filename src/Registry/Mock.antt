-- ===== src/Registry/Mock.antt =====
-- The mock adapter: internal/registry/mock.go, behind its simulated delay.
pub mod Samples
pub mod Lookups
use route_ans.Prelude.{
  ◌*◌, Option, codes, none, some, List, [], ◌∷◌, Text, text_eq, Result, ok, err, if◌then◌else◌,
}
use route_ans.Prelude.Int.{ℤ, pos}
use route_ans.Ansname.Record.{AnsName, string}
use route_ans.Cache.Table.{lookup, insert}
use route_ans.Registry.Record.{Record, Adapter, LookupError, not_found}

-- `mockAdapter.records`
abbrev pub Records : Type 0
Records = List (Text × Record)

-- `mockAdapter`, without its lock
record MockAdapter : Type 0 where
  records : Records
  name : Text
  priority : ℤ
  delay : ℤ

-- `mockDelay`, if it is there and `time.ParseDuration` reads it, or ten milliseconds.
abbrev delay_or_default : (Text → Option ℤ) → Option Text → ℤ
delay_or_default parse_duration none = pos (10 * 1000000)
delay_or_default parse_duration (some text) = elim (parse_duration text) [
  | none ↦ pos (10 * 1000000)
  | some d ↦ d
]

-- `NewMockAdapter`, on the priority of its options
unfoldable new_mock_adapter : (Text → Option ℤ) → ℤ → Option Text → MockAdapter
new_mock_adapter parse_duration priority mock_delay = record {
  records = [];
  name = codes "mock";
  priority = priority;
  delay = delay_or_default parse_duration mock_delay;
}

-- `AddRecord`
unfoldable pub add_record : Record → Records → Records
add_record r m = insert r.ans_name r m

-- `Lookup`
unfoldable pub lookup_record : Records → AnsName → Result LookupError Record
lookup_record m name = elim (lookup (string name) m) [
  | none ↦ err (not_found (string name))
  | some r ↦ ok r
]

-- `LookupByFQDN`, over the records in the order in which the map is walked.
unfoldable pub records_of_fqdn : Text → Records → List Record
records_of_fqdn fqdn [] = []
records_of_fqdn fqdn ((k, r) ∷ m) =
    let rest = records_of_fqdn fqdn m in if text_eq r.fqdn fqdn then r ∷ rest else rest

abbrev pub mock_adapter : Records → Adapter
mock_adapter m = record {
  lookup = lookup_record m;
  lookup_by_fqdn = λ fqdn. ok (records_of_fqdn fqdn m);
}
