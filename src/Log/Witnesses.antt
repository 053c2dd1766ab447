-- ===== src/Log/Witnesses.antt =====
-- The theorems about logs at concrete ones, and runs of logging/logging_test.go.
use logd_go.Base.{
  ◌≡◌, ◌≢◌, refl, true, not, ◌||◌, some, [], ◌∷◌, ◌++◌, Bytes, codes, equal, arith, is_empty,
  String,
}
use logd_go.Utf8.{runes}
use logd_go.Log.{Property, Log, find_prop, classify, key_timestamp, get, set, remove}
use logd_go.Log.Fields.{Updates, set-get}
use logd_go.Log.Timestamp.{get-set-timestamp}
use logd_go.Log.Remove.{UniqueKeys, Removes, remove-get}
use logd_go.Log.Serialize.{
  escaped, escape_runes, append_prop, append_props, append_message, serialize_in, write_to,
  write_json_to, string, json,
}

abbrev prop : String → String → Property
prop k v = record { key = codes k; value = codes v }

abbrev sample : Log
sample = record {
  date = codes "2017-24-11";
  time = codes "111111,111";
  level = codes "INFO";
  thread = [];
  class = [];
  message = codes "my message";
  props = prop "flow" "myFlow" ∷ prop "a" "1234" ∷ prop "b" "xxx" ∷ [];
}

abbrev flow : Bytes
flow = codes "flow"

flow-ne-timestamp : flow ≢ key_timestamp
flow-ne-timestamp = λ e. cc

sample_unique : UniqueKeys sample.props
unfolding find_prop equal
sample_unique = ground arith

set-get_example :
    (l : Log) × (set sample flow (codes "new") ≡ some (l, (get sample flow).1))
    × Updates flow (codes "new") sample l
set-get_example = set-get sample flow (codes "new") flow-ne-timestamp

get-set-timestamp_example :
    (d : Bytes) × (t : Bytes) × (codes "a b" ≡ d ++ (b' ' ∷ t))
    × (set sample key_timestamp (codes "a b")
        ≡ some (
          record sample { date = d; time = t },
          not (is_empty sample.date) || not (is_empty sample.time),
        ))
    × (get (record sample { date = d; time = t }) key_timestamp ≡ (codes "a b", true))
get-set-timestamp_example = get-set-timestamp sample (codes "a b") refl

remove-get_example :
    (l : Log) × (remove sample flow ≡ some (l, (get sample flow).1)) × Removes flow sample l
remove-get_example = remove-get sample flow flow-ne-timestamp sample_unique

abbrev with_new : Log
with_new = record sample { props = prop "flow" "new" ∷ prop "a" "1234" ∷ prop "b" "xxx" ∷ [] }

set-flow : set sample flow (codes "new") ≡ some (with_new, true)
unfolding set classify
set-flow = refl

string-sample :
    string sample
    ≡ codes "2017-24-11 111111,111\tINFO\t[-]\t-\tflow: myFlow, a: 1234, b: xxx, msg: my message"
unfolding string write_to serialize_in append_message append_props append_prop escape_runes escaped
    runes
string-sample = refl

json-sample :
    json sample
    ≡ codes
        "{\"timestamp\": \"2017-24-11 111111,111\", \"level\": \"INFO\", \"thread\": \"\", \"class\": \"\", \"flow\": \"myFlow\", \"a\": \"1234\", \"b\": \"xxx\", \"msg\": \"my message\"}"
unfolding json write_json_to serialize_in append_message append_props append_prop escape_runes
    escaped runes
json-sample = refl
