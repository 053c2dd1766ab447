-- ===== src/Parser/Tests.antt =====
-- The examples of logging/parse_test.go.
use logd_go.Base.{◌≡◌, refl, some, [], ◌∷◌, Bytes, codes, slice, String}
use logd_go.Utf8.{runes}
use logd_go.Log.{Property, Log}
use logd_go.Parser.Run.{scan, keep_rest, parse_chunk, parse}

abbrev prop : String → String → Property
prop k v = record { key = codes k; value = codes v }

abbrev log1 : Bytes
log1 =
    codes
      "2017-09-07 14:54:39,474\tDEBUG\t[pool-5-thread-6]\tcontrol.RaptorHandler\tPublisherCreateRequest: flow: Publish, step: Attempt, traceId: Publish:Rumor:012ae1a5\n"

abbrev expected1 : Log
expected1 = record {
  date = codes "2017-09-07";
  time = codes "14:54:39,474";
  level = codes "DEBUG";
  thread = codes "pool-5-thread-6";
  class = codes "control.RaptorHandler";
  message = [];
  props =
      prop "callType" "PublisherCreateRequest"
      ∷ prop "flow" "Publish"
      ∷ prop "step" "Attempt"
      ∷ prop "traceId" "Publish:Rumor:012ae1a5"
      ∷ [];
}

parse-log1 : parse log1 ≡ some (expected1 ∷ [])
unfolding parse parse_chunk scan keep_rest runes slice
parse-log1 = refl

abbrev log6 : Bytes
log6 =
    codes
      "[2017-12-05T15:09:09.858] [WARN] main - flow: , operation: closePage, url: https://10.1.6.113:6060/index, err: Error  Protocol\n"

abbrev expected6 : Log
expected6 = record {
  date = codes "2017-12-05";
  time = codes "15:09:09.858";
  level = codes "WARN";
  thread = codes "main";
  class = codes "-";
  message = [];
  props =
      prop "flow" ""
      ∷ prop "operation" "closePage"
      ∷ prop "url" "https://10.1.6.113:6060/index"
      ∷ prop "err" "Error  Protocol"
      ∷ [];
}

parse-log6 : parse log6 ≡ some (expected6 ∷ [])
unfolding parse parse_chunk scan keep_rest runes slice
parse-log6 = refl
