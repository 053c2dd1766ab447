-- ===== src/Parser/Witnesses.antt =====
-- The theorems about the parser at concrete texts.
use logd_go.Base.{
  ◌≡◌, ◌≢◌, refl, none, some, List, [], ◌∷◌, ◌++◌, Bytes, codes, count, length, take, arith, slice,
  ◌-◌, ◌>>=◌, true,
}
use logd_go.Utf8.{runes}
use logd_go.Log.{Log, new_log}
use logd_go.Log.Serialize.{string}
use logd_go.Parser.State.{Parser, multi_key_state}
use logd_go.Parser.Run.{scan, keep_rest, parse_chunk, new_parser, parse}
use logd_go.Parser.Total.{IsReady, parse_chunk_total, parse_chunk_panics}
use logd_go.Parser.Lines.{parse_chunk-append}
use logd_go.Parser.Body.{prop}
use logd_go.Parser.Cut.{regular}
use logd_go.Parser.Cut.Stream.{parse_all, concat, parse_all-concat}
use logd_go.Parser.RoundTrip.{newline, IsPrintable, read_back, parse-string}
use logd_go.Parser.Batch.{lines, read_all, parse-append, parse-lines}
use logd_go.Parser.Message.{IsMessageLine, message_line, parse-message_line}

new_parser-IsReady : IsReady new_parser
new_parser-IsReady = ground arith

parse_chunk_total_example :
    (p' : Parser) × (out : List Log) × (parse_chunk new_parser (codes "a\nb") []
      ≡ some (p', [] ++ out))
    × (length out ≡ count b'\n' (new_parser.raw ++ codes "a\nb"))
    × (p'.state ≢ multi_key_state → IsReady p')
parse_chunk_total_example = parse_chunk_total new_parser (codes "a\nb") [] new_parser-IsReady

-- A parser that is left behind a colon, by a key with two spaces at its end.
abbrev cut_off : Parser
cut_off = record {
  state = multi_key_state;
  start = 0;
  end = 0;
  raw = codes " ::";
  current = record new_log {
    date = codes "1";
    time = codes "2";
    level = codes "INFO";
    thread = codes "t";
    class = codes "C";
    props = prop (codes "a") (codes "1") ∷ prop (codes "k") [] ∷ [];
  };
}

parse_chunk-cut_off :
    parse_chunk new_parser (codes "1 2\tINFO\t[t]\tC\ta: 1, k  ::") [] ≡ some (cut_off, [])
unfolding parse_chunk scan keep_rest runes slice
parse_chunk-cut_off = refl

parse_chunk_panics_example : parse_chunk cut_off (codes "x\n") [] ≡ none
parse_chunk_panics_example =
    parse_chunk_panics cut_off (codes "x\n") (codes "::x\n") [] refl refl refl

parse_chunk-append_example :
    parse_chunk new_parser (codes "a\nb") []
    ≡ (parse_chunk new_parser (codes "a\n") [] >>= λ s. parse_chunk s.0 (codes "b") s.1)
parse_chunk-append_example =
    parse_chunk-append new_parser (codes "a") (codes "b") [] new_parser-IsReady

parse-append_example :
    parse (codes "a\nb\n")
    ≡ (parse (codes "a\n") >>= λ one. parse (codes "b\n") >>= λ two. some (one ++ two))
parse-append_example = parse-append (codes "a") (codes "b\n")

abbrev entry : Log
entry = record {
  date = codes "2017-11-16";
  time = codes "19:07:56,883";
  level = codes "WARN";
  thread = [];
  class = codes "control.Handler";
  message = codes "it works";
  props = prop (codes "flow") (codes "Update") ∷ prop (codes "id") (codes "a:b c") ∷ [];
}

entry-IsPrintable : IsPrintable entry
entry-IsPrintable = record {
  date_ok = ground arith;
  time_ok = ground arith;
  level_ok = ground arith;
  thread_ok = ground arith;
  class_ok = ground arith;
  head = prop (codes "flow") (codes "Update");
  tail = prop (codes "id") (codes "a:b c") ∷ [];
  has_props = refl;
  first = prop (codes "flow") (codes "Update");
  second = prop (codes "id") (codes "a:b c");
  others = prop (codes "msg") (codes "it works") ∷ [];
  two_props = refl;
  unescaped = ground arith;
  first_key = ground arith;
  first_value = ground arith;
  others_ok = ground arith;
}

parse-string_example : parse (string entry ++ newline) ≡ some (read_back entry ∷ [])
parse-string_example = parse-string entry entry-IsPrintable

parse-lines_example : parse (lines (entry ∷ entry ∷ [])) ≡ some (read_all (entry ∷ entry ∷ []))
parse-lines_example = parse-lines (entry ∷ entry ∷ []) (entry-IsPrintable, (entry-IsPrintable, tt))

abbrev greeting : Log
greeting = record entry { thread = codes "main"; message = codes "one two three"; props = [] }

greeting-IsMessageLine : IsMessageLine greeting (codes "only")
greeting-IsMessageLine = record {
  date_ok = ground arith;
  time_ok = ground arith;
  level_ok = ground arith;
  thread_ok = ground arith;
  class_ok = ground arith;
  call_type_ok = ground arith;
  message_ok = ground arith;
}

parse-message_line_example :
    parse (message_line greeting (codes "only"))
    ≡ some (
        record greeting {
          message = take (length greeting.message - count b' ' greeting.message) greeting.message;
          props = prop (codes "callType") (codes "only") ∷ [];
        }
        ∷ [])
parse-message_line_example = parse-message_line greeting (codes "only") greeting-IsMessageLine

cut_short :
    ◌≡◌ {A = Bytes}
      (take (length greeting.message - count b' ' greeting.message) greeting.message)
      (codes "one two thr")
cut_short = refl

-- A line in parts that end inside a field of the header, inside a value and inside a key.
abbrev line_begins : Bytes
line_begins = codes "1 2\tDEB"

abbrev line_parts : List Bytes
line_parts = codes "UG\t[t 1]\tC\tGo: flow: Pub" ∷ codes "lish a:b c, st" ∷ []

abbrev line_ends : Bytes
line_ends = codes "ep: 3\nx"

line_parts-regular :
    regular
      (runes (line_begins ++ concat line_parts))
      (record new_parser { raw = line_begins ++ concat line_parts })
    ≡ true
unfolding regular runes slice
line_parts-regular = refl

line_parts-logs :
    parse_all (line_begins ∷ (line_parts ++ line_ends ∷ [])) new_parser []
    ≡ parse_chunk new_parser (codes "1 2\tDEBUG\t[t 1]\tC\tGo: flow: Publish a:b c, step: 3\nx") []
unfolding parse_all parse_chunk scan keep_rest runes slice
line_parts-logs = refl

parse_all-concat_example :
    parse_all (line_begins ∷ (line_parts ++ line_ends ∷ [])) new_parser []
    ≡ parse_chunk new_parser (line_begins ++ (concat line_parts ++ line_ends)) []
parse_all-concat_example =
    parse_all-concat new_parser [] line_ends new_parser-IsReady line_begins line_parts
      (ground arith) line_parts-regular
