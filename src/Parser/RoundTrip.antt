-- ===== src/Parser/RoundTrip.antt =====
-- The parser reads back what the log writes: Log.String of logging/logging.go against Parse.
use logd_go.Base.{
  ℕ, ◌+◌, ◌≡◌, refl, some, List, [], ◌∷◌, ◌++◌, Bytes, All, slice, length, drop, subst, arith, ◌∙◌,
  append_assoc,
}
use logd_go.Utf8.{runes, runes_from, decode_rune}
use logd_go.Utf8.Newlines.{runes-InRange}
use logd_go.Log.{Property, Log, new_log}
use logd_go.Log.Serialize.{or_dash, string}
use logd_go.Log.Rendered.{IsUnescapedProp, items, body, printed_props, line, string-line}
use logd_go.Parser.State.{State, Parser, date_state, transition_call_type_state, value_state}
use logd_go.Parser.Handlers.{consume_log}
use logd_go.Parser.Run.{step, end_line, scan, keep_rest, parse_chunk, new_parser, parse}
use logd_go.Parser.Total.{scan-Rounds, keep_rest_ok}
use logd_go.Parser.Reading.{at, Reaches, slice_token}
use logd_go.Parser.Header.{
  IsDateByte, IsHeader, IsThreadByte, read_date, read_time, read_level, read_thread, read_class,
}
use logd_go.Parser.Body.{
  IsKeyByte, IsFirstKey, IsValue, Scans-value, prop, set_last_value-concat, last_value-concat,
  with_props, read_first_key, read_first_value, read_key, read_value,
}

abbrev pub newline : Bytes
newline = b'\n' ∷ []

-- From the first byte of `s`, which ends the text, the loop adds the log `l`.
pub record Finishes (raw : Bytes) (st : State) (cur : Log) (s : Bytes) (l : Log) : Type 0 where
  pub finish :
      (n : ℕ)
      → drop n raw ≡ s
      → (logs : List Log)
      → (q : Parser) × (scan (runes_from n 0 s) (at st n n raw cur) logs ≡ some (q, logs ++ l ∷ []))

pub Reaches-Finishes :
    {raw s t : Bytes} {st st' : State} {cur cur' l : Log}
    → Reaches raw st cur s st' cur' t
    → Finishes raw st' cur' t l
    → Finishes raw st cur s l
Reaches-Finishes f g = record {
  finish = λ n e logs.
      let (m, d, run) = f.reach n e in let (q, h) = g.finish m d logs in (q, run logs ∙ h);
}

-- The newline behind the last value.
step_last :
    (raw : Bytes) (cur : Log) (ps : List Property) (k v : Bytes) (n m : ℕ) (logs : List Log)
    → slice raw n m ≡ some v
    → step (m, b'\n') (at value_state n m raw (with_props raw cur (ps ++ prop k [] ∷ []))) logs
      ≡ some (
        at date_state (m + 1) (m + 1) raw new_log,
        logs ++ with_props raw cur (ps ++ prop k v ∷ []) ∷ [],
      )
unfolding step end_line consume_log
step_last raw cur ps k v n m logs e =
    ground (arith, set_last_value-concat ps k [] v, last_value-concat ps k [])

decode_newline : decode_rune b'\n' [] ≡ (b'\n', 1)
unfolding decode_rune
decode_newline = refl

pub scan_last :
    (m : ℕ) (p : Parser) (logs : List Log) {s : Parser × List Log}
    → step (m, b'\n') p logs ≡ some s
    → scan (runes_from m 0 newline) p logs ≡ some s
unfolding scan runes_from
scan_last m p logs e = rw (decode_newline) (rw e)

module _ (raw : Bytes) (cur : Log) where
  -- The properties behind the first one, from the value of the last one read on.
  read_items :
      (ps : List Property) (k v : Bytes) (qs : List Property)
      → IsValue v
      → All (λ p. All IsKeyByte p.key × IsValue p.value) qs
      → Finishes raw value_state
          (with_props raw cur (ps ++ prop k [] ∷ []))
          (v ++ items qs newline)
          (with_props raw cur (ps ++ (prop k v ∷ qs)))
  read_items ps k v [] h hs = record {
    finish = λ n e logs.
        let m = n + length v in
        (
          at date_state (m + 1) (m + 1) raw new_log,
          (Scans-value raw (with_props raw cur (ps ++ prop k [] ∷ [])) v h).scans n newline logs
              ∙ scan_last m (at value_state n m raw (with_props raw cur (ps ++ prop k [] ∷ [])))
                  logs (step_last raw cur ps k v n m logs (slice_token n b'\n' raw v [] e)),
        );
  }
  read_items ps k v (q ∷ qs) h hs = Reaches-Finishes (read_value raw cur ps k v _ h) (
      Reaches-Finishes (read_key raw cur (ps ++ prop k v ∷ []) q.key _ hs.0.0) (
        subst
          (λ x.
            Finishes raw value_state
              (with_props raw cur ((ps ++ prop k v ∷ []) ++ prop q.key [] ∷ []))
              (q.value ++ items qs newline) (with_props raw cur x))
          (append_assoc ps (prop k v ∷ []) (q ∷ qs))
          (read_items (ps ++ prop k v ∷ []) q.key q.value qs hs.0.1 hs.1)))

-- A log whose text form the parser can take apart again: the header fields hold no separator of
-- theirs, there are at least two properties, the message counted, nothing is to be escaped, and keys and
-- values hold no separator. A space is allowed in the first key and in every value but the first.
pub record IsPrintable (l : Log) : Type 0 where
  pub date_ok : All IsDateByte l.date
  pub time_ok : All IsDateByte l.time
  pub level_ok : IsHeader l.level
  pub thread_ok : All IsThreadByte (or_dash l.thread)
  pub class_ok : IsHeader (or_dash l.class)
  pub head : Property
  pub tail : List Property
  pub has_props : l.props ≡ head ∷ tail
  pub first : Property
  pub second : Property
  pub others : List Property
  pub two_props : printed_props l ≡ first ∷ second ∷ others
  pub unescaped : All IsUnescapedProp (printed_props l)
  pub first_key : IsFirstKey first.key
  pub first_value : All IsKeyByte first.value
  pub others_ok : All (λ p. All IsKeyByte p.key × IsValue p.value) (second ∷ others)

-- What is read back: a dash stands for an empty thread or class, and the message is a property.
abbrev pub read_back : Log → Log
read_back l = record l {
  thread = or_dash l.thread;
  class = or_dash l.class;
  message = [];
  props = printed_props l;
}

read_body :
    (raw : Bytes) (cur : Log) (p q : Property) (ps : List Property)
    → IsFirstKey p.key
    → All IsKeyByte p.value
    → All (λ x. All IsKeyByte x.key × IsValue x.value) (q ∷ ps)
    → Finishes raw transition_call_type_state
        (with_props raw cur [])
        (body (p ∷ q ∷ ps) newline)
        (with_props raw cur (p ∷ q ∷ ps))
read_body raw cur p q ps h k hs = Reaches-Finishes (read_first_key raw cur p.key _ h) (
    Reaches-Finishes (read_first_value raw cur p.key p.value _ k) (
      Reaches-Finishes (read_key raw cur (p ∷ []) q.key _ hs.0.0)
        (read_items raw cur (p ∷ []) q.key q.value ps hs.0.1 hs.1)))

read_line :
    (raw : Bytes) (l : Log)
    → IsPrintable l
    → Finishes raw date_state new_log (line l newline) (read_back l)
read_line raw l v = Reaches-Finishes (read_date raw new_log l.date _ v.date_ok) (
    Reaches-Finishes (read_time raw _ l.time _ v.time_ok) (
      Reaches-Finishes (read_level raw _ l.level _ v.level_ok) (
        Reaches-Finishes (read_thread raw _ (or_dash l.thread) _ v.thread_ok) (
          Reaches-Finishes (read_class raw _ (or_dash l.class) _ v.class_ok) (
            rw v.two_props (
              read_body raw (record (read_back l) { props = [] }) v.first v.second v.others
                v.first_key v.first_value v.others_ok))))))

-- The logs of the function Parse are those of its loop.
pub parse-scan :
    (raw : Bytes) (q : Parser) (out : List Log)
    → scan (runes raw) (record new_parser { raw = raw }) [] ≡ some (q, out)
    → parse raw ≡ some out
unfolding parse parse_chunk
parse-scan raw q out e =
    let t =
      scan-Rounds 0 (runes raw) (record new_parser { raw = raw }) [] (omega arith)
        (runes-InRange raw) (ground arith) in
    let kept : keep_rest q
        ≡ some (record t.after { raw = drop t.after.start t.after.raw; start = 0; end = 0 }) =
      cc (e, t.returns, keep_rest_ok t.after t.inv) in
    rw e (rw kept)

-- Parse on the text form of a printable log and a newline gives that log back: every field, every
-- property in order, the message as the last property, and a dash for an empty thread or class.
pub parse-string : (l : Log) → IsPrintable l → parse (string l ++ newline) ≡ some (read_back l ∷ [])
unfolding runes
parse-string l v =
    let raw = line l newline in
    let (q, e) = (read_line raw l v).finish 0 refl [] in
    rw (string-line l v.head v.tail newline v.has_props v.unescaped)
      (parse-scan raw q (read_back l ∷ []) e)
