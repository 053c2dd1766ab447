-- ===== src/Parser/Message.antt =====
-- A message behind a call type, in `verifyCallTypeState`: handleNextKey does not count the spaces, so
-- that the end of the piece falls behind the end of the text.
use logd_go.Base.{
  ℕ, suc, ◌+◌, ◌-◌, ◌<◌, ◌≤◌, ◌≡◌, ◌≢◌, refl, some, List, [], ◌∷◌, ◌++◌, Bytes, All, slice,
  slice_ok, length, length-append, length-drop, drop, take, count, codes, arith, ◌∙◌, ap, ◌==◌,
  if◌then◌else◌,
}
use logd_go.Utf8.{runes, runes_from}
use logd_go.Log.{Log, new_log}
use logd_go.Parser.State.{date_state, verify_call_type_state}
use logd_go.Parser.Handlers.{consume_log}
use logd_go.Parser.Run.{next, step, end_line, scan, parse}
use logd_go.Parser.Embed.{take-append_le}
use logd_go.Parser.Reading.{at, IsText, scan_text}
use logd_go.Parser.Header.{
  IsDateByte, IsHeader, IsThreadByte, read_date, read_time, read_level, read_thread, read_class,
}
use logd_go.Parser.Body.{IsFirstKey, prop, with_props, read_first_key}
use logd_go.Parser.RoundTrip.{newline, Finishes, Reaches-Finishes, scan_last, parse-scan}

-- The bytes of a message with no separator.
abbrev pub IsMessageByte : ℕ → Type 0
IsMessageByte c = IsText c × (c ≢ b':') × (c ≢ b',')

-- A message that does not begin with a space.
abbrev pub IsMessage : Bytes → Type 0
IsMessage [] = Unit
IsMessage (c ∷ s) = (c ≢ b' ') × All IsMessageByte (c ∷ s)

-- How many of its bytes the parser counts.
abbrev pub counted : Bytes → ℕ
counted [] = 0
counted (c ∷ s) = (if c == b' ' then 0 else 1) + counted s

pub counted-count : (s : Bytes) → counted s + count b' ' s ≡ length s
counted-count [] = omega arith
counted-count (c ∷ s) = ground (arith, counted-count s)

next_message :
    (c start end : ℕ) (raw : Bytes) (cur : Log)
    → IsMessageByte c
    → (c ≡ b' ' → start < end)
    → next (at verify_call_type_state start end raw cur) c
      ≡ some (at verify_call_type_state start (end + (if c == b' ' then 0 else 1)) raw cur)
unfolding next
next_message c start end raw cur h k = ground arith

scan_message :
    (s rest : Bytes) (i start end : ℕ) (raw : Bytes) (cur : Log) (logs : List Log)
    → All IsMessageByte s
    → start < end
    → scan (runes_from i 0 (s ++ rest)) (at verify_call_type_state start end raw cur) logs
      ≡ scan
          (runes_from (i + length s) 0 rest)
          (at verify_call_type_state start (end + counted s) raw cur)
          logs
scan_message [] rest i start end raw cur logs h k =
    let d : i + 0 ≡ i = omega arith in let e : end + 0 ≡ end = omega arith in rw (d, e)
scan_message (c ∷ s) rest i start end raw cur logs h k =
    let n : ℕ = if c == b' ' then 0 else 1 in
    let d : i + suc (length s) ≡ i + 1 + length s = omega arith in
    let e : end + (n + counted s) ≡ end + n + counted s = omega arith in
    rw (d, e)
      (scan_text i c (s ++ rest) (at verify_call_type_state start end raw cur)
          (at verify_call_type_state start (end + n) raw cur) logs h.0.0
          (next_message c start end raw cur h.0 (λ _. k))
        ∙ scan_message s rest (i + 1) start (end + n) raw cur logs h.1 (omega arith))

scan_whole_message :
    (s rest : Bytes) (n : ℕ) (raw : Bytes) (cur : Log) (logs : List Log)
    → IsMessage s
    → scan (runes_from n 0 (s ++ rest)) (at verify_call_type_state n n raw cur) logs
      ≡ scan
          (runes_from (n + length s) 0 rest)
          (at verify_call_type_state n (n + counted s) raw cur)
          logs
scan_whole_message [] rest n raw cur logs h = let d : n + 0 ≡ n = omega arith in rw d
scan_whole_message (c ∷ s) rest n raw cur logs h =
    let d : n + suc (length s) ≡ n + 1 + length s = omega arith in
    let one : ◌≡◌ {A = ℕ} (if c == b' ' then 0 else 1) 1 = ground arith in
    let e : n + (1 + counted s) ≡ n + 1 + counted s = omega arith in
    rw (d, one, e)
      (scan_text n c (s ++ rest) (at verify_call_type_state n n raw cur)
          (at verify_call_type_state n (n + 1) raw cur) logs h.1.0.0
          (rw one at (next_message c n n raw cur h.1.0 (λ x. absurd (h.0 x))))
        ∙ scan_message s rest (n + 1) n (n + 1) raw cur logs h.1.1 (omega arith))

slice_start :
    (n m : ℕ) (raw s t : Bytes)
    → drop n raw ≡ s ++ t
    → m ≤ length s
    → n ≤ length raw
    → slice raw n (n + m) ≡ some (take m s)
slice_start n m raw s t e h k =
    let l : length (drop n raw) ≡ length s + length t = ap length e ∙ length-append s t in
    let z : n + m - n ≡ m = omega arith in
    slice_ok raw n (n + m) (omega arith) (omega (arith, length-drop n raw))
    ∙ ap some (rw (z, e) (take-append_le m s t h))

-- The newline: a call type with a text is complete, so the piece is the message.
step_message :
    (i n m : ℕ) (raw k v : Bytes) (cur : Log) (logs : List Log)
    → IsFirstKey k
    → slice raw n m ≡ some v
    → step
        (i, b'\n')
        (at verify_call_type_state n m raw (with_props raw cur (prop (codes "callType") k ∷ [])))
        logs
      ≡ some (
        at date_state (i + 1) (i + 1) raw new_log,
        logs ++ record cur { message = v; props = prop (codes "callType") k ∷ [] } ∷ [],
      )
unfolding step end_line consume_log
step_message i n m raw [] v cur logs h e = absurd h
step_message i n m raw (c ∷ k) v cur logs h e = ground arith

finish_message :
    (raw : Bytes) (cur : Log) (k w : Bytes)
    → IsFirstKey k
    → IsMessage w
    → Finishes raw verify_call_type_state
        (with_props raw cur (prop (codes "callType") k ∷ []))
        (w ++ newline)
        (record cur { message = take (counted w) w; props = prop (codes "callType") k ∷ [] })
finish_message raw cur k w h v = record {
  finish = λ n e logs.
      let i = n + length w in
      let c = with_props raw cur (prop (codes "callType") k ∷ []) in
      let l : length (drop n raw) ≡ length w + 1 = ap length e ∙ length-append w newline in
      (
        at date_state (i + 1) (i + 1) raw new_log,
        scan_whole_message w newline n raw c logs v
            ∙ scan_last i (at verify_call_type_state n (n + counted w) raw c) logs (
                step_message i n (n + counted w) raw k (take (counted w) w) cur logs h (
                  slice_start n (counted w) raw w newline e (omega (arith, counted-count w))
                    (omega (arith, length-drop n raw)))),
      );
}

-- The fields of the log and the call type can stand in a line with the message behind the call type.
pub record IsMessageLine (l : Log) (call_type : Bytes) : Type 0 where
  pub date_ok : All IsDateByte l.date
  pub time_ok : All IsDateByte l.time
  pub level_ok : IsHeader l.level
  pub thread_ok : All IsThreadByte l.thread
  pub class_ok : IsHeader l.class
  pub call_type_ok : IsFirstKey call_type
  pub message_ok : IsMessage l.message

-- That line.
abbrev pub message_line : Log → Bytes → Bytes
message_line l call_type =
    l.date
    ++ (b' '
        ∷ (l.time
            ++ (b'\t'
                ∷ (l.level
                    ++ (b'\t'
                        ∷ b'['
                        ∷ (l.thread
                            ++ (b']'
                                ∷ b'\t'
                                ∷ (l.class
                                    ++ (b'\t'
                                        ∷ (call_type
                                            ++ (b':' ∷ b' ' ∷ (l.message ++ newline))))))))))))

pub parse-message_line :
    (l : Log) (call_type : Bytes)
    → IsMessageLine l call_type
    → parse (message_line l call_type)
      ≡ some (
          record l {
            message = take (length l.message - count b' ' l.message) l.message;
            props = prop (codes "callType") call_type ∷ [];
          }
          ∷ [])
unfolding runes
parse-message_line l call_type m =
    let raw = message_line l call_type in
    let short : counted l.message ≡ length l.message - count b' ' l.message =
      omega (arith, counted-count l.message) in
    let f : Finishes raw date_state new_log raw (record l {
      message = take (counted l.message) l.message;
      props = prop (codes "callType") call_type ∷ [];
    }) =
      Reaches-Finishes (read_date raw new_log l.date _ m.date_ok) (
        Reaches-Finishes (read_time raw _ l.time _ m.time_ok) (
          Reaches-Finishes (read_level raw _ l.level _ m.level_ok) (
            Reaches-Finishes (read_thread raw _ l.thread _ m.thread_ok) (
              Reaches-Finishes (read_class raw _ l.class _ m.class_ok) (
                Reaches-Finishes
                  (read_first_key raw (record l { message = []; props = [] }) call_type _
                    m.call_type_ok)
                  (finish_message raw (record l { message = []; props = [] }) call_type l.message
                    m.call_type_ok m.message_ok)))))) in
    let (q, e) = f.finish 0 refl [] in parse-scan raw q _ (rw short at e)
