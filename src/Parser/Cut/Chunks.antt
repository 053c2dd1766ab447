-- ===== src/Parser/Cut/Chunks.antt =====
-- logging/parse.go: two calls of Parse on the two parts of a text.
use logd_go.Base.{
  ◌+◌, ◌≡◌, refl, sym, subst, ap, ◌∙◌, true, some, List, [], ◌++◌, Bytes, All, length, arith,
  append_assoc, append-nil, All-append_right, length-append, ◌>>=◌,
}
use logd_go.Utf8.{runes}
use logd_go.Utf8.Newlines.{InRange, runes-InRange}
use logd_go.Utf8.Concat.{shift_runes, shift_runes_zero}
use logd_go.Log.{Log}
use logd_go.Parser.State.{State, Parser}
use logd_go.Parser.Run.{scan, keep_rest, parse_chunk}
use logd_go.Parser.Total.{IsReady, scan-Rounds}
use logd_go.Parser.Embed.{embed, drop-append_add}
use logd_go.Parser.Append.{scan-embed}
use logd_go.Parser.Lines.{scan-append, keep_rest-embed}
use logd_go.Parser.Cut.{
  indexed, IsAscii, regular, field_at, field_start, fresh-Kept, runes-ascii, runes-indexed,
}
use logd_go.Parser.Cut.Field.{at, Open, field-Inv}
use logd_go.Parser.Cut.Scan.{Scanned, scan-Scanned}
use logd_go.Parser.Cut.Rescan.{rescan, InRange-shift, shift-shift_runes}

-- What the rest of the text comes to, behind the field alone.
record Rest (st : State) (cur : Log) (w b : Bytes) (logs : List Log) : Type 0 where
  after : Parser
  all : List Log
  scans : scan (shift_runes (length w) (runes b)) (field_at st cur w b) logs ≡ some (after, all)

rest :
    (st : State) (cur : Log) (w b : Bytes) (logs : List Log) → Open st cur w → Rest st cur w b logs
rest st cur w b logs o =
    let e : length w + length b ≡ length (w ++ b) = omega (arith, length-append w b) in
    let z : length w + 0 ≡ length w = omega arith in
    let v : InRange (length w) (length (w ++ b)) (shift_runes (length w) (runes b)) =
      rw (z, e) at (InRange-shift (length w) 0 (length b) (runes b) (runes-InRange b)) in
    let t =
      scan-Rounds (length w) (shift_runes (length w) (runes b)) (field_at st cur w b) logs
        (omega (arith, e)) v (field-Inv st cur w b o) in
    record { after = t.after; all = logs ++ t.added; scans = t.returns }

-- The second call, on what the first one keeps.
second_call :
    (st : State) (cur : Log) (w b : Bytes) (logs : List Log)
    → Open st cur w
    → (t : Rest st cur w b logs) → All IsAscii w
    → parse_chunk (field_start st cur w) b logs ≡ (keep_rest t.after >>= (λ q. some (q, t.all)))
unfolding parse_chunk
second_call st cur w b logs o t h = rw (runes-ascii w b h) (
    rw
      (scan-append (indexed 0 w) (shift_runes (length w) (runes b)) (field_start st cur (w ++ b))
        logs)
      (rw (rescan st cur w b logs o.kept) (rw t.scans refl)))

-- Of the first text, Parse keeps the open field.
keep_rest-at :
    (pre : Bytes) (st : State) (cur : Log) (w : Bytes)
    → keep_rest (at pre st cur w []) ≡ some (field_start st cur w)
unfolding keep_rest
keep_rest-at pre st cur w =
    let z : length pre + 0 ≡ length pre = omega arith in
    ground (arith, append-nil w, length-append pre w, rw z at (drop-append_add 0 pre w))

embed-field :
    (pre : Bytes) (st : State) (cur : Log) (w b : Bytes)
    → embed [] b (at pre st cur w []) ≡ embed pre [] (field_at st cur w b)
embed-field pre st cur w b = ground (arith, append-nil w, append-nil (w ++ b), append_assoc pre w b)

-- The text of the two parts, as the first call leaves it and as the second one reads it.
module _ (p : Parser) (a b : Bytes) (logs : List Log) (g : IsReady p) (h : All IsAscii (p.raw ++ a))
    (c : regular (runes (p.raw ++ a)) (record p { raw = p.raw ++ a }) ≡ true) where
  starts : record p { raw = p.raw ++ a } ≡ at [] p.state p.current [] (p.raw ++ a)
  starts = ground (arith, g.at_start, g.at_end)

  opened : Open p.state p.current []
  opened = record { kept = fresh-Kept p.state p.current g.not_multi; keyed = g.keyed }

  runes_text : runes (p.raw ++ a) ≡ indexed 0 (p.raw ++ a)
  runes_text = runes-indexed (p.raw ++ a) h

  first :
      Scanned (p.raw ++ a) (indexed 0 (p.raw ++ a)) (at [] p.state p.current [] (p.raw ++ a)) logs
  first = scan-Scanned [] p.state p.current [] (p.raw ++ a) logs opened (
      subst (λ q. regular (indexed 0 (p.raw ++ a)) q ≡ true) starts
        (subst (λ rs. regular rs (record p { raw = p.raw ++ a }) ≡ true) runes_text c))

  starts_whole :
      embed [] b (at [] p.state p.current [] (p.raw ++ a)) ≡ record p { raw = (p.raw ++ a) ++ b }
  starts_whole = ground (arith, g.at_start, g.at_end)

  remains : Rest first.st first.cur first.w b first.out
  remains = rest first.st first.cur first.w b first.out first.open'

  first_call : parse_chunk p a logs ≡ some (field_start first.st first.cur first.w, first.out)
  unfolding parse_chunk
  first_call =
      rw (runes_text, starts)
        (rw first.scans (rw (keep_rest-at first.pre first.st first.cur first.w) refl))

  -- The first text inside the whole one.
  first_part :
      scan (indexed 0 (p.raw ++ a)) (record p { raw = (p.raw ++ a) ++ b }) logs
      ≡ some (embed first.pre [] (field_at first.st first.cur first.w b), first.out)
  first_part =
      rw
        (
          shift_runes_zero (indexed 0 (p.raw ++ a)),
          starts_whole,
          embed-field first.pre first.st first.cur first.w b,
        )
        at
        (scan-embed [] b (indexed 0 (p.raw ++ a)) (at [] p.state p.current [] (p.raw ++ a)) logs
          first.scans)

  second_part :
      scan
        (shift_runes (length (p.raw ++ a)) (runes b))
        (embed first.pre [] (field_at first.st first.cur first.w b))
        first.out
      ≡ some (embed first.pre [] remains.after, remains.all)
  second_part =
      let n : length first.pre + length first.w ≡ length (p.raw ++ a) =
        omega (arith, length-append first.pre first.w, ap length first.same) in
      let e =
        shift-shift_runes (length first.pre) (length first.w) (runes b)
        ∙ ap (λ k. shift_runes k (runes b)) n in
      subst
        (λ rs.
          scan rs (embed first.pre [] (field_at first.st first.cur first.w b)) first.out
          ≡ some (embed first.pre [] remains.after, remains.all))
        e
        (scan-embed first.pre [] (shift_runes (length first.w) (runes b))
          (field_at first.st first.cur first.w b) first.out remains.scans)

  whole_call :
      parse_chunk p (a ++ b) logs ≡ (keep_rest remains.after >>= (λ q. some (q, remains.all)))
  unfolding parse_chunk
  whole_call = rw (← append_assoc p.raw a b) (
      rw (runes-ascii (p.raw ++ a) b h) (
        rw
          (scan-append (indexed 0 (p.raw ++ a)) (shift_runes (length (p.raw ++ a)) (runes b))
            (record p { raw = (p.raw ++ a) ++ b }) logs)
          (rw first_part (rw second_part (rw (keep_rest-embed first.pre remains.after) refl)))))

  -- Parse on a chunk, cut anywhere, does what Parse on the first part and then on the second part does, if the
  -- first part, behind the text kept from before, is ASCII and has no space inside a key, no colon at the
  -- beginning of a value and no bracket inside a field of the header.
  pub parse_chunk-cut :
      parse_chunk p (a ++ b) logs ≡ (parse_chunk p a logs >>= (λ s. parse_chunk s.0 b s.1))
  parse_chunk-cut =
      whole_call
      ∙ sym (
          second_call first.st first.cur first.w b first.out first.open' remains
            (All-append_right IsAscii first.pre first.w (subst (All IsAscii) (sym first.same) h)))
      ∙ sym (ap (λ o. o >>= (λ s. parse_chunk s.0 b s.1)) first_call)
