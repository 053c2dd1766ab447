-- ===== src/Daemon/Witnesses.antt =====
-- The theorems about the daemon at concrete inputs, with a sandbox that counts its logs.
use logd_go.Base.{
  ℕ, ◌+◌, ◌≡◌, refl, true, Option, none, some, List, [], ◌∷◌, ◌++◌, Bytes, codes, if◌then◌else◌,
  ◌==◌, false, slice, arith,
}
use logd_go.Log.{Log}
use logd_go.Parser.Run.{parse, new_parser}
use logd_go.Daemon.Pipeline.{Failure, feed, run_pipeline}
use logd_go.Daemon.Format.{Entry, format, any_malformed, panics, format-panics}
use logd_go.Daemon.Bench.{LogHook, run_full_bench, run_lua_bench, run_full_bench-lua}
use logd_go.Daemon.Input.{line_reads, joined, exit_after, run_pipeline-lines}
use logd_go.Daemon.Stream.{run_pipeline-concat}
use logd_go.Parser.Cut.{regular}
use logd_go.Parser.Cut.Stream.{concat}
use logd_go.Utf8.{runes}

-- A hook that counts, and one that fails at the second log.
abbrev counts : Log → ℕ → ℕ × Option (Failure Bytes)
counts l n = (n + 1, none)

abbrev fails : Log → ℕ → ℕ × Option (Failure Bytes)
fails l n = if n == 1 then (n, some (Failure.other (codes "boom"))) else (n + 1, none)

run_pipeline-lines_example :
    (logs : List Log) × (parse (joined (codes "a" ∷ codes "b\nc" ∷ []) (codes "d")) ≡ some logs)
    × (run_pipeline true fails counts
          (line_reads (codes "a" ∷ codes "b\nc" ∷ []) (codes "d"))
          Failure.eof
          0
        ≡ some (exit_after Failure.eof (feed (if true then fails else counts) logs 0)))
run_pipeline-lines_example =
    run_pipeline-lines true fails counts (codes "a" ∷ codes "b\nc" ∷ []) (codes "d") Failure.eof 0

abbrev plain_entry : Entry
plain_entry = record {
  message = codes "m";
  level = codes "info";
  time = codes "2020-01-01 00:00:00.000";
  fields = (codes "timestamp", codes "now") ∷ [];
}

format-panics_example : panics (format plain_entry) ≡ any_malformed plain_entry.fields
format-panics_example = format-panics plain_entry refl

abbrev bench_hook : LogHook ℕ Bytes
bench_hook l n = ((n + 1, none), l.props)

run_full_bench-lua_example :
    (r : List Log × (ℕ × List Bytes)) × (run_full_bench bench_hook
        (λ n. n)
        (1 ∷ 2 ∷ [])
        (codes "a" ++ (b'\n' ∷ []))
        0
      ≡ some r)
    × (run_lua_bench bench_hook (λ n. n) (1 ∷ 2 ∷ []) (codes "a" ++ (b'\n' ∷ [])) 0 ≡ some r)
run_full_bench-lua_example =
    run_full_bench-lua bench_hook (λ n. n) (1 ∷ 2 ∷ []) (codes "a") 0 (λ l t. refl)

-- Reads that end inside a field of the header and inside a value.
abbrev first_read : Bytes
first_read = codes "1 2\tDEB"

abbrev next_read : Bytes
next_read = codes "UG\t[t 1]\tC\tGo: flow: Pub"

abbrev last_read : Bytes
last_read = codes "lish\n3"

reads-regular :
    regular
      (runes (first_read ++ concat (next_read ∷ [])))
      (record new_parser { raw = first_read ++ concat (next_read ∷ []) })
    ≡ true
unfolding regular runes slice
reads-regular = refl

run_pipeline-concat_example :
    (logs : List Log) × (parse (first_read ++ (concat (next_read ∷ []) ++ last_read)) ≡ some logs)
    × (run_pipeline false fails counts (first_read ∷ (next_read ∷ last_read ∷ [])) Failure.eof 0
        ≡ some (exit_after Failure.eof (feed (if false then fails else counts) logs 0)))
run_pipeline-concat_example =
    run_pipeline-concat false fails counts first_read (next_read ∷ []) last_read Failure.eof 0
      (ground arith) reads-regular
