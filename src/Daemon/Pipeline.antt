-- ===== src/Daemon/Pipeline.antt =====
-- cmd/logd/main.go: runPipeline. The reader is the list of the texts that its reads give and the failure
-- that ends it; the sandbox is a state with its two hooks. `none` is a Go panic in the parser. The result
-- is the sandbox and what is sent to `exit`.
use logd_go.Base.{Bool, Option, none, some, List, [], ◌∷◌, Bytes, if◌then◌else◌, ◌>>=◌}
use logd_go.Log.{Log}
use logd_go.Parser.State.{Parser}
use logd_go.Parser.Run.{parse_chunk, new_parser}

-- `io.EOF`, or another error.
pub data Failure {ℓ} (E : Type ℓ) : Type ℓ where
  eof : Failure E
  other : E → Failure E

-- What is sent to `exit`: nothing for the end of the input.
abbrev pub exit_with {ℓ} : {E : Type ℓ} → Failure E → Option E
exit_with Failure.eof = none
exit_with (Failure.other e) = some e

module _ {ℓ κ} {S : Type ℓ} {E : Type κ} where
  -- A log was handed over: the loop over the logs ends at an error.
  unfoldable pub feed_next :
      S × Option (Failure E) → S × Option (Failure E) → S × Option (Failure E)
  feed_next (s, some e) rest = (s, some e)
  feed_next (s, none) rest = rest

  -- The loop over the logs of a read.
  unfoldable pub feed : (Log → S → S × Option (Failure E)) → List Log → S → S × Option (Failure E)
  unfolding feed_next
  feed on_log [] s = (s, none)
  feed on_log (l ∷ ls) s = let r = on_log l s in let rest = feed on_log ls r.0 in feed_next r rest

  unfoldable pub after_feed : S × Option (Failure E) → Option (S × Option E) → Option (S × Option E)
  after_feed (s, some e) rest = some (s, exit_with e)
  after_feed (s, none) rest = rest

  -- The loop over the reads.
  unfoldable pub read_loop :
      (Log → S → S × Option (Failure E))
      → List Bytes
      → Failure E
      → Parser
      → S
      → Option (S × Option E)
  unfolding after_feed
  read_loop on_log [] end p s = some (s, exit_with end)
  read_loop on_log (chunk ∷ chunks) end p s = do
    r ← parse_chunk p chunk []
    let t = feed on_log r.1 s
    let rest = read_loop on_log chunks end r.0 t.0
    after_feed t rest

  -- runPipeline: the mode of the sandbox picks the hook before the loop.
  unfoldable pub run_pipeline :
      Bool
      → (Log → S → S × Option (Failure E))
      → (Log → S → S × Option (Failure E))
      → List Bytes
      → Failure E
      → S
      → Option (S × Option E)
  run_pipeline protected protected_call call chunks end s =
      read_loop (if protected then protected_call else call) chunks end new_parser s
