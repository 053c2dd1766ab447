-- ===== src/Parser/Header.antt =====
-- How the parser reads the header of a line: date, time, level, thread and class.
use logd_go.Base.{ℕ, ◌≡◌, ◌≢◌, true, [], ◌∷◌, ◌++◌, Bytes, All, arith}
use logd_go.Log.{Log}
use logd_go.Parser.State.{
  date_state, time_state, transition_level_state, level_state, transition_thread_state,
  thread_bracket_state, transition_class_state, class_state, transition_call_type_state,
}
use logd_go.Parser.Handlers.{is_date_rune}
use logd_go.Parser.Run.{next}
use logd_go.Parser.Reading.{
  IsText, Reaches, Reaches-trans, Stays, Scans-token, Scans-first, read_piece, read_skip,
}

-- The bytes of a date or a time.
abbrev pub IsDateByte : ℕ → Type 0
IsDateByte c = is_date_rune c ≡ true

-- The bytes of a level or a class.
abbrev pub IsHeaderByte : ℕ → Type 0
IsHeaderByte c = IsText c × (c ≢ b'[') × (c ≢ b'\t') × (c ≢ b' ') × (c ≢ b']')

-- The bytes of a thread name in brackets.
abbrev pub IsThreadByte : ℕ → Type 0
IsThreadByte c = IsText c × (c ≢ b'\t') × (c ≢ b']')

pub All-map : {P Q : ℕ → Type 0} (s : Bytes) → ((c : ℕ) → P c → Q c) → All P s → All Q s
All-map [] f h = tt
All-map (c ∷ s) f h = (f c h.0, All-map s f h.1)

date-Stays : (c : ℕ) → IsDateByte c → Stays date_state c
unfolding next
date-Stays c h = (ground arith, λ start end raw cur. ground arith)

time-Stays : (c : ℕ) → IsDateByte c → Stays time_state c
unfolding next
time-Stays c h = (ground arith, λ start end raw cur. ground arith)

level-Stays : (c : ℕ) → IsHeaderByte c → Stays level_state c
unfolding next
level-Stays c h = (ground arith, λ start end raw cur. ground arith)

class-Stays : (c : ℕ) → IsHeaderByte c → Stays class_state c
unfolding next
class-Stays c h = (ground arith, λ start end raw cur. ground arith)

thread-Stays : (c : ℕ) → IsThreadByte c → Stays thread_bracket_state c
unfolding next
thread-Stays c h = (ground arith, λ start end raw cur. ground arith)

-- The name of a level or a class: not empty, so that it is not taken for the white space before it.
abbrev pub IsHeader : Bytes → Type 0
IsHeader [] = ⊥
IsHeader (c ∷ s) = All IsHeaderByte (c ∷ s)

module _ (raw : Bytes) (cur : Log) where
  pub read_date :
      (d t : Bytes)
      → All IsDateByte d
      → Reaches raw date_state cur (d ++ (b' ' ∷ t)) time_state (record cur { date = d }) t
  unfolding next
  read_date d t h =
      read_piece time_state (record cur { date = d }) b' ' t
        (Scans-token raw date_state cur d (All-map d date-Stays h)) (omega arith)
        (λ n k e. ground arith)

  pub read_time :
      (d t : Bytes)
      → All IsDateByte d
      → Reaches raw time_state cur
          (d ++ (b'\t' ∷ t))
          transition_level_state
          (record cur { time = d })
          t
  unfolding next
  read_time d t h =
      read_piece transition_level_state (record cur { time = d }) b'\t' t
        (Scans-token raw time_state cur d (All-map d time-Stays h)) (omega arith)
        (λ n k e. ground arith)

  pub read_level :
      (s t : Bytes)
      → IsHeader s
      → Reaches raw transition_level_state cur
          (s ++ (b'\t' ∷ t))
          transition_thread_state
          (record cur { level = s })
          t
  unfolding next
  read_level [] t h = absurd h
  read_level (c ∷ s) t h =
      read_piece transition_thread_state (record cur { level = c ∷ s }) b'\t' t
        (Scans-first raw transition_level_state level_state cur c s h.0.0 (λ n. ground arith)
          (All-map s level-Stays h.1))
        (omega arith) (λ n k e. ground arith)

  pub read_thread :
      (s t : Bytes)
      → All IsThreadByte s
      → Reaches raw transition_thread_state cur
          (b'[' ∷ (s ++ (b']' ∷ t)))
          transition_class_state
          (record cur { thread = s })
          t
  unfolding next
  read_thread s t h =
      Reaches-trans
        (read_skip transition_thread_state thread_bracket_state cur b'[' (s ++ (b']' ∷ t))
          (omega arith) (λ n. ground arith))
        (read_piece transition_class_state (record cur { thread = s }) b']' t
          (Scans-token raw thread_bracket_state cur s (All-map s thread-Stays h)) (omega arith)
          (λ n k e. ground arith))

  pub read_class :
      (s t : Bytes)
      → IsHeader s
      → Reaches raw transition_class_state cur
          (b'\t' ∷ (s ++ (b'\t' ∷ t)))
          transition_call_type_state
          (record cur { class = s })
          t
  unfolding next
  read_class [] t h = absurd h
  read_class (c ∷ s) t h =
      Reaches-trans
        (read_skip transition_class_state transition_class_state cur b'\t' (c ∷ (s ++ (b'\t' ∷ t)))
          (omega arith) (λ n. ground arith))
        (read_piece transition_call_type_state (record cur { class = c ∷ s }) b'\t' t
          (Scans-first raw transition_class_state class_state cur c s h.0.0 (λ n. ground arith)
            (All-map s class-Stays h.1))
          (omega arith) (λ n k e. ground arith))
