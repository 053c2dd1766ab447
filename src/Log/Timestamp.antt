-- ===== src/Log/Timestamp.antt =====
-- The timestamp of logging/logging.go: a view of the date and the time of a log, written by splitting
-- a text at its spaces.
use logd_go.Base.{
  true, not, ◌||◌, none, some, List, [], ◌∷◌, ◌++◌, ◌≡◌, ◌≢◌, refl, Bytes, is_empty, split, count,
  length, length-split, split_one, arith, ◌∙◌, sym, ap,
}
use logd_go.Log.{Log, classify, key_timestamp, get_in, get, set_parts, set_timestamp, set_in, set}

named_nonempty : (d t : Bytes) → not (is_empty (d ++ (b' ' ∷ t))) ≡ true
named_nonempty [] t = refl
named_nonempty (c ∷ d) t = refl

-- Get of the timestamp gives the date, a space and the time, and reports it as found whatever the log
-- holds, also where both fields are empty.
pub get-timestamp : (l : Log) → get l key_timestamp ≡ (l.date ++ (b' ' ∷ l.time), true)
unfolding get get_in classify
get-timestamp l = ground (arith, named_nonempty l.date l.time)

set_parts-none : (l : Log) (ps : List Bytes) → length ps ≢ 2 → set_parts l ps ≡ none
unfolding set_parts
set_parts-none l (d ∷ t ∷ []) h = absurd (h refl)
set_parts-none l _ h = refl

set_timestamp-none : (l : Log) (v : Bytes) → v ≢ [] → count b' ' v ≢ 1 → set_timestamp l v ≡ none
unfolding set_timestamp
set_timestamp-none l [] h k = absurd (h refl)
set_timestamp-none l (c ∷ v) h k = set_parts-none l _ (omega (arith, length-split b' ' (c ∷ v)))

-- Set of the timestamp panics on a value that is not empty and does not hold exactly one space.
pub set-timestamp_panics :
    (l : Log) (v : Bytes) → v ≢ [] → count b' ' v ≢ 1 → set l key_timestamp v ≡ none
unfolding set set_in classify
set-timestamp_panics l v h k = rw (set_timestamp-none l v h k)

set_timestamp-some :
    (l : Log) (v d t : Bytes)
    → split b' ' v ≡ d ∷ t ∷ []
    → set_timestamp l v ≡ some (record l { date = d; time = t })
unfolding set_timestamp set_parts
set_timestamp-some l [] d t e = absurd (omega (arith, ap length e, length-split b' ' []))
set_timestamp-some l (c ∷ v) d t e = rw e

-- Set of the timestamp to a text with exactly one space returns: the date and the time become the
-- parts before and behind the space, no other field changes, `upsert` says whether either was set
-- before, and Get of the timestamp gives the text back.
pub get-set-timestamp :
    (l : Log) (v : Bytes)
    → count b' ' v ≡ 1
    → (d : Bytes) × (t : Bytes) × (v ≡ d ++ (b' ' ∷ t))
      × (set l key_timestamp v
          ≡ some (record l { date = d; time = t }, not (is_empty l.date) || not (is_empty l.time)))
      × (get (record l { date = d; time = t }) key_timestamp ≡ (v, true))
unfolding set set_in classify
get-set-timestamp l v h =
    let (d, t, e, f) = split_one b' ' v h in
    (d, t, f, rw (set_timestamp-some l v d t e), get-timestamp _ ∙ ap (λ x. (x, true)) (sym f))

-- Set of the timestamp to the empty text clears the date and the time.
pub set-timestamp_empty :
    (l : Log)
    → set l key_timestamp []
      ≡ some (record l { date = []; time = [] }, not (is_empty l.date) || not (is_empty l.time))
unfolding set set_in set_timestamp classify
set-timestamp_empty l = refl
