-- ===== src/Log/Fields.antt =====
-- Set and Get of logging/logging.go against one another.
use logd_go.Base.{
  Bool, true, false, not, ◌||◌, some, List, [], ◌∷◌, ◌≡◌, ◌≢◌, refl, Bytes, equal_iff, equal_refl,
  is_empty, arith, sym, ◌∙◌,
}
use logd_go.Log.{
  Property, Log, KeyCase, timestamp, level, message, thread, class, time, date, other, classify,
  key_thread, key_class, key_level, key_time, key_date, key_timestamp, key_message, find_prop,
  get_in, get, set_prop, set_in, set,
}

-- The key of a case, and whether it is one of the named fields.
abbrev pub key_of : KeyCase → Bytes
key_of timestamp = key_timestamp
key_of level = key_level
key_of message = key_message
key_of thread = key_thread
key_of class = key_class
key_of time = key_time
key_of date = key_date
key_of other = []

abbrev pub is_other : KeyCase → Bool
is_other other = true
is_other _ = false

-- A key that falls in a named case is that case's key.
pub classify-named : (k : Bytes) (c : KeyCase) → classify k ≡ c → is_other c ≡ false → k ≡ key_of c
unfolding classify
classify-named k c e h = ground (
  arith,
  equal_iff k key_timestamp,
  equal_iff k key_level,
  equal_iff k key_message,
  equal_iff k key_thread,
  equal_iff k key_class,
  equal_iff k key_time,
  equal_iff k key_date,
)

pub find-set_prop_self :
    (k v : Bytes) (ps : List Property) → find_prop k (set_prop k v ps).0 ≡ (v, true)
unfolding find_prop set_prop
find-set_prop_self k v [] = ground (arith, equal_refl k)
find-set_prop_self k v (p ∷ ps) = ground (arith, find-set_prop_self k v ps)

pub find-set_prop_other :
    (k j v : Bytes) (ps : List Property) → j ≢ k → find_prop j (set_prop k v ps).0 ≡ find_prop j ps
unfolding find_prop set_prop
find-set_prop_other k j v [] h = ground (arith, equal_iff k j)
find-set_prop_other k j v (p ∷ ps) h =
    ground
      (arith, equal_iff p.key k, equal_iff p.key j, equal_iff k j, find-set_prop_other k j v ps h)

pub set_prop-found : (k v : Bytes) (ps : List Property) → (set_prop k v ps).1 ≡ (find_prop k ps).1
unfolding find_prop set_prop
set_prop-found k v [] = refl
set_prop-found k v (p ∷ ps) = ground (arith, set_prop-found k v ps)

-- The log that Set leaves in each case but the timestamp's.
abbrev put_in : KeyCase → Log → Bytes → Bytes → Log
put_in timestamp l k v = l
put_in level l k v = record l { level = v }
put_in message l k v = record l { message = v }
put_in thread l k v = record l { thread = v }
put_in class l k v = record l { class = v }
put_in time l k v = record l { time = v }
put_in date l k v = record l { date = v }
put_in other l k v = record l { props = (set_prop k v l.props).0 }

set_in-put_in :
    (c : KeyCase) (l : Log) (k v : Bytes)
    → c ≢ timestamp
    → set_in c l k v ≡ some (put_in c l k v, (get_in c l k).1)
unfolding set_in get_in
set_in-put_in timestamp l k v h = absurd (h refl)
set_in-put_in other l k v h = ground (arith, set_prop-found k v l.props)
set_in-put_in _ l k v h = refl

get_in-put_in_self :
    (c : KeyCase) (l : Log) (k v : Bytes)
    → c ≢ timestamp
    → get_in c (put_in c l k v) k ≡ (v, is_other c || not (is_empty v))
unfolding get_in
get_in-put_in_self timestamp l k v h = absurd (h refl)
get_in-put_in_self other l k v h = find-set_prop_self k v l.props
get_in-put_in_self _ l k v h = refl

get_in-put_in_other :
    (c d : KeyCase) (l : Log) (j k v : Bytes)
    → j ≢ k
    → (is_other c ≡ false → c ≢ d)
    → d ≢ timestamp
    → get_in d (put_in c l k v) j ≡ get_in d l j
unfolding get_in
get_in-put_in_other other other l j k v h e f = find-set_prop_other k j v l.props h
get_in-put_in_other timestamp timestamp l j k v h e f = absurd (f refl)
get_in-put_in_other level level l j k v h e f = absurd (e refl refl)
get_in-put_in_other message message l j k v h e f = absurd (e refl refl)
get_in-put_in_other thread thread l j k v h e f = absurd (e refl refl)
get_in-put_in_other class class l j k v h e f = absurd (e refl refl)
get_in-put_in_other time time l j k v h e f = absurd (e refl refl)
get_in-put_in_other date date l j k v h e f = absurd (e refl refl)
get_in-put_in_other timestamp _ l j k v h e f = refl
get_in-put_in_other _ timestamp l j k v h e f = absurd (f refl)
get_in-put_in_other _ _ l j k v h e f = refl

pub classify-ne-timestamp : (k : Bytes) → k ≢ key_timestamp → classify k ≢ timestamp
classify-ne-timestamp k h e = h (classify-named k timestamp e refl)

-- The keys that go to different places of the log.
classify-apart : (j k : Bytes) → j ≢ k → is_other (classify k) ≡ false → classify k ≢ classify j
classify-apart j k h n e =
    h (classify-named j (classify k) (sym e) n ∙ sym (classify-named k (classify k) refl n))

-- The log after `set k v`: it holds `v` under `k`, and under every other key what it held before.
-- The timestamp, which is read from the date and the time, is left aside.
pub record Updates (k v : Bytes) (l l' : Log) : Type 0 where
  pub stored : get l' k ≡ (v, is_other (classify k) || not (is_empty v))
  pub others : (j : Bytes) → j ≢ k → j ≢ key_timestamp → get l' j ≡ get l j

-- Set with any key but "timestamp" returns, with `upsert` the `ok` that Get gave before, and Get then
-- finds the value under the key (an empty value in a named field counts as not found) and what it
-- found before under every other key but "timestamp".
pub set-get :
    (l : Log) (k v : Bytes)
    → k ≢ key_timestamp
    → (l' : Log) × (set l k v ≡ some (l', (get l k).1)) × Updates k v l l'
unfolding set get
set-get l k v h =
    let c = classify-ne-timestamp k h in
    (
      put_in (classify k) l k v,
      set_in-put_in (classify k) l k v c,
      record {
        stored = get_in-put_in_self (classify k) l k v c;
        others = λ j n m.
            get_in-put_in_other (classify k) (classify j) l j k v n (classify-apart j k n)
              (classify-ne-timestamp j m);
      },
    )
