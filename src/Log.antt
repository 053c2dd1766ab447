-- ===== src/Log.antt =====
-- logging/logging.go: the structured log with its named fields and its list of properties. A method
-- with a pointer receiver returns the new log. A log owns its slice of properties, so the slice is a
-- value, and the in-place `copy` of Remove is written out on it.
pub mod Fields
pub mod Erase
pub mod Serialize
pub mod Rendered
pub mod Timestamp
pub mod Remove
mod Witnesses
use logd_go.Base.{
  ℕ, suc, ◌+◌, ◌-◌, Bool, true, false, not, ◌||◌, Option, none, some, List, [], ◌∷◌, ◌++◌, Bytes,
  codes, equal, is_empty, split, length, take, drop, ◌==◌, if◌then◌else◌, ◌>>=◌,
}

pub record Property : Type 0 where
  pub key : Bytes
  pub value : Bytes

pub record Log : Type 0 where
  pub date : Bytes
  pub time : Bytes
  pub level : Bytes
  pub thread : Bytes
  pub class : Bytes
  pub message : Bytes
  pub props : List Property

abbrev pub key_thread : Bytes
key_thread = codes "thread"

abbrev pub key_class : Bytes
key_class = codes "class"

abbrev pub key_level : Bytes
key_level = codes "level"

abbrev pub key_time : Bytes
key_time = codes "time"

abbrev pub key_date : Bytes
key_date = codes "date"

abbrev pub key_timestamp : Bytes
key_timestamp = codes "timestamp"

abbrev pub key_message : Bytes
key_message = codes "msg"

-- A log with no field set: `Log{props: make([]Property, 0)}`.
abbrev pub new_log : Log
new_log = record {
  date = [];
  time = [];
  level = [];
  thread = [];
  class = [];
  message = [];
  props = [];
}

-- `*l = Log{props: l.props[:0]}`
unfoldable pub reset : Log → Log
reset l = record new_log { props = take 0 l.props }

-- The cases of the `switch key` that Set and Get make.
pub data KeyCase : Type 0 where
  timestamp level message thread class time date other : KeyCase

unfoldable pub classify : Bytes → KeyCase
unfolding equal
classify key =
    if equal key key_timestamp
    then KeyCase.timestamp
    else if equal key key_level
    then KeyCase.level
    else if equal key key_message
    then KeyCase.message
    else if equal key key_thread
    then KeyCase.thread
    else if equal key key_class
    then KeyCase.class
    else if equal key key_time
    then KeyCase.time
    else if equal key key_date
    then KeyCase.date
    else KeyCase.other

-- `fmt.Sprintf("%s %s", l.date, l.time)`
abbrev pub timestamp_of : Log → Bytes
timestamp_of l = l.date ++ (b' ' ∷ l.time)

-- The loop of Get over the properties: the first one with the key.
pub find_prop : Bytes → List Property → Bytes × Bool
find_prop key [] = ([], false)
find_prop key (p ∷ ps) = if equal p.key key then (p.value, true) else find_prop key ps

-- A named field is found if it is not empty.
abbrev pub named_value : Bytes → Bytes × Bool
named_value v = (v, not (is_empty v))

pub get_in : KeyCase → Log → Bytes → Bytes × Bool
unfolding find_prop
get_in KeyCase.timestamp l key = named_value (timestamp_of l)
get_in KeyCase.level l key = named_value l.level
get_in KeyCase.message l key = named_value l.message
get_in KeyCase.thread l key = named_value l.thread
get_in KeyCase.class l key = named_value l.class
get_in KeyCase.time l key = named_value l.time
get_in KeyCase.date l key = named_value l.date
get_in KeyCase.other l key = find_prop key l.props

-- Get: the value, and whether there is one.
unfoldable pub get : Log → Bytes → Bytes × Bool
unfolding get_in
get l key = get_in (classify key) l key

-- The loop of Set over the properties, and the `append` behind it.
pub set_prop : Bytes → Bytes → List Property → List Property × Bool
set_prop key value [] = (record { key = key; value = value } ∷ [], false)
set_prop key value (p ∷ ps) =
    let rest = set_prop key value ps in
    if equal p.key key then (record p { value = value } ∷ ps, true) else (p ∷ rest.0, rest.1)

-- `o[0]` and `o[1]` of the split timestamp; any other number of parts is a panic.
set_parts : Log → List Bytes → Option Log
set_parts l (d ∷ t ∷ []) = some (record l { date = d; time = t })
set_parts l _ = none

set_timestamp : Log → Bytes → Option Log
unfolding set_parts split
set_timestamp l value =
    if is_empty value
    then some (record l { date = []; time = [] })
    else set_parts l (split b' ' value)

pub set_in : KeyCase → Log → Bytes → Bytes → Option (Log × Bool)
unfolding set_timestamp set_prop
set_in KeyCase.timestamp l key value = do
  l' ← set_timestamp l value
  some (l', not (is_empty l.date) || not (is_empty l.time))
set_in KeyCase.level l key value = some (record l { level = value }, not (is_empty l.level))
set_in KeyCase.message l key value = some (record l { message = value }, not (is_empty l.message))
set_in KeyCase.thread l key value = some (record l { thread = value }, not (is_empty l.thread))
set_in KeyCase.class l key value = some (record l { class = value }, not (is_empty l.class))
set_in KeyCase.time l key value = some (record l { time = value }, not (is_empty l.time))
set_in KeyCase.date l key value = some (record l { date = value }, not (is_empty l.date))
set_in KeyCase.other l key value =
    let r = set_prop key value l.props in some (record l { props = r.0 }, r.1)

-- Set: the new log and `upsert`; `none` is the panic on a malformed timestamp.
unfoldable pub set : Log → Bytes → Bytes → Option (Log × Bool)
unfolding set_in
set l key value = set_in (classify key) l key value

-- The built-in `copy(dst, src)`, as the new content of `dst`.
copy : List Property → List Property → List Property
copy dst [] = dst
copy [] src = []
copy (d ∷ dst) (s ∷ src) = s ∷ copy dst src

-- The index at which the loop of Remove stops.
find_index : Bytes → ℕ → List Property → Option ℕ
find_index key i [] = none
find_index key i (p ∷ ps) = if equal p.key key then some i else find_index key (i + 1) ps

-- Its body at index `i` of the `last + 1` properties.
remove_at : List Property → ℕ → ℕ → List Property
unfolding copy
remove_at ps i last =
    if i == last then take i ps else take last (take i ps ++ copy (drop i ps) (drop (i + 1) ps))

remove_found : Log → Option ℕ → Log × Bool
unfolding remove_at
remove_found l none = (l, false)
remove_found l (some i) = (record l { props = remove_at l.props i (length l.props - 1) }, true)

-- The default case of Remove, with its early return on no properties.
pub remove_prop : Log → Bytes → List Property → Log × Bool
unfolding remove_found find_index
remove_prop l key [] = (l, false)
remove_prop l key ps = remove_found l (find_index key 0 ps)

pub remove_in : KeyCase → Log → Bytes → Option (Log × Bool)
unfolding remove_prop
remove_in KeyCase.other l key = some (remove_prop l key l.props)
remove_in _ l key = set l key []

-- Remove: the new log and `found`.
unfoldable pub remove : Log → Bytes → Option (Log × Bool)
unfolding remove_in set
remove l key = remove_in (classify key) l key
