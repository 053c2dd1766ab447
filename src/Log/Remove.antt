-- ===== src/Log/Remove.antt =====
-- Remove of logging/logging.go against Get, and the keys of the properties, which Set and Remove keep
-- unique.
use logd_go.Base.{
  Bool, true, false, some, List, [], ◌∷◌, ◌≡◌, ◌≢◌, false≢true, refl, Bytes, equal, equal_iff,
  split, arith, ◌∙◌, ap, inl, inr, Bool-cases, if◌then◌else◌, >>=-eq-some,
}
use logd_go.Log.{
  Property, Log, KeyCase, timestamp, other, classify, key_timestamp, find_prop, get_in, get,
  set_prop, set_in, set, remove_in, remove, set_timestamp, set_parts,
}
use logd_go.Log.Fields.{is_other, set-get, find-set_prop_other}
use logd_go.Log.Erase.{erase_key, remove_prop-erase_key}

-- No two properties have the same key.
abbrev pub UniqueKeys : List Property → Type 0
UniqueKeys [] = Unit
UniqueKeys (p ∷ ps) = ((find_prop p.key ps).1 ≡ false) × UniqueKeys ps

find_prop-absent :
    (k : Bytes) (ps : List Property) → (find_prop k ps).1 ≡ false → find_prop k ps ≡ ([], false)
unfolding find_prop
find_prop-absent k [] h = refl
find_prop-absent k (p ∷ ps) h = ground (arith, find_prop-absent k ps)

find-erase_key_other :
    (j k : Bytes) (ps : List Property) → j ≢ k → find_prop j (erase_key k ps) ≡ find_prop j ps
unfolding find_prop
find-erase_key_other j k [] h = refl
find-erase_key_other j k (p ∷ ps) h =
    ground (arith, equal_iff p.key k, equal_iff p.key j, find-erase_key_other j k ps h)

find-erase_key_self :
    (k : Bytes) (ps : List Property) → UniqueKeys ps → find_prop k (erase_key k ps) ≡ ([], false)
unfolding find_prop
find-erase_key_self k [] u = refl
find-erase_key_self k (p ∷ ps) u =
    ground (arith, equal_iff p.key k, find_prop-absent k ps, find-erase_key_self k ps u.1)

erase_key_fresh :
    (j k : Bytes) (ps : List Property)
    → (find_prop j ps).1 ≡ false
    → (find_prop j (erase_key k ps)).1 ≡ false
unfolding find_prop
erase_key_fresh j k [] h = refl
erase_key_fresh j k (p ∷ ps) h = ground (arith, erase_key_fresh j k ps)

erase_key-UniqueKeys :
    (k : Bytes) (ps : List Property) → UniqueKeys ps → UniqueKeys (erase_key k ps)
erase_key-UniqueKeys k [] u = tt
erase_key-UniqueKeys k (p ∷ ps) u =
    ground (arith, erase_key_fresh p.key k ps, erase_key-UniqueKeys k ps u.1)

set_prop-UniqueKeys :
    (k v : Bytes) (ps : List Property) → UniqueKeys ps → UniqueKeys (set_prop k v ps).0
unfolding set_prop find_prop
set_prop-UniqueKeys k v [] u = (refl, tt)
set_prop-UniqueKeys k v (p ∷ ps) u = elim (Bool-cases (equal p.key k)) [
  | inl e ↦ rw e u
  | inr e ↦ rw e (
    rw (find-set_prop_other k p.key v ps (λ q. cc (e, (equal_iff p.key k).1 q))) u.0,
    set_prop-UniqueKeys k v ps u.1,
  )
]

set_parts-props :
    (l : Log) (ps : List Bytes) {l' : Log} → set_parts l ps ≡ some l' → l'.props ≡ l.props
unfolding set_parts
set_parts-props l [] e = cc
set_parts-props l (d ∷ []) e = cc
set_parts-props l (d ∷ t ∷ []) e = ground arith
set_parts-props l (d ∷ t ∷ x ∷ ps) e = cc

set_timestamp-props :
    (l : Log) (v : Bytes) {l' : Log} → set_timestamp l v ≡ some l' → l'.props ≡ l.props
unfolding set_timestamp
set_timestamp-props l [] e = ground arith
set_timestamp-props l (c ∷ v) e = set_parts-props l (split b' ' (c ∷ v)) e

set_in-props :
    (c : KeyCase) (l : Log) (k v : Bytes) {l' : Log} {u : Bool}
    → set_in c l k v ≡ some (l', u)
    → l'.props ≡ (if is_other c then (set_prop k v l.props).0 else l.props)
unfolding set_in
set_in-props timestamp l k v e =
    let (a, m, f) = >>=-eq-some (set_timestamp l v) _ e in ground (arith, set_timestamp-props l v m)
set_in-props other l k v e = ground arith
set_in-props _ l k v e = ground arith

-- Set keeps the keys of the properties unique, whatever the key and the value.
pub set-UniqueKeys :
    (l : Log) (k v : Bytes) {l' : Log} {u : Bool}
    → UniqueKeys l.props
    → set l k v ≡ some (l', u)
    → UniqueKeys l'.props
unfolding set
set-UniqueKeys l k v h e = elim (Bool-cases (is_other (classify k))) [
  | inl o ↦ rw (set_in-props (classify k) l k v e) (rw o (set_prop-UniqueKeys k v l.props h))
  | inr n ↦ rw (set_in-props (classify k) l k v e) (rw n h)
]

-- The log after `remove k`: nothing is found under `k`, and under every other key but the timestamp
-- what was found before; the keys of the properties are still unique.
pub record Removes (k : Bytes) (l l' : Log) : Type 0 where
  pub gone : get l' k ≡ ([], false)
  pub others : (j : Bytes) → j ≢ k → j ≢ key_timestamp → get l' j ≡ get l j
  pub unique : UniqueKeys l'.props

get_in-erase_key :
    (d : KeyCase) (l : Log) (j k : Bytes)
    → j ≢ k
    → get_in d (record l { props = erase_key k l.props }) j ≡ get_in d l j
unfolding get_in
get_in-erase_key other l j k n = find-erase_key_other j k l.props n
get_in-erase_key _ l j k n = refl

is_other-eq : (c : KeyCase) → is_other c ≡ true → c ≡ other
is_other-eq other h = refl
is_other-eq _ h = absurd (false≢true h)

remove_in-named :
    (c : KeyCase) (l : Log) (k : Bytes) → is_other c ≡ false → remove_in c l k ≡ set l k []
unfolding remove_in
remove_in-named other l k h = cc
remove_in-named _ l k h = refl

remove-get_other :
    (l : Log) (k : Bytes)
    → classify k ≡ other
    → UniqueKeys l.props
    → (l' : Log) × (remove l k ≡ some (l', (get l k).1)) × Removes k l l'
unfolding remove remove_in get get_in
remove-get_other l k c h = (
  record l { props = erase_key k l.props },
  rw c (ap some (remove_prop-erase_key l k)),
  record {
    gone = rw c (find-erase_key_self k l.props h);
    others = λ j n m. get_in-erase_key (classify j) l j k n;
    unique = erase_key-UniqueKeys k l.props h;
  },
)

remove-get_named :
    (l : Log) (k : Bytes)
    → is_other (classify k) ≡ false
    → k ≢ key_timestamp
    → UniqueKeys l.props
    → (l' : Log) × (remove l k ≡ some (l', (get l k).1)) × Removes k l l'
unfolding remove remove_in
remove-get_named l k c n h =
    let (l', e, s) = set-get l k [] n in
    (
      l',
      remove_in-named (classify k) l k c ∙ e,
      record { gone = rw (s.stored, c); others = s.others; unique = set-UniqueKeys l k [] h e },
    )

-- Remove with any key but "timestamp", on a log whose properties have unique keys, returns, with
-- `found` the `ok` that Get gave before. Then Get finds nothing under the key and what it found before
-- under every other key but "timestamp", and the keys are still unique.
pub remove-get :
    (l : Log) (k : Bytes)
    → k ≢ key_timestamp
    → UniqueKeys l.props
    → (l' : Log) × (remove l k ≡ some (l', (get l k).1)) × Removes k l l'
remove-get l k n h = elim (Bool-cases (is_other (classify k))) [
  | inl o ↦ remove-get_other l k (is_other-eq (classify k) o) h
  | inr m ↦ remove-get_named l k m n h
]
