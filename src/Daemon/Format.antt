-- ===== src/Daemon/Format.antt =====
-- cmd/logd/main.go: logFormatter, which writes the daemon's own messages as logs, with the structured log of
-- logging/logging.go.
use logd_go.Base.{
  ◌≡◌, refl, Bool, true, false, Option, none, some, List, [], ◌∷◌, ◌++◌, Bytes, ◌>>=◌, arith, equal,
  is_empty, count, sym, ◌∙◌, ◌&&◌, ◌||◌, not, Bool-cases, Option-cases, inl, inr, equal_refl,
  equal_iff, ==_iff, ◌==◌,
}
use logd_go.Log.{Log, new_log, key_timestamp, set}
use logd_go.Log.Serialize.{string}
use logd_go.Log.Fields.{set-get}
use logd_go.Log.Timestamp.{get-set-timestamp, set-timestamp_panics, set-timestamp_empty}

-- `log.Entry` of logrus: the level and the time as text, and the fields with their values as text, in the
-- order in which the range over their map meets them.
pub record Entry : Type 0 where
  pub message : Bytes
  pub level : Bytes
  pub time : Bytes
  pub fields : List (Bytes × Bytes)

-- The loop over the fields.
unfoldable pub set_fields : List (Bytes × Bytes) → Log → Option Log
set_fields [] l = some l
set_fields ((k, v) ∷ fs) l = do r ← set l k v; set_fields fs r.0

-- Format: `none` is the panic of Set.
unfoldable pub format : Entry → Option Bytes
unfolding set_fields
format e = do
  r ← set (record new_log { message = e.message; level = e.level }) key_timestamp e.time
  l ← set_fields e.fields r.0
  some (string l ++ (b'\n' ∷ []))

-- A field that Set refuses: the key "timestamp" with a value that is not empty and has not one space.
abbrev pub malformed : Bytes × Bytes → Bool
malformed (k, v) = equal k key_timestamp && (not (is_empty v) && not (count b' ' v == 1))

abbrev pub any_malformed : List (Bytes × Bytes) → Bool
any_malformed [] = false
any_malformed (f ∷ fs) = malformed f || any_malformed fs

abbrev pub panics {ℓ} : {A : Type ℓ} → Option A → Bool
panics none = true
panics (some a) = false

set_timestamp-panics :
    (l : Log) (v : Bytes) → panics (set l key_timestamp v) ≡ malformed (key_timestamp, v)
set_timestamp-panics l [] = rw (set-timestamp_empty l) (rw (equal_refl key_timestamp) refl)
set_timestamp-panics l (c ∷ v) = elim (Bool-cases (count b' ' (c ∷ v) == 1)) [
  | inl h ↦
      let (d, t, e, f, _) = get-set-timestamp l (c ∷ v) ((==_iff (count b' ' (c ∷ v)) 1).0 h) in
      rw f (rw (equal_refl key_timestamp) (rw h refl))
  | inr h ↦
      rw (set-timestamp_panics l (c ∷ v) (λ e. cc) (ground arith))
        (rw (equal_refl key_timestamp) (rw h refl))
]

set-panics : (l : Log) (k v : Bytes) → panics (set l k v) ≡ malformed (k, v)
set-panics l k v = elim (Bool-cases (equal k key_timestamp)) [
  | inl h ↦ rw ((equal_iff k key_timestamp).0 h) (set_timestamp-panics l v)
  | inr h ↦
      let (l', e, _) = set-get l k v (λ q. cc (h, (equal_iff k key_timestamp).1 q)) in
      rw e (rw h refl)
]

set_fields-panics :
    (fs : List (Bytes × Bytes)) (l : Log) → panics (set_fields fs l) ≡ any_malformed fs
unfolding set_fields
set_fields-panics [] l = refl
set_fields-panics ((k, v) ∷ fs) l = elim (Option-cases (set l k v)) [
  | inl e ↦ rw e (rw (rw e at (sym (set-panics l k v))) refl)
  | inr e ↦ rw e.1 (rw (rw e.1 at (sym (set-panics l k v))) (set_fields-panics fs e.0.0))
]

panics->>= {ℓ κ} :
    {A : Type ℓ} {B : Type κ} (m : Option A) (f : A → B) → panics (m >>= λ a. some (f a)) ≡ panics m
panics->>= none f = refl
panics->>= (some a) f = refl

-- Format of a message whose time has one space between date and clock panics exactly when one of its
-- fields is called "timestamp" and has a value that is neither empty nor two words, whatever the other
-- fields are and in whatever order they come; else it returns.
pub format-panics : (e : Entry) → count b' ' e.time ≡ 1 → panics (format e) ≡ any_malformed e.fields
unfolding format
format-panics e h =
    let l = record new_log { message = e.message; level = e.level } in
    let (d, t, _, f, _) = get-set-timestamp l e.time h in
    rw f (
      panics->>= (set_fields e.fields (record l { date = d; time = t }))
        (λ x. string x ++ (b'\n' ∷ []))
      ∙ set_fields-panics e.fields (record l { date = d; time = t }))
