-- ===== src/Lua/Script.antt =====
-- lua/builtin.go: log_set and log_get, as a script calls them one after the other.
use logd_go.Base.{
  ℕ, ◌≡◌, ◌≢◌, refl, sym, ap, ◌∙◌, Bool, true, false, not, ◌||◌, ◌&&◌, some, [], ◌∷◌, Bytes, ◌==◌,
  ==_iff, equal, equal_iff, is_empty, if◌then◌else◌, Bool-cases, inl, inr, ◌≢◌,
}
use logd_go.Log.{Log, key_timestamp, get}
use logd_go.Log.Fields.{Updates, set-get}
use logd_go.Lua.Arguments.{Values}
use logd_go.Lua.Builtins.{
  Store, put_log, Builtin, found_or_empty, put_changed, lua_set_log_property, lua_get_log_property,
  call_builtin,
}

found_or_empty-stored : (x : Bytes) (b : Bool) → found_or_empty (x, b || not (is_empty x)) ≡ x
found_or_empty-stored [] true = refl
found_or_empty-stored [] false = refl
found_or_empty-stored (c ∷ x) true = refl
found_or_empty-stored (c ∷ x) false = refl

-- What log_get finds in the log that Set has updated.
found-Updates :
    (j k x : Bytes) (l l' : Log)
    → Updates k x l l'
    → j ≢ key_timestamp
    → found_or_empty (get l' j) ≡ (if equal k j then x else found_or_empty (get l j))
found-Updates j k x l l' u h = elim (Bool-cases (equal k j)) [
  | inl b ↦ rw b (
      ap (λ y. found_or_empty (get l' y)) (sym ((equal_iff k j).0 b))
      ∙ ap found_or_empty u.stored
      ∙ found_or_empty-stored x _)
  | inr b ↦ rw b (ap found_or_empty (u.others j (λ e. cc (b, (equal_iff k j).1 (sym e))) h))
]

-- What log_get finds at `q` under `j`, once the log at `p` has been updated.
found-put_log :
    (st : Store) (p q : ℕ) (j k x : Bytes) (l : Log)
    → Updates k x (st p) l
    → j ≢ key_timestamp
    → found_or_empty (get (put_log p l st q) j)
      ≡ (if (p == q) && equal k j then x else found_or_empty (get (st q) j))
unfolding put_log
found-put_log st p q j k x l u h = elim (Bool-cases (p == q)) [
  | inl a ↦ rw a (
      found-Updates j k x (st p) l u h
      ∙ ap (λ y. if equal k j then x else found_or_empty (get (st y) j)) ((==_iff p q).0 a))
  | inr a ↦ rw a refl
]

module _ (v : Values) where
  open v use {Value, of_string, of_boolean, to_string, to_log}

  -- The call `log_set(a, b, c)` on a log at p with a key k other than "timestamp" and a value x returns, with
  -- whether log_get found the key before. Then `log_get(d, e)` on a log at q with a key j other than "timestamp"
  -- returns x, if the two logs and the two keys are the same, and what it returned before, if they are not.
  pub log_set-log_get :
      (st : Store) (a b c d e : Value) (p q : ℕ) (k x j : Bytes)
      → to_log a ≡ some p
      → to_string b ≡ some k
      → to_string c ≡ some x
      → to_log d ≡ some q
      → to_string e ≡ some j
      → k ≢ key_timestamp
      → j ≢ key_timestamp
      → (st' : Store) × (call_builtin v Builtin.log_set (a ∷ b ∷ c ∷ []) st
          ≡ some (st', of_boolean (get (st p) k).1 ∷ []))
        × (call_builtin v Builtin.log_get (d ∷ e ∷ []) st'
            ≡ some (
              st',
              of_string (if (p == q) && equal k j then x else found_or_empty (get (st q) j)) ∷ [],
            ))
  unfolding call_builtin lua_set_log_property lua_get_log_property put_changed
  log_set-log_get st a b c d e p q k x j fa fb fc fd fe nk nj =
      let (l, f, u) = set-get (st p) k x nk in
      (
        put_log p l st,
        rw fa (rw fb (rw fc (rw f refl))),
        rw fd (
            rw fe (
              ap (λ y. some (put_log p l st, of_string y ∷ []))
                (found-put_log st p q j k x l u nj))),
      )
