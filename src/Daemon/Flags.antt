-- ===== src/Daemon/Flags.antt =====
-- cmd/logd/main.go: validateFlags, and the mode that main starts.
use logd_go.Base.{
  false, not, ◌&&◌, ◌||◌, List, [], ◌∷◌, Bytes, codes, is_empty, if◌then◌else◌, ◌≡◌, ◌≢◌, ◌↔◌,
  subst, refl,
}

-- `usageError` prints the usage and leaves the program.
pub data Flags : Type 0 where
  usage_error script : Bytes → Flags

unfoldable pub validate_flags : Bytes → Bytes → Bytes → Flags
validate_flags script_flag bench_flag full_bench_flag =
    if is_empty script_flag && (is_empty bench_flag && is_empty full_bench_flag)
    then Flags.usage_error (codes "no lua script provided")
    else if not (is_empty script_flag) && not (is_empty bench_flag)
        || (not (is_empty full_bench_flag) && not (is_empty bench_flag)
            || not (is_empty full_bench_flag) && not (is_empty script_flag))
    then Flags.usage_error (codes "only one mode is allowed")
    else if not (is_empty script_flag)
    then Flags.script script_flag
    else if not (is_empty full_bench_flag)
    then Flags.script full_bench_flag
    else Flags.script bench_flag

-- What main starts behind the reader.
pub data Mode : Type 0 where
  pipeline lua_bench full_bench : Mode

unfoldable pub choose_mode : Bytes → Bytes → Mode
choose_mode script_flag bench_flag =
    if not (is_empty script_flag)
    then Mode.pipeline
    else if not (is_empty bench_flag)
    then Mode.lua_bench
    else Mode.full_bench

-- The one flag that is set, with its mode: the reading that the usage text gives of the flags.
pub data Only : Bytes → Bytes → Bytes → Mode → Bytes → Type 0 where
  only_script : (v : Bytes) → v ≢ [] → Only v [] [] Mode.pipeline v
  only_bench : (v : Bytes) → v ≢ [] → Only [] v [] Mode.lua_bench v
  only_full : (v : Bytes) → v ≢ [] → Only [] [] v Mode.full_bench v

cons-ne-nil : {A : Type 0} (x : A) (xs : List A) → (x ∷ xs) ≢ []
cons-ne-nil x xs = λ e. cc

accepted-Only :
    (s b f v : Bytes) → validate_flags s b f ≡ Flags.script v → Only s b f (choose_mode s b) v
unfolding validate_flags choose_mode
accepted-Only [] [] [] v e = cc
accepted-Only (x ∷ s) (y ∷ b) f v e = cc
accepted-Only [] (y ∷ b) (z ∷ f) v e = cc
accepted-Only (x ∷ s) [] (z ∷ f) v e = cc
accepted-Only (x ∷ s) [] [] v e =
    let p : x ∷ s ≡ v = cc in
    subst (Only (x ∷ s) [] [] Mode.pipeline) p (Only.only_script (x ∷ s) (cons-ne-nil x s))
accepted-Only [] (y ∷ b) [] v e =
    let p : y ∷ b ≡ v = cc in
    subst (Only [] (y ∷ b) [] Mode.lua_bench) p (Only.only_bench (y ∷ b) (cons-ne-nil y b))
accepted-Only [] [] (z ∷ f) v e =
    let p : z ∷ f ≡ v = cc in
    subst (Only [] [] (z ∷ f) Mode.full_bench) p (Only.only_full (z ∷ f) (cons-ne-nil z f))

set_flag : (v : Bytes) → v ≢ [] → is_empty v ≡ false
set_flag [] n = absurd (n refl)
set_flag (x ∷ v) n = refl

Only-accepted :
    {s b f v : Bytes} {m : Mode}
    → Only s b f m v
    → (validate_flags s b f ≡ Flags.script v) × (choose_mode s b ≡ m)
unfolding validate_flags choose_mode
Only-accepted (Only.only_script v n) = rw (set_flag v n) (refl, refl)
Only-accepted (Only.only_bench v n) = rw (set_flag v n) (refl, refl)
Only-accepted (Only.only_full v n) = rw (set_flag v n) (refl, refl)

-- validateFlags accepts three flags with a script, and main then starts a mode, just where one flag is
-- set and the others are not: the script is the value of that flag and the mode is its own.
pub validate_flags-Only :
    (s b f v : Bytes) (m : Mode)
    → ((validate_flags s b f ≡ Flags.script v) × (choose_mode s b ≡ m)) ↔ Only s b f m v
validate_flags-Only s b f v m =
    (λ h. subst (λ x. Only s b f x v) h.1 (accepted-Only s b f v h.0), Only-accepted)
