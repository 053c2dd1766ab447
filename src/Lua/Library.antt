-- ===== src/Lua/Library.antt =====
-- lua/lua.go: how Init prepares a machine for the script: the module logd, the pointer to the sandbox, the path of
-- the packages, and lua.DoFile.
use logd_go.Base.{ℕ, suc, ◌-◌, ◌≡◌, ◌∙◌, Option, none, some, Bytes, codes, ◌++◌, arith}
use logd_go.Lua.Hooks.{name_module}
use logd_go.Lua.Path.{package_pattern}

-- What Init uses of go-lua, with the height of the stack that the documentation gives for each operation.
pub record Loader : Type 1 where
  pub State : Type 0
  pub top : State → ℕ
  -- `NewState` with an empty stack, `OpenLibraries`, `Require` of the module with its copy on the stack, `SubTable` of the
  -- registry, `PushGoFunction(luaLogdOpen)`, and `PushUserData` of the sandbox.
  pub new_state : State
  pub open_libraries : State → State
  pub require : Bytes → State → State
  pub sub_table : Bytes → State → State
  pub push_opener : State → State
  pub push_sandbox : State → State
  -- `Global`, `Field(-1, name)`, `PushString`, `Concat(2)`, `SetField(-2, name)`, `SetGlobal` and `Pop`.
  pub push_global : Bytes → State → State
  pub push_field : Bytes → State → State
  pub push_string : Bytes → State → State
  pub concat_two : State → State
  pub set_field : Bytes → State → State
  pub set_global : Bytes → State → State
  pub pop : ℕ → State → State
  -- `DoFile`: the machine behind the script, and its error.
  pub do_file : Bytes → State → State × Option Bytes
  pub top-new_state : top new_state ≡ 0
  pub top-open_libraries : (s : State) → top (open_libraries s) ≡ top s
  pub top-require : (n : Bytes) (s : State) → top (require n s) ≡ suc (top s)
  pub top-sub_table : (n : Bytes) (s : State) → top (sub_table n s) ≡ suc (top s)
  pub top-push_opener : (s : State) → top (push_opener s) ≡ suc (top s)
  pub top-push_sandbox : (s : State) → top (push_sandbox s) ≡ suc (top s)
  pub top-push_global : (n : Bytes) (s : State) → top (push_global n s) ≡ suc (top s)
  pub top-push_field : (n : Bytes) (s : State) → top (push_field n s) ≡ suc (top s)
  pub top-push_string : (n : Bytes) (s : State) → top (push_string n s) ≡ suc (top s)
  pub top-concat_two : (s : State) → top (concat_two s) ≡ top s - 1
  pub top-set_field : (n : Bytes) (s : State) → top (set_field n s) ≡ top s - 1
  pub top-set_global : (n : Bytes) (s : State) → top (set_global n s) ≡ top s - 1
  pub top-pop : (n : ℕ) (s : State) → top (pop n s) ≡ top s - n

module _ (m : Loader) where
  open m use {
    State, top, new_state, open_libraries, require, sub_table, push_opener, push_sandbox,
    push_global, push_field, push_string, concat_two, set_field, set_global, pop, do_file,
    top-new_state, top-open_libraries, top-require, top-sub_table, top-push_opener,
    top-push_sandbox, top-push_global, top-push_field, top-push_string, top-concat_two,
    top-set_field, top-set_global, top-pop,
  }

  unfoldable pub open_logd_library : State → State
  open_logd_library s =
      let required = pop 1 (require name_module s) in
      let preloaded =
        pop 1 (set_field name_module (push_opener (sub_table (codes "_PRELOAD") required))) in
      set_global (codes "lsb_context") (push_sandbox preloaded)

  unfoldable pub add_package_path : Bytes → State → State
  add_package_path path s =
      let found = push_field (codes "path") (push_global (codes "package") s) in
      pop 1 (set_field (codes "path") (concat_two (push_string (codes ";" ++ path) found)))

  -- The machine that the script starts on.
  unfoldable pub prepare : Bytes → Bytes → State
  unfolding open_logd_library add_package_path
  prepare script cwd =
      add_package_path (package_pattern script cwd) (open_logd_library (open_libraries new_state))

  load_failure : Option Bytes → Option Bytes
  load_failure none = none
  load_failure (some e) = some (codes "there was an error when loading script: " ++ e)

  unfoldable pub load_user_script : Bytes → State → State × Option Bytes
  unfolding load_failure
  load_user_script script s = ((do_file script s).0, load_failure (do_file script s).1)

  top-open_logd_library : (s : State) → top (open_logd_library s) ≡ top s
  unfolding open_logd_library
  top-open_logd_library s =
      let a = require name_module s in
      let b = pop 1 a in
      let c = sub_table (codes "_PRELOAD") b in
      let d = push_opener c in
      let e = set_field name_module d in
      let f = pop 1 e in
      let g = push_sandbox f in
      omega (
        arith,
        top-require name_module s,
        top-pop 1 a,
        top-sub_table (codes "_PRELOAD") b,
        top-push_opener c,
        top-set_field name_module d,
        top-pop 1 e,
        top-push_sandbox f,
        top-set_global (codes "lsb_context") g,
      )

  top-add_package_path : (path : Bytes) (s : State) → top (add_package_path path s) ≡ top s
  unfolding add_package_path
  top-add_package_path path s =
      let a = push_global (codes "package") s in
      let b = push_field (codes "path") a in
      let c = push_string (codes ";" ++ path) b in
      let d = concat_two c in
      let e = set_field (codes "path") d in
      omega (
        arith,
        top-push_global (codes "package") s,
        top-push_field (codes "path") a,
        top-push_string (codes ";" ++ path) b,
        top-concat_two c,
        top-set_field (codes "path") d,
        top-pop 1 e,
      )

  -- A script starts on an empty stack.
  top-prepare : (script cwd : Bytes) → top (prepare script cwd) ≡ 0
  unfolding prepare
  top-prepare script cwd =
      top-add_package_path (package_pattern script cwd)
        (open_logd_library (open_libraries new_state))
      ∙ top-open_logd_library (open_libraries new_state)
      ∙ top-open_libraries new_state
      ∙ top-new_state
