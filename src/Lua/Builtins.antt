-- ===== src/Lua/Builtins.antt =====
-- lua/builtin.go: the functions of the module that work on a log. The logs are a store, by address.
use logd_go.Base.{
  ℕ, Bool, true, false, Option, some, List, [], ◌∷◌, Bytes, ◌==◌, if◌then◌else◌, ◌>>=◌,
}
use logd_go.Log.{Log, reset, get, set, remove}
use logd_go.Log.Serialize.{string, json}
use logd_go.Lua.Arguments.{Values, get_arg_log_ptr, get_arg_string}

abbrev pub Store : Type 0
Store = ℕ → Log

unfoldable pub put_log : ℕ → Log → Store → Store
put_log p l st q = if p == q then l else st q

-- The functions of `logdAPI` on logs.
pub data Builtin : Type 0 where
  log_get log_set log_remove log_reset log_string log_json : Builtin

-- The value that log_get pushes.
abbrev pub found_or_empty : Bytes × Bool → Bytes
found_or_empty (x, true) = x
found_or_empty (x, false) = []

module _ (v : Values) where
  open v use {Value, of_string, of_boolean}

  -- The log that Set or Remove leaves, and its Boolean result.
  unfoldable pub put_changed : ℕ → Store → Log × Bool → Option (Store × List Value)
  unfolding put_log
  put_changed p st (l, b) = some (put_log p l st, of_boolean b ∷ [])

  lua_reset_log : List Value → Store → Option (Store × List Value)
  unfolding put_log
  lua_reset_log xs st = do p ← get_arg_log_ptr v 1 xs; some (put_log p (reset (st p)) st, [])

  unfoldable pub lua_remove_log_property : List Value → Store → Option (Store × List Value)
  unfolding put_changed
  lua_remove_log_property xs st = do
    p ← get_arg_log_ptr v 1 xs
    key ← get_arg_string v 2 xs
    r ← remove (st p) key
    put_changed p st r

  unfoldable pub lua_set_log_property : List Value → Store → Option (Store × List Value)
  unfolding put_changed
  lua_set_log_property xs st = do
    p ← get_arg_log_ptr v 1 xs
    key ← get_arg_string v 2 xs
    value ← get_arg_string v 3 xs
    r ← set (st p) key value
    put_changed p st r

  unfoldable pub lua_get_log_property : List Value → Store → Option (Store × List Value)
  lua_get_log_property xs st = do
    p ← get_arg_log_ptr v 1 xs
    key ← get_arg_string v 2 xs
    some (st, of_string (found_or_empty (get (st p) key)) ∷ [])

  unfoldable pub lua_log_string : List Value → Store → Option (Store × List Value)
  lua_log_string xs st = do p ← get_arg_log_ptr v 1 xs; some (st, of_string (string (st p)) ∷ [])

  unfoldable pub lua_log_json : List Value → Store → Option (Store × List Value)
  lua_log_json xs st = do p ← get_arg_log_ptr v 1 xs; some (st, of_string (json (st p)) ∷ [])

  unfoldable pub call_builtin : Builtin → List Value → Store → Option (Store × List Value)
  unfolding lua_reset_log
  call_builtin Builtin.log_get = lua_get_log_property
  call_builtin Builtin.log_set = lua_set_log_property
  call_builtin Builtin.log_remove = lua_remove_log_property
  call_builtin Builtin.log_reset = lua_reset_log
  call_builtin Builtin.log_string = lua_log_string
  call_builtin Builtin.log_json = lua_log_json
