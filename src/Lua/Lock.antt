-- ===== src/Lua/Lock.antt =====
-- lua/lua.go, lua/http.go: the lock of the sandbox, the goroutines that take it, and the HTTP client, as one
-- machine. A hook holds the lock while it runs; config_set, inside a hook, keeps it, and http_post gives it up.
use logd_go.Base.{
  ℕ, Bool, true, false, not, ◌&&◌, ◌||◌, some, List, [], ◌∷◌, Bytes, if◌then◌else◌, ℤ,
}
use logd_go.Http.Config.{Config}
use logd_go.Http.Worker.{Response}
use logd_go.Http.Client.{NewRequest}
use logd_go.Http.System.{System, Result, Action, is_idle, advance}

-- Who holds the lock: nobody, a hook that another goroutine than the poller of errors calls, or that poller.
pub data Owner : Type 0 where
  free hook poller : Owner

-- The goroutine pollHTTPErrors: at the receive from httpErrors, at the lock of callOnHTTPError, in the hook, or in an
-- http_post of the hook.
pub data Poller : Type 0 where
  receiving locking calling posting : Poller

-- `configuring` tells that the owner of the lock is in the Init of the client, for config_set.
pub record Shared : Type 0 where
  pub system : System
  pub owner : Owner
  pub poller : Poller
  pub configuring : Bool

-- The steps of the goroutines. `lock` is the entry of a hook, or the end of an http_post inside it; it is not tied
-- to the return of that Post. `configure` is config_set of a setting of HTTP, and the first start of the client.
pub data LockEvent : Type 0 where
  lock unlock poll_lock poll_unlock proceed : LockEvent
  configure : Config → LockEvent
  post : (url payload content_type : Bytes) → ℤ → LockEvent
  report receive quit : ℕ → LockEvent
  respond : ℕ → Response → LockEvent

-- The goroutine waits, or a goroutine has panicked, which ends the program. The machine has one call of the client at
-- a time: it does not follow a config_set beside an open Post, whose queue Close may close, with a panic of the send.
pub data Moved : Type 0 where
  moved : Shared → Moved
  blocked crashed unfollowed : Moved

abbrev pub is_free : Owner → Bool
is_free Owner.free = true
is_free _ = false

-- Behind a step of the client: Init is over when the client is idle again.
unfoldable pub with_system : Shared → Bool → Result → Moved
with_system s c (Result.running t) =
    Moved.moved (record s { system = t; configuring = c && not (is_idle t.call) })
with_system s c Result.panicked = Moved.crashed
with_system s c Result.disabled = Moved.blocked

-- `luaLock.Lock()`
unfoldable pub take_lock : Owner → Shared → Moved
take_lock o s = if is_free s.owner then Moved.moved (record s { owner = o }) else Moved.blocked

-- The deferred `luaLock.Unlock()` of a hook that has returned.
unfoldable pub release_lock : Owner → Shared → Moved
release_lock Owner.hook s =
    if s.configuring then Moved.blocked else Moved.moved (record s { owner = Owner.free })
release_lock _ s = Moved.blocked

-- The lock at the entry of callOnHTTPError, and at the end of an http_post inside it.
unfoldable pub poller_locks : Poller → Shared → Moved
unfolding take_lock
poller_locks Poller.locking s = take_lock Owner.poller (record s { poller = Poller.calling })
poller_locks Poller.posting s =
    if is_idle s.system.call
    then take_lock Owner.poller (record s { poller = Poller.calling })
    else Moved.blocked
poller_locks _ s = Moved.blocked

-- The end of callOnHTTPError.
unfoldable pub poller_unlocks : Owner → Shared → Moved
poller_unlocks Owner.poller s =
    if s.configuring
    then Moved.blocked
    else Moved.moved (record s { owner = Owner.free; poller = Poller.receiving })
poller_unlocks _ s = Moved.blocked

-- The owner of the lock calls the client, if it is not in a call yet.
abbrev pub from_owner : Shared → Moved → Moved
from_owner s r = if is_free s.owner || s.configuring then Moved.blocked else r

-- The owner of the lock calls Init, which does not take the lock of the client.
unfoldable pub begin_init : Bool → Moved → Moved
begin_init true r = r
begin_init false r = Moved.unfollowed

-- The lock is given up around Post.
abbrev pub gives_up : Owner → Shared → Shared
gives_up Owner.poller s = record s { owner = Owner.free; poller = Poller.posting }
gives_up _ s = record s { owner = Owner.free }

-- `errorchan <- Error{req, err}` of a worker, with the receive of the poller.
unfoldable pub deliver : Poller → Shared → Result → Moved
unfolding with_system
deliver Poller.receiving s r = with_system (record s { poller = Poller.locking }) s.configuring r
deliver _ s r = Moved.blocked

module _ (parse : Bytes → NewRequest) where
  unfoldable pub move : LockEvent → Shared → Moved
  unfolding advance with_system take_lock release_lock poller_locks poller_unlocks begin_init
      deliver
  move LockEvent.lock s = take_lock Owner.hook s
  move LockEvent.unlock s = release_lock s.owner s
  move LockEvent.poll_lock s = poller_locks s.poller s
  move LockEvent.poll_unlock s = poller_unlocks s.owner s
  move (LockEvent.configure cfg) s = from_owner s (
      begin_init (is_idle s.system.call)
        (with_system s true (advance parse (Action.call_init (some cfg) true) s.system)))
  move (LockEvent.post url payload content_type affinity) s = from_owner s (
      with_system (gives_up s.owner s) false
        (advance parse (Action.call_post url payload content_type affinity) s.system))
  move (LockEvent.report j) s = deliver s.poller s (advance parse (Action.reports j) s.system)
  move LockEvent.proceed s = with_system s s.configuring (advance parse Action.proceed s.system)
  move (LockEvent.receive j) s =
      with_system s s.configuring (advance parse (Action.receives j) s.system)
  move (LockEvent.respond j res) s =
      with_system s s.configuring (advance parse (Action.responds j res) s.system)
  move (LockEvent.quit j) s = with_system s s.configuring (advance parse (Action.quits j) s.system)

  -- Any schedule: a goroutine that waits at its turn stays where it is.
  unfoldable pub run_moved : Moved → Shared → (Shared → Moved) → Moved
  run_moved (Moved.moved t) s rest = rest t
  run_moved Moved.blocked s rest = rest s
  run_moved Moved.crashed s rest = Moved.crashed
  run_moved Moved.unfollowed s rest = Moved.unfollowed

  unfoldable pub run_events : List LockEvent → Shared → Moved
  unfolding move run_moved
  run_events [] s = Moved.moved s
  run_events (e ∷ es) s = run_moved (move e s) s (run_events es)
