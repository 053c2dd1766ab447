-- ===== src/Lua/Signals.antt =====
-- lua/lua.go: the names of the signals.
use logd_go.Base.{ℕ, List, [], ◌∷◌, Bytes, codes, ◌==◌, if◌then◌else◌}

abbrev pub signals : List (ℕ × Bytes)
signals =
    (6, codes "SIGABRT")
    ∷ (14, codes "SIGALRM")
    ∷ (7, codes "SIGBUS")
    ∷ (17, codes "SIGCHLD")
    ∷ (18, codes "SIGCONT")
    ∷ (8, codes "SIGFPE")
    ∷ (1, codes "SIGHUP")
    ∷ (4, codes "SIGILL")
    ∷ (2, codes "SIGINT")
    ∷ (29, codes "SIGIO")
    ∷ (9, codes "SIGKILL")
    ∷ (13, codes "SIGPIPE")
    ∷ (27, codes "SIGPROF")
    ∷ (30, codes "SIGPWR")
    ∷ (3, codes "SIGQUIT")
    ∷ (11, codes "SIGSEGV")
    ∷ (16, codes "SIGSTKFLT")
    ∷ (19, codes "SIGSTOP")
    ∷ (31, codes "SIGSYS")
    ∷ (15, codes "SIGTERM")
    ∷ (5, codes "SIGTRAP")
    ∷ (20, codes "SIGTSTP")
    ∷ (21, codes "SIGTTIN")
    ∷ (22, codes "SIGTTOU")
    ∷ (23, codes "SIGURG")
    ∷ (10, codes "SIGUSR1")
    ∷ (12, codes "SIGUSR2")
    ∷ (26, codes "SIGVTALRM")
    ∷ (28, codes "SIGWINCH")
    ∷ (24, codes "SIGXCPU")
    ∷ (25, codes "SIGXFSZ")
    ∷ []

-- `signals[n]`, with the empty text for a number without a name.
unfoldable pub signal_name : List (ℕ × Bytes) → ℕ → Bytes
signal_name [] n = []
signal_name ((m, name) ∷ rest) n = if m == n then name else signal_name rest n
