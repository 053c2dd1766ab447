-- ===== src/Watcher/Reader.antt =====
-- cmd/logd/watcher.go: DirReader. What the operating system and the watcher of fsnotify answer is a record
-- of functions, one for each event that is handled. `none` is a Go panic: a nil entry or a nil map.
use logd_go.Base.{
  ℕ, Bool, true, false, ◌&&◌, ◌⊎◌, inl, inr, Option, none, some, List, [], ◌∷◌, Bytes, equal,
  if◌then◌else◌, ◌>>=◌,
}
use logd_go.Daemon.Pipeline.{Failure, eof, other}

-- `os.FileInfo`, as far as its mode is asked.
pub record FileInfo : Type 0 where
  pub is_dir : Bool
  pub is_regular : Bool

-- The file tree below a name, as `filepath.Walk` meets it: `broken` is a name that it cannot visit.
mutual
  pub data Tree : Type 0 where
    file : Bytes → FileInfo → Tree
    dir : Bytes → Trees → Tree
    broken : Bytes → Tree

  pub data Trees : Type 0 where
    none_left : Trees
    next : Tree → Trees → Trees

-- What the operating system answers: a `Bytes` alone is an error.
pub record Os : Type 0 where
  pub open_file : Bytes → Bytes ⊎ ℕ
  pub stat : ℕ → Bytes ⊎ FileInfo
  pub seek_end : ℕ → Option Bytes
  pub close_file : ℕ → Option Bytes
  pub read_fd : ℕ → Bytes × Option (Failure Bytes)
  pub tree : Bytes → Tree
  pub watch_add : Bytes → Option Bytes
  pub watch_remove : Bytes → Option Bytes
  pub watch_close : Option Bytes

pub record WatchFile : Type 0 where
  pub fd : ℕ
  pub info : FileInfo

-- The map `files`: an entry may be nil.
abbrev pub Files : Type 0
Files = List (Bytes × Option WatchFile)

pub record DirReader : Type 0 where
  pub files : Option Files
  pub tail : Bool

-- What Init makes.
abbrev pub new_reader : DirReader
new_reader = record { files = some []; tail = true }

-- `v, ok := files[name]`; a nil map has no keys.
unfoldable pub find_file : Bytes → Files → Option (Option WatchFile)
find_file name [] = none
find_file name ((n, w) ∷ fs) = let rest = find_file name fs in if equal n name then some w else rest

unfoldable pub lookup : DirReader → Bytes → Option (Option WatchFile)
unfolding find_file
lookup d name = elim d.files [ none ↦ none | some fs ↦ find_file name fs ]

-- `files[name]`: nil also where there is no such key.
abbrev pub or_nil : Option (Option WatchFile) → Option WatchFile
or_nil none = none
or_nil (some w) = w

unfoldable pub put_file : Bytes → Option WatchFile → Files → Files
put_file name w [] = (name, w) ∷ []
put_file name w ((n, v) ∷ fs) =
    let rest = put_file name w fs in if equal n name then (n, w) ∷ fs else (n, v) ∷ rest

-- `files[name] = w`, a panic on a nil map.
unfoldable pub store : Bytes → Option WatchFile → DirReader → Option DirReader
unfolding put_file
store name w d = elim d.files [
  | none ↦ none
  | some fs ↦ some (record d { files = some (put_file name w fs) })
]

-- The reader that a method leaves, and its error.
abbrev pub Outcome : Type 0
Outcome = Option (DirReader × Option Bytes)

abbrev pub ok : DirReader → Outcome
ok d = some (d, none)

abbrev pub fails : DirReader → Bytes → Outcome
fails d e = some (d, some e)

-- `if err := …; err != nil { return err }`
abbrev pub and_then : Outcome → (DirReader → Outcome) → Outcome
and_then none k = none
and_then (some (d, some e)) k = fails d e
and_then (some (d, none)) k = k d

-- The end of addFile, with the result of Seek as its error.
unfoldable pub register : DirReader → Bytes → WatchFile → Option Bytes → Outcome
unfolding store
register d name w err = do d' ← store name (some w) d; some (d', err)

unfoldable pub stat_file : Os → DirReader → Bytes → ℕ → Bytes ⊎ FileInfo → Outcome
unfolding register
stat_file os d name fd (inl e) = fails d e
stat_file os d name fd (inr info) =
    register d name (record { fd = fd; info = info }) (if d.tail then os.seek_end fd else none)

unfoldable pub opened : Os → DirReader → Bytes → Bytes ⊎ ℕ → Outcome
unfolding stat_file
opened os d name (inl e) = fails d e
opened os d name (inr fd) = stat_file os d name fd (os.stat fd)

abbrev pub is_key : Option (Option WatchFile) → Bool
is_key none = false
is_key (some w) = true

-- addFile: nothing is done where the name is a key.
unfoldable pub add_file : Os → Bytes → DirReader → Outcome
unfolding opened lookup
add_file os name d = if is_key (lookup d name) then ok d else opened os d name (os.open_file name)

-- A regular file that the walk visits.
unfoldable pub visit_file : Os → Bytes → FileInfo → DirReader → Outcome
unfolding add_file
visit_file os name info d = if info.is_regular then add_file os name d else ok d

-- The walk of scanFiles below its directory: it calls scanFiles on a directory that it visits, and then
-- goes into that directory itself.
unfoldable mutual
  unfolding visit_file

  pub walk : Os → Tree → DirReader → Outcome
  walk os (Tree.file name info) d = visit_file os name info d
  walk os (Tree.dir name kids) d = and_then (walk_all os kids d) (walk_all os kids)
  walk os (Tree.broken e) d = fails d e

  pub walk_all : Os → Trees → DirReader → Outcome
  walk_all os Trees.none_left d = ok d
  walk_all os (Trees.next t ts) d = and_then (walk os t d) (walk_all os ts)

-- scanFiles: at its own directory the walk does nothing but go in.
unfoldable pub scan_files : Os → Tree → DirReader → Outcome
unfolding walk
scan_files os (Tree.dir name kids) d = walk_all os kids d
scan_files os (Tree.file name info) d = walk os (Tree.file name info) d
scan_files os (Tree.broken e) d = walk os (Tree.broken e) d

-- Watch, with the error of the watcher.
unfoldable pub watch_added : Os → Bytes → DirReader → Option Bytes → Outcome
unfolding scan_files
watch_added os name d (some e) = fails d e
watch_added os name d none = scan_files os (os.tree name) d

unfoldable pub watch : Os → Bytes → DirReader → Outcome
unfolding watch_added
watch os name d = watch_added os name d (os.watch_add name)

-- `d.files[name].fd`, a panic on a nil entry.
unfoldable pub fd_of : Option WatchFile → Option ℕ
fd_of none = none
fd_of (some w) = some w.fd

-- removeFile sets its entry to nil.
unfoldable pub removed : Bytes → DirReader → Option Bytes → Outcome
unfolding store
removed name d (some e) = fails d e
removed name d none = do d' ← store name none d; ok d'

unfoldable pub remove_file : Os → Bytes → DirReader → Outcome
unfolding removed fd_of lookup
remove_file os name d = do fd ← fd_of (or_nil (lookup d name)); removed name d (os.close_file fd)

-- The method Remove.
unfoldable pub remove_name : Os → Bytes → DirReader → Outcome
unfolding remove_file
remove_name os name d = and_then (remove_file os name d) (λ d'. some (d', os.watch_remove name))

-- readFile: the bytes read, and the error unless it is io.EOF.
abbrev pub but_eof : Option (Failure Bytes) → Option Bytes
but_eof none = none
but_eof (some eof) = none
but_eof (some (other e)) = some e

unfoldable pub read_file : Os → Bytes → DirReader → Option (Bytes × Option Bytes)
unfolding fd_of lookup
read_file os name d = do
  fd ← fd_of (or_nil (lookup d name))
  some ((os.read_fd fd).0, but_eof (os.read_fd fd).1)

-- An event of the watcher, as far as its bits are asked.
pub record Event : Type 0 where
  pub name : Bytes
  pub writes : Bool
  pub removes : Bool
  pub creates : Bool

-- What comes out of the `select`: an event, or an error of the watcher.
pub data Signal : Type 0 where
  event : Event → Signal
  failed : Bytes → Signal

-- What Read gives back: bytes and an error. It waits where the signals have run out.
pub data ReadResult : Type 0 where
  returns : DirReader → Bytes → Option Bytes → ReadResult
  waits : DirReader → ReadResult

-- Behind a method that was called for an event: its error is returned, or the loop goes on.
unfoldable pub go_on : Outcome → (DirReader → Option ReadResult) → Option ReadResult
go_on none rest = none
go_on (some (d, some e)) rest = some (ReadResult.returns d [] (some e))
go_on (some (d, none)) rest = rest d

unfoldable pub read_event : Os → Bytes → DirReader → Option ReadResult
unfolding read_file
read_event os name d = do r ← read_file os name d; some (ReadResult.returns d r.0 r.1)

-- The switch on the mode of the file and the bits of the event.
unfoldable pub handle :
    Os → Event → DirReader → (DirReader → Option ReadResult) → FileInfo → Option ReadResult
unfolding read_event go_on remove_name watch
handle os e d rest info =
    if info.is_regular && e.writes
    then read_event os e.name d
    else if e.removes
    then go_on (remove_name os e.name d) rest
    else if e.creates
    then go_on (watch os e.name d) rest
    else rest d

-- `fi = f.info`, a panic on nil.
unfoldable pub with_info : Option WatchFile → (FileInfo → Option ReadResult) → Option ReadResult
with_info none k = none
with_info (some w) k = k w.info

-- getFileInfo adds a file that it finds nil, and then takes the entry as it is.
unfoldable pub file_info :
    Os
    → Bytes
    → DirReader
    → Option WatchFile
    → (DirReader → FileInfo → Option ReadResult)
    → Option ReadResult
unfolding with_info go_on add_file lookup
file_info os name d (some w) k = k d w.info
file_info os name d none k =
    go_on (add_file os name d) (λ d'. with_info (or_nil (lookup d' name)) (k d'))

-- The loop of Read.
unfoldable pub read : List (Os × Signal) → DirReader → Option ReadResult
unfolding file_info handle
read [] d = some (ReadResult.waits d)
read ((os, Signal.failed e) ∷ signals) d = some (ReadResult.returns d [] (some e))
read ((os, Signal.event e) ∷ signals) d =
    file_info os e.name d (or_nil (lookup d e.name)) (λ d' info. handle os e d' (read signals) info)

-- The loop of Close over the entries, in the order of the list.
unfoldable pub close_all : Os → Files → Option (Option Bytes)
unfolding fd_of
close_all os [] = some none
close_all os ((n, w) ∷ fs) = do
  fd ← fd_of w
  let rest = close_all os fs
  elim (os.close_file fd) [ none ↦ rest | some e ↦ some (some e) ]

-- The method Close; the range over a nil map is empty.
abbrev pub entries : Option Files → Files
entries none = []
entries (some fs) = fs

unfoldable pub closed : Os → DirReader → Option Bytes → DirReader × Option Bytes
closed os d (some e) = (d, some e)
closed os d none = (record d { files = none }, os.watch_close)

unfoldable pub close : Os → DirReader → Outcome
unfolding close_all closed
close os d = do e ← close_all os (entries d.files); some (closed os d e)
