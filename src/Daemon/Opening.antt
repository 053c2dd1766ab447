-- ===== src/Daemon/Opening.antt =====
-- cmd/logd/main.go: getReader, the reader that main opens.
use logd_go.Base.{Option, none, some, List, [], ◌∷◌, Bytes}
use logd_go.Watcher.Reader.{Os, DirReader, new_reader, Outcome, ok, and_then, watch}

-- The reader of the directories or of the file, an error, the end of the process with an error, or a panic.
pub data Opened : Type 0 where
  directories : DirReader → Opened
  file panicked : Opened
  failed exits : Bytes → Opened

-- The loop over the directories.
watch_all : Os → List Bytes → DirReader → Outcome
unfolding watch
watch_all os [] d = ok d
watch_all os (dir ∷ dirs) d = and_then (watch os dir d) (watch_all os dirs)

opened_directories : Outcome → Opened
opened_directories none = Opened.panicked
opened_directories (some (d, none)) = Opened.directories d
opened_directories (some (d, some e)) = Opened.failed e

new_watcher : Os → List Bytes → Option Bytes → Opened
unfolding opened_directories watch_all
new_watcher os dirs (some e) = Opened.panicked
new_watcher os dirs none = opened_directories (watch_all os dirs new_reader)

opened_file : Option Bytes → Opened
opened_file none = Opened.file
opened_file (some e) = Opened.exits e

-- With the directories of the flag -r, the error of NewReader and the error of `os.Open`.
unfoldable pub get_reader : Os → List Bytes → Option Bytes → Option Bytes → Opened
unfolding new_watcher opened_file
get_reader os [] new_error open_error = opened_file open_error
get_reader os (dir ∷ dirs) new_error open_error = new_watcher os (dir ∷ dirs) new_error
