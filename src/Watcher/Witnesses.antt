-- ===== src/Watcher/Witnesses.antt =====
-- The theorems about the directory reader at a directory with one file, and a run over its events.
use logd_go.Base.{◌≡◌, refl, true, false, none, some, inr, [], ◌∷◌, Bytes, codes, equal}
use logd_go.Watcher.Reader.{
  FileInfo, ReadResult, Tree, Trees, Os, DirReader, Event, Signal, lookup, new_reader, ok, watch,
  remove_name, read, close, scan_files,
}
use logd_go.Watcher.Scan.{visits, add_visits, scan_files-visits}
use logd_go.Watcher.Removed.{remove-read_panics, remove-close_panics}
use logd_go.Watcher.Safety.{IsLive, read-returns}

abbrev plain_file : FileInfo
plain_file = record { is_dir = false; is_regular = true }

-- A directory in a directory, with a file in the inner one.
abbrev sample_tree : Tree
sample_tree = Tree.dir (codes "/d") (
    Trees.next
      (Tree.dir (codes "/d/e") (Trees.next (Tree.file (codes "/d/e/f") plain_file) Trees.none_left))
      Trees.none_left)

abbrev sample_os : Os
sample_os = record {
  open_file = λ n. inr 3;
  stat = λ n. inr plain_file;
  seek_end = λ n. none;
  close_file = λ n. none;
  read_fd = λ n. (codes "x\n", none);
  tree = λ n. sample_tree;
  watch_add = λ n. none;
  watch_remove = λ n. none;
  watch_close = none;
}

abbrev name_f : Bytes
name_f = codes "/d/e/f"

abbrev reader_f : DirReader
reader_f = record new_reader {
  files = some ((name_f, some (record { fd = 3; info = plain_file })) ∷ []);
}

watched : watch sample_os (codes "/d") new_reader ≡ ok reader_f
unfolding watch equal
watched = refl

scan_files-visits_example :
    scan_files sample_os sample_tree new_reader
    ≡ add_visits sample_os (visits sample_tree) new_reader
scan_files-visits_example = scan_files-visits sample_os sample_tree new_reader

abbrev written : Event
written = record { name = name_f; writes = true; removes = false; creates = false }

abbrev reader_nil : DirReader
reader_nil = record new_reader { files = some ((name_f, none) ∷ []) }

removed_f : remove_name sample_os name_f reader_f ≡ ok reader_nil
unfolding remove_name equal
removed_f = refl

remove-read_panics_example : read ((sample_os, Signal.event written) ∷ []) reader_nil ≡ none
remove-read_panics_example =
    remove-read_panics sample_os name_f reader_f sample_os written [] removed_f refl

remove-close_panics_example : close sample_os reader_nil ≡ none
remove-close_panics_example =
    remove-close_panics sample_os name_f reader_f sample_os removed_f (λ fd. refl)

new_reader-IsLive : IsLive new_reader
unfolding lookup
new_reader-IsLive = record { table = []; made = refl; entry = λ m e. cc }

read-returns_example :
    (r : ReadResult) × (read ((sample_os, Signal.event written) ∷ []) new_reader ≡ some r)
read-returns_example =
    read-returns ((sample_os, Signal.event written) ∷ []) new_reader new_reader-IsLive (refl, tt)

read-written :
    read ((sample_os, Signal.event written) ∷ []) new_reader
    ≡ some (ReadResult.returns reader_f (codes "x\n") none)
unfolding read equal
read-written = refl
