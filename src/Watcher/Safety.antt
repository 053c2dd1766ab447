-- ===== src/Watcher/Safety.antt =====
-- cmd/logd/watcher.go: Read does not panic as long as no file is removed.
use logd_go.Base.{
  ℕ, ◌≡◌, ◌≢◌, refl, true, false, ◌&&◌, Option, none, some, List, [], ◌∷◌, Bytes, arith, Bool-cases,
  Option-cases, ◌⊎◌, inl, inr, All,
}
use logd_go.Watcher.Reader.{
  FileInfo, ReadResult, Os, WatchFile, Files, DirReader, Event, Signal, lookup, or_nil, Outcome, ok,
  and_then, fd_of, is_key, put_file, store, register, stat_file, opened, add_file, visit_file,
  watch, watch_added, go_on, with_info, file_info, read_file, read_event, handle, read,
}
use logd_go.Watcher.Scan.{
  Visit, visits, add_visits, store-lookup, scan_files-visits, IsKey, add_file-keys,
}

-- The table is there, and no entry of it is nil.
pub record IsLive (d : DirReader) : Type 0 where
  pub table : Files
  pub made : d.files ≡ some table
  pub entry : (m : Bytes) → lookup d m ≢ some none

-- The method returns, and keeps the table so.
abbrev pub StaysLive : Outcome → Type 0
StaysLive none = ⊥
StaysLive (some r) = IsLive r.0

store-IsLive :
    (n : Bytes) (w : WatchFile) (d : DirReader)
    → IsLive d
    → (d' : DirReader) × (store n (some w) d ≡ some d') × IsLive d'
unfolding store
store-IsLive n w d l =
    let d' : DirReader = record d { files = some (put_file n (some w) l.table) } in
    let f : store n (some w) d ≡ some d' = rw l.made refl in
    (
      d',
      f,
      record {
        table = put_file n (some w) l.table;
        made = refl;
        entry = λ m. ground (arith, store-lookup n m (some w) d f, l.entry m);
      },
    )

register-StaysLive :
    (d : DirReader) (n : Bytes) (w : WatchFile) (e : Option Bytes)
    → IsLive d
    → StaysLive (register d n w e)
unfolding register
register-StaysLive d n w e l = let (d', f, k) = store-IsLive n w d l in rw f k

stat_file-StaysLive :
    (os : Os) (d : DirReader) (n : Bytes) (fd : ℕ) (x : Bytes ⊎ FileInfo)
    → IsLive d
    → StaysLive (stat_file os d n fd x)
unfolding stat_file
stat_file-StaysLive os d n fd (inl e) l = l
stat_file-StaysLive os d n fd (inr info) l = register-StaysLive d n _ _ l

opened-StaysLive :
    (os : Os) (d : DirReader) (n : Bytes) (x : Bytes ⊎ ℕ) → IsLive d → StaysLive (opened os d n x)
unfolding opened
opened-StaysLive os d n (inl e) l = l
opened-StaysLive os d n (inr fd) l = stat_file-StaysLive os d n fd (os.stat fd) l

add_file-StaysLive : (os : Os) (n : Bytes) (d : DirReader) → IsLive d → StaysLive (add_file os n d)
unfolding add_file
add_file-StaysLive os n d l = elim (Bool-cases (is_key (lookup d n))) [
  | inl k ↦ rw k l
  | inr k ↦ rw k (opened-StaysLive os d n (os.open_file n) l)
]

visit_file-StaysLive :
    (os : Os) (n : Bytes) (info : FileInfo) (d : DirReader)
    → IsLive d
    → StaysLive (visit_file os n info d)
unfolding visit_file
visit_file-StaysLive os n info d l = elim (Bool-cases info.is_regular) [
  | inl k ↦ rw k (add_file-StaysLive os n d l)
  | inr k ↦ rw k l
]

and_then-StaysLive :
    (o : Outcome) (k : DirReader → Outcome)
    → StaysLive o
    → ((d : DirReader) → IsLive d → StaysLive (k d))
    → StaysLive (and_then o k)
and_then-StaysLive none k l h = l
and_then-StaysLive (some (d, some e)) k l h = l
and_then-StaysLive (some (d, none)) k l h = h d l

add_visits-StaysLive :
    (os : Os) (vs : List Visit) (d : DirReader) → IsLive d → StaysLive (add_visits os vs d)
add_visits-StaysLive os [] d l = l
add_visits-StaysLive os (Visit.regular_or_not name info ∷ vs) d l =
    and_then-StaysLive (visit_file os name info d) (add_visits os vs)
      (visit_file-StaysLive os name info d l) (add_visits-StaysLive os vs)
add_visits-StaysLive os (Visit.fault e ∷ vs) d l = l

watch-StaysLive : (os : Os) (n : Bytes) (d : DirReader) → IsLive d → StaysLive (watch os n d)
unfolding watch watch_added
watch-StaysLive os n d l = elim (Option-cases (os.watch_add n)) [
  | inl k ↦
      rw k
        (rw (scan_files-visits os (os.tree n) d) (add_visits-StaysLive os (visits (os.tree n)) d l))
  | inr k ↦ rw k.1 l
]

-- Read comes to a result.
abbrev Comes : Option ReadResult → Type 0
Comes r = (x : ReadResult) × (r ≡ some x)

go_on-Comes :
    (o : Outcome) (rest : DirReader → Option ReadResult)
    → StaysLive o
    → ((d : DirReader) → IsLive d → o ≡ ok d → Comes (rest d))
    → Comes (go_on o rest)
unfolding go_on
go_on-Comes none rest l h = elim l [ ]
go_on-Comes (some (d, some e)) rest l h = (_, refl)
go_on-Comes (some (d, none)) rest l h = h d l refl

IsLive-entry :
    (d : DirReader) (m : Bytes)
    → IsLive d
    → IsKey m d
    → (w : WatchFile) × (lookup d m ≡ some (some w))
IsLive-entry d m l k = go (lookup d m) refl k
  where
    go :
        (o : Option (Option WatchFile))
        → lookup d m ≡ o
        → is_key o ≡ true
        → (w : WatchFile) × (lookup d m ≡ some (some w))
    go none e q = cc
    go (some none) e q = absurd (l.entry m e)
    go (some (some w)) e q = (w, e)

-- A name with an entry can be read.
read_event-Comes :
    (os : Os) (n : Bytes) (d : DirReader) (w : WatchFile)
    → lookup d n ≡ some (some w)
    → Comes (read_event os n d)
unfolding read_event read_file fd_of
read_event-Comes os n d w h = rw h (_, refl)

abbrev pub NoRemoval : Signal → Type 0
NoRemoval (Signal.event e) = e.removes ≡ false
NoRemoval (Signal.failed e) = Unit

handle-Comes :
    (os : Os) (e : Event) (d : DirReader) (rest : DirReader → Option ReadResult) (info : FileInfo)
    (w : WatchFile)
    → IsLive d
    → lookup d e.name ≡ some (some w)
    → e.removes ≡ false
    → ((x : DirReader) → IsLive x → Comes (rest x))
    → Comes (handle os e d rest info)
unfolding handle
handle-Comes os e d rest info w l h q k = elim (Bool-cases (info.is_regular && e.writes)) [
  | inl a ↦ rw a (read_event-Comes os e.name d w h)
  | inr a ↦ rw a (
      rw q (elim (Bool-cases e.creates) [
        | inl b ↦
            rw b (
              go_on-Comes (watch os e.name d) rest (watch-StaysLive os e.name d l) (λ x m f. k x m))
        | inr b ↦ rw b (k d l)
      ]))
]

some_entry : (o : Option (Option WatchFile)) (w : WatchFile) → or_nil o ≡ some w → o ≡ some (some w)
some_entry none w e = cc
some_entry (some v) w e = cc

file_info-Comes :
    (os : Os) (n : Bytes) (d : DirReader) (o : Option WatchFile)
    (k : DirReader → FileInfo → Option ReadResult)
    → IsLive d
    → or_nil (lookup d n) ≡ o
    → ((x : DirReader) (w : WatchFile) (info : FileInfo)
        → IsLive x
        → lookup x n ≡ some (some w)
        → Comes (k x info))
    → Comes (file_info os n d o k)
unfolding file_info with_info
file_info-Comes os n d (some w) k l e h =
    let g : lookup d n ≡ some (some w) = some_entry (lookup d n) w e in h d w w.info l g
file_info-Comes os n d none k l e h =
    go_on-Comes (add_file os n d) (λ x. with_info (or_nil (lookup x n)) (k x))
      (add_file-StaysLive os n d l)
      (λ x m f.
        let (w, g) = IsLive-entry x n m (add_file-keys os n d f).0 in rw g (h x w w.info m g))

-- Read returns or waits, and does not panic, on a reader whose table has no nil entry, such as a new one,
-- as long as no event of the watcher says that a file was removed: whatever is created or written, and
-- whatever errors the system gives.
pub read-returns :
    (signals : List (Os × Signal)) (d : DirReader)
    → IsLive d
    → All (λ x. NoRemoval x.1) signals
    → (r : ReadResult) × (read signals d ≡ some r)
unfolding read
read-returns [] d l h = (_, refl)
read-returns ((os, Signal.failed e) ∷ signals) d l h = (_, refl)
read-returns ((os, Signal.event e) ∷ signals) d l h =
    file_info-Comes os e.name d (or_nil (lookup d e.name))
      (λ x info. handle os e x (read signals) info) l refl
      (λ x w info m g.
        handle-Comes os e x (read signals) info w m g h.0 (λ y n. read-returns signals y n h.1))
