-- ===== src/Watcher/Scan.antt =====
-- cmd/logd/watcher.go: scanFiles against one pass over the files below its directory.
use logd_go.Base.{
  ℕ, ◌≡◌, subst, ◌∙◌, sym, ap, refl, true, Option, none, some, List, [], ◌∷◌, ◌++◌, Bytes, equal,
  equal_iff, equal_refl, if◌then◌else◌, ◌⊎◌, inl, inr, Bool-cases, arith, >>=-eq-some,
}
use logd_go.Watcher.Reader.{
  FileInfo, Tree, Trees, Os, WatchFile, Files, DirReader, find_file, lookup, put_file, store,
  Outcome, ok, fails, and_then, register, stat_file, opened, is_key, add_file, visit_file, walk,
  walk_all, scan_files, watch, watch_added,
}

-- One file to visit, or an error of the walk.
pub data Visit : Type 0 where
  regular_or_not : Bytes → FileInfo → Visit
  fault : Bytes → Visit

-- The files below a name, each once, in the order of the walk.
mutual
  pub visits : Tree → List Visit
  visits (Tree.file name info) = Visit.regular_or_not name info ∷ []
  visits (Tree.dir name kids) = visits_all kids
  visits (Tree.broken e) = Visit.fault e ∷ []

  pub visits_all : Trees → List Visit
  visits_all Trees.none_left = []
  visits_all (Trees.next t ts) = visits t ++ visits_all ts

-- A pass over them that adds each regular file and stops at the first error.
abbrev pub add_visits : Os → List Visit → DirReader → Outcome
add_visits os [] d = ok d
add_visits os (Visit.regular_or_not name info ∷ vs) d =
    and_then (visit_file os name info d) (add_visits os vs)
add_visits os (Visit.fault e ∷ vs) d = fails d e

pub find_file-put :
    (m n : Bytes) (w : Option WatchFile) (fs : Files)
    → find_file m (put_file n w fs) ≡ (if equal n m then some w else find_file m fs)
unfolding find_file put_file
find_file-put m n w [] = ground arith
find_file-put m n w ((k, v) ∷ fs) =
    ground (arith, find_file-put m n w fs, equal_iff k n, equal_iff n m, equal_iff k m)

store-lookup_from :
    (n m : Bytes) (w : Option WatchFile) (d : DirReader) (o : Option Files) {d' : DirReader}
    → d.files ≡ o
    → store n w d ≡ some d'
    → lookup d' m ≡ (if equal n m then some w else lookup d m)
unfolding store lookup
store-lookup_from n m w d none q e = ground arith
store-lookup_from n m w d (some fs) q e = ground (arith, find_file-put m n w fs)

-- What a store changes.
pub store-lookup :
    (n m : Bytes) (w : Option WatchFile) (d : DirReader) {d' : DirReader}
    → store n w d ≡ some d'
    → lookup d' m ≡ (if equal n m then some w else lookup d m)
store-lookup n m w d e = store-lookup_from n m w d d.files refl e

abbrev pub IsKey : Bytes → DirReader → Type 0
IsKey m d = is_key (lookup d m) ≡ true

register-keys :
    (d : DirReader) (n : Bytes) (w : WatchFile) (e : Option Bytes) {d' : DirReader}
    {e' : Option Bytes}
    → register d n w e ≡ some (d', e')
    → IsKey n d' × ((m : Bytes) → IsKey m d → IsKey m d')
unfolding register
register-keys d n w e {d'} h =
    let (d1, f, g) = >>=-eq-some (store n (some w) d) _ h in
    let same : d1 ≡ d' = cc in
    subst (λ x. IsKey n x × ((m : Bytes) → IsKey m d → IsKey m x)) same
      (
        ground (arith, store-lookup n n (some w) d f, equal_refl n),
        λ m k. ground (arith, store-lookup n m (some w) d f),
      )

stat_file-keys :
    (os : Os) (d : DirReader) (n : Bytes) (fd : ℕ) (x : Bytes ⊎ FileInfo) {d' : DirReader}
    → stat_file os d n fd x ≡ ok d'
    → IsKey n d' × ((m : Bytes) → IsKey m d → IsKey m d')
unfolding stat_file
stat_file-keys os d n fd (inl e) h = cc
stat_file-keys os d n fd (inr info) h = register-keys d n _ _ h

opened-keys :
    (os : Os) (d : DirReader) (n : Bytes) (x : Bytes ⊎ ℕ) {d' : DirReader}
    → opened os d n x ≡ ok d'
    → IsKey n d' × ((m : Bytes) → IsKey m d → IsKey m d')
unfolding opened
opened-keys os d n (inl e) h = cc
opened-keys os d n (inr fd) h = stat_file-keys os d n fd (os.stat fd) h

pub add_file-keys :
    (os : Os) (n : Bytes) (d : DirReader) {d' : DirReader}
    → add_file os n d ≡ ok d'
    → IsKey n d' × ((m : Bytes) → IsKey m d → IsKey m d')
unfolding add_file
add_file-keys os n d {d'} h = elim (Bool-cases (is_key (lookup d n))) [
  | inl k ↦
      let same : d ≡ d' = cc (rw k at h) in
      subst (λ x. IsKey n x × ((m : Bytes) → IsKey m d → IsKey m x)) same (k, λ m q. q)
  | inr k ↦ opened-keys os d n (os.open_file n) (rw k at h)
]

-- Every regular file of the list is a key, and the list holds no error.
abbrev pub Known : List Visit → DirReader → Type 0
Known [] d = Unit
Known (Visit.regular_or_not name info ∷ vs) d = (info.is_regular ≡ true → IsKey name d) × Known vs d
Known (Visit.fault e ∷ vs) d = ⊥

Known-later :
    (vs : List Visit) (d d' : DirReader)
    → ((m : Bytes) → IsKey m d → IsKey m d')
    → Known vs d
    → Known vs d'
Known-later [] d d' h k = tt
Known-later (Visit.regular_or_not name info ∷ vs) d d' h k =
    (λ q. h name (k.0 q), Known-later vs d d' h k.1)
Known-later (Visit.fault e ∷ vs) d d' h k = k

visit_file-keys :
    (os : Os) (n : Bytes) (info : FileInfo) (d : DirReader) {d' : DirReader}
    → visit_file os n info d ≡ ok d'
    → (info.is_regular ≡ true → IsKey n d') × ((m : Bytes) → IsKey m d → IsKey m d')
unfolding visit_file
visit_file-keys os n info d {d'} h = elim (Bool-cases info.is_regular) [
  | inl k ↦ let (a, b) = add_file-keys os n d (rw k at h) in (λ q. a, b)
  | inr k ↦
      let same : d ≡ d' = cc (rw k at h) in
      (λ q. cc, subst (λ x. (m : Bytes) → IsKey m d → IsKey m x) same (λ m q. q))
]

-- The first of two methods in a row has returned without an error.
pub and_then-eq-ok :
    (o : Outcome) (k : DirReader → Outcome) {d' : DirReader}
    → and_then o k ≡ ok d'
    → (d : DirReader) × (o ≡ ok d) × (k d ≡ ok d')
and_then-eq-ok none k h = cc
and_then-eq-ok (some (d, some e)) k h = cc
and_then-eq-ok (some (d, none)) k h = (d, refl, h)

pub add_visits-Known :
    (os : Os) (vs : List Visit) (d : DirReader) {d' : DirReader}
    → add_visits os vs d ≡ ok d'
    → Known vs d' × ((m : Bytes) → IsKey m d → IsKey m d')
add_visits-Known os [] d {d'} h =
    let same : d ≡ d' = cc in (tt, subst (λ x. (m : Bytes) → IsKey m d → IsKey m x) same (λ m q. q))
add_visits-Known os (Visit.regular_or_not name info ∷ vs) d {d'} h =
    let (d1, f, g) = and_then-eq-ok (visit_file os name info d) (add_visits os vs) h in
    let (a, b) = visit_file-keys os name info d f in
    let (k, l) = add_visits-Known os vs d1 g in ((λ q. l name (a q), k), λ m q. l m (b m q))
add_visits-Known os (Visit.fault e ∷ vs) d h = cc

Known-add_visits :
    (os : Os) (vs : List Visit) (d : DirReader) → Known vs d → add_visits os vs d ≡ ok d
unfolding visit_file add_file
Known-add_visits os [] d k = refl
Known-add_visits os (Visit.regular_or_not name info ∷ vs) d k = elim (Bool-cases info.is_regular) [
  | inl q ↦ rw q (rw (k.0 q) (Known-add_visits os vs d k.1))
  | inr q ↦ rw q (Known-add_visits os vs d k.1)
]
Known-add_visits os (Visit.fault e ∷ vs) d k = elim k [ ]

-- A second pass changes nothing.
add_visits_twice :
    (os : Os) (vs : List Visit) (o : Outcome)
    → ((d' : DirReader) → o ≡ ok d' → Known vs d')
    → and_then o (add_visits os vs) ≡ o
add_visits_twice os vs none h = refl
add_visits_twice os vs (some (d, some e)) h = refl
add_visits_twice os vs (some (d, none)) h = Known-add_visits os vs d (h d refl)

and_then-ext :
    (o : Outcome) (k l : DirReader → Outcome)
    → ((d : DirReader) → k d ≡ l d)
    → and_then o k ≡ and_then o l
and_then-ext none k l h = refl
and_then-ext (some (d, some e)) k l h = refl
and_then-ext (some (d, none)) k l h = h d

and_then_assoc :
    (o : Outcome) (k l : DirReader → Outcome)
    → and_then (and_then o k) l ≡ and_then o (λ d. and_then (k d) l)
and_then_assoc none k l = refl
and_then_assoc (some (d, some e)) k l = refl
and_then_assoc (some (d, none)) k l = refl

and_then-ok : (o : Outcome) → and_then o (λ d. ok d) ≡ o
and_then-ok none = refl
and_then-ok (some (d, some e)) = refl
and_then-ok (some (d, none)) = refl

add_visits-append :
    (os : Os) (vs ws : List Visit) (d : DirReader)
    → add_visits os (vs ++ ws) d ≡ and_then (add_visits os vs d) (add_visits os ws)
add_visits-append os [] ws d = refl
add_visits-append os (Visit.regular_or_not name info ∷ vs) ws d =
    and_then-ext (visit_file os name info d) (add_visits os (vs ++ ws))
      (λ x. and_then (add_visits os vs x) (add_visits os ws)) (add_visits-append os vs ws)
    ∙ sym (and_then_assoc (visit_file os name info d) (add_visits os vs) (add_visits os ws))
add_visits-append os (Visit.fault e ∷ vs) ws d = refl

mutual
  unfolding walk visits

  walk-visits : (os : Os) (t : Tree) (d : DirReader) → walk os t d ≡ add_visits os (visits t) d
  walk-visits os (Tree.file name info) d = sym (and_then-ok (visit_file os name info d))
  walk-visits os (Tree.dir name kids) d =
      and_then-ext (walk_all os kids d) (walk_all os kids) (add_visits os (visits_all kids))
        (walk_all-visits os kids)
      ∙ ap (λ o. and_then o (add_visits os (visits_all kids))) (walk_all-visits os kids d)
      ∙ add_visits_twice os (visits_all kids) (add_visits os (visits_all kids) d)
          (λ d' h. (add_visits-Known os (visits_all kids) d h).0)
  walk-visits os (Tree.broken e) d = refl

  walk_all-visits :
      (os : Os) (ts : Trees) (d : DirReader) → walk_all os ts d ≡ add_visits os (visits_all ts) d
  walk_all-visits os Trees.none_left d = refl
  walk_all-visits os (Trees.next t ts) d =
      and_then-ext (walk os t d) (walk_all os ts) (add_visits os (visits_all ts))
        (walk_all-visits os ts)
      ∙ ap (λ o. and_then o (add_visits os (visits_all ts))) (walk-visits os t d)
      ∙ sym (add_visits-append os (visits t) (visits_all ts) d)

-- scanFiles, which goes through every directory below its own once for each directory above it, has the
-- result of one pass that adds each regular file once, in the order of the walk, and stops at the first
-- error, be it of the walk or of a file.
pub scan_files-visits :
    (os : Os) (t : Tree) (d : DirReader) → scan_files os t d ≡ add_visits os (visits t) d
unfolding scan_files visits
scan_files-visits os (Tree.file name info) d = walk-visits os (Tree.file name info) d
scan_files-visits os (Tree.dir name kids) d = walk_all-visits os kids d
scan_files-visits os (Tree.broken e) d = refl

-- When Watch returns without an error, the walk met none, every regular file below the name is a key of
-- the table, and so is every name that was one before.
pub watch-Known :
    (os : Os) (name : Bytes) (d : DirReader) {d' : DirReader}
    → watch os name d ≡ ok d'
    → Known (visits (os.tree name)) d' × ((m : Bytes) → IsKey m d → IsKey m d')
unfolding watch watch_added
watch-Known os name d {d'} h = go (os.watch_add name) h
  where
    go :
        (o : Option Bytes)
        → watch_added os name d o ≡ ok d'
        → Known (visits (os.tree name)) d' × ((m : Bytes) → IsKey m d → IsKey m d')
    go (some e) q = cc
    go none q =
        add_visits-Known os (visits (os.tree name)) d
          (sym (scan_files-visits os (os.tree name) d) ∙ q)
