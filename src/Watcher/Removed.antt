-- ===== src/Watcher/Removed.antt =====
-- cmd/logd/watcher.go: a name whose file was removed stays a key with a nil entry.
use logd_go.Base.{
  ℕ, ◌≡◌, subst, ◌∙◌, ap, refl, true, Option, none, some, List, [], ◌∷◌, Bytes, equal_refl, arith,
  >>=-eq-some,
}
use logd_go.Watcher.Reader.{
  FileInfo, ReadResult, handle, Os, Files, DirReader, Event, Signal, find_file, lookup, or_nil, ok,
  fd_of, is_key, store, removed, remove_file, remove_name, add_file, go_on, with_info, file_info,
  read, close_all, close,
}
use logd_go.Watcher.Scan.{and_then-eq-ok, store-lookup}

removed-lookup :
    (n : Bytes) (d : DirReader) (e : Option Bytes) {d' : DirReader}
    → removed n d e ≡ ok d'
    → lookup d' n ≡ some none
unfolding removed
removed-lookup n d (some e) h = cc
removed-lookup n d none {d'} h =
    let (d1, f, g) = >>=-eq-some (store n none d) _ h in
    let same : d1 ≡ d' = cc in
    subst (λ x. lookup x n ≡ some none) same (store-lookup n n none d f ∙ rw (equal_refl n) refl)

remove_name-lookup :
    (os : Os) (n : Bytes) (d : DirReader) {d' : DirReader}
    → remove_name os n d ≡ ok d'
    → lookup d' n ≡ some none
unfolding remove_name remove_file
remove_name-lookup os n d {d'} h =
    let (d1, f, g) = and_then-eq-ok (remove_file os n d) _ h in
    let (fd, k, l) = >>=-eq-some (fd_of (or_nil (lookup d n))) _ f in
    let same : d1 ≡ d' = cc in
    subst (λ x. lookup x n ≡ some none) same (removed-lookup n d (os.close_file fd) l)

add_file_known :
    (os : Os) (n : Bytes) (d : DirReader) → is_key (lookup d n) ≡ true → add_file os n d ≡ ok d
unfolding add_file
add_file_known os n d h = rw h refl

file_info_nil :
    (os : Os) (n : Bytes) (d : DirReader) (k : DirReader → FileInfo → Option ReadResult)
    → lookup d n ≡ some none
    → file_info os n d (or_nil (lookup d n)) k ≡ none
unfolding file_info go_on with_info
file_info_nil os n d k h =
    ap (λ o. file_info os n d (or_nil o) k) h
    ∙ ap (λ o. go_on o (λ x. with_info (or_nil (lookup x n)) (k x)))
        (add_file_known os n d (ap is_key h))
    ∙ ap (λ o. with_info (or_nil o) (k d)) h

-- Once the method Remove has returned without an error for a name, the next event of the watcher that
-- carries this name, as when the file is created again, is a panic of Read.
pub remove-read_panics :
    (os : Os) (n : Bytes) (d : DirReader) {d' : DirReader} (os' : Os) (e : Event)
    (signals : List (Os × Signal))
    → remove_name os n d ≡ ok d'
    → e.name ≡ n
    → read ((os', Signal.event e) ∷ signals) d' ≡ none
unfolding read
remove-read_panics os n d {d'} os' e signals h q =
    file_info_nil os' e.name d' (λ x info. handle os' e x (read signals) info)
      (rw q (remove_name-lookup os n d h))

close_all-nil :
    (os : Os) (n : Bytes) (fs : Files)
    → ((fd : ℕ) → os.close_file fd ≡ none)
    → find_file n fs ≡ some none
    → close_all os fs ≡ none
unfolding close_all find_file fd_of
close_all-nil os n [] c h = cc
close_all-nil os n ((m, none) ∷ fs) c h = refl
close_all-nil os n ((m, some w) ∷ fs) c h =
    rw (c w.fd) (close_all-nil os n fs c (ground (arith, h)))

lookup_absent : (n : Bytes) (d : DirReader) → d.files ≡ none → lookup d n ≡ none
unfolding lookup
lookup_absent n d q = rw q refl

close_from :
    (os : Os) (n : Bytes) (d : DirReader) (o : Option Files)
    → ((fd : ℕ) → os.close_file fd ≡ none)
    → d.files ≡ o
    → lookup d n ≡ some none
    → close os d ≡ none
unfolding lookup close
close_from os n d none c q h = cc (lookup_absent n d q, h)
close_from os n d (some fs) c q h = rw q (rw (close_all-nil os n fs c (rw q at h)) refl)

-- Once the method Remove has returned without an error for a name, Close panics, if closing the other
-- files succeeds.
pub remove-close_panics :
    (os : Os) (n : Bytes) (d : DirReader) {d' : DirReader} (os' : Os)
    → remove_name os n d ≡ ok d'
    → ((fd : ℕ) → os'.close_file fd ≡ none)
    → close os' d' ≡ none
remove-close_panics os n d {d'} os' h c =
    close_from os' n d' d'.files c refl (remove_name-lookup os n d h)
