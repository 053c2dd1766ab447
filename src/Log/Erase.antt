-- ===== src/Log/Erase.antt =====
-- The in-place deletion of Remove: shifting the rest of the slice down by `copy` and cutting off the
-- last element takes out just the property at the index.
use logd_go.Base.{
  ℕ, suc, ◌+◌, ◌-◌, true, false, none, some, List, [], ◌∷◌, ◌++◌, ◌≡◌, inl, inr, refl, Bytes, equal,
  take, drop, length, length-append, take-append, drop-append, arith, ap, Bool-cases, if◌then◌else◌,
  append-nil,
}
use logd_go.Log.{Property, Log, find_prop, copy, find_index, remove_at, remove_found, remove_prop}

-- The properties without the first one that has the key.
abbrev pub erase_key : Bytes → List Property → List Property
erase_key k [] = []
erase_key k (p ∷ ps) = if equal p.key k then ps else p ∷ erase_key k ps

length-copy : (d : Property) (xs : List Property) → take (length xs) (copy (d ∷ xs) xs) ≡ xs
unfolding copy
length-copy d [] = refl
length-copy d (x ∷ []) = refl
length-copy d (x ∷ y ∷ xs) = ap (◌∷◌ x) (length-copy x (y ∷ xs))

take-append_add :
    (xs ys : List Property) (n : ℕ) → take (length xs + n) (xs ++ ys) ≡ xs ++ take n ys
take-append_add [] ys n = let e : 0 + n ≡ n = omega arith in rw e
take-append_add (x ∷ xs) ys n =
    let e : suc (length xs) + n ≡ suc (length xs + n) = omega arith in
    rw e (ap (◌∷◌ x) (take-append_add xs ys n))

drop_suc-append :
    (xs ys : List Property) (y : Property) → drop (length xs + 1) (xs ++ (y ∷ ys)) ≡ ys
drop_suc-append [] ys y = refl
drop_suc-append (x ∷ xs) ys y =
    let e : suc (length xs) + 1 ≡ suc (length xs + 1) = omega arith in
    rw e (drop_suc-append xs ys y)

-- Taking out the property behind `pre`, whether or not it is the last one.
remove_at_split :
    (pre post : List Property) (p : Property)
    → remove_at (pre ++ (p ∷ post)) (length pre) (length (pre ++ (p ∷ post)) - 1) ≡ pre ++ post
unfolding remove_at
remove_at_split pre [] p =
    let e : length (pre ++ (p ∷ [])) - 1 ≡ length pre = omega (arith, length-append pre (p ∷ [])) in
    rw e (ground (arith, take-append pre (p ∷ []), append-nil pre))
remove_at_split pre (q ∷ post) p =
    let e : length (pre ++ (p ∷ q ∷ post)) - 1 ≡ length pre + length (q ∷ post) =
      omega (arith, length-append pre (p ∷ q ∷ post)) in
    rw e (
      ground (
        arith,
        drop-append pre (p ∷ q ∷ post),
        drop_suc-append pre (q ∷ post) p,
        take-append pre (p ∷ q ∷ post),
        length-copy p (q ∷ post),
        take-append_add pre (copy (p ∷ q ∷ post) (q ∷ post)) (length (q ∷ post)),
      ))

-- Where the loop of Remove stops, if it does.
data Found (k : Bytes) (i : ℕ) (ps : List Property) : Type 0 where
  absent :
      find_index k i ps ≡ none → erase_key k ps ≡ ps → (find_prop k ps).1 ≡ false → Found k i ps
  at :
      (pre : List Property) (p : Property) (post : List Property)
      → find_index k i ps ≡ some (i + length pre)
      → ps ≡ pre ++ (p ∷ post)
      → erase_key k ps ≡ pre ++ post
      → (find_prop k ps).1 ≡ true
      → Found k i ps

Found-cons :
    (k : Bytes) (i : ℕ) (p : Property) (ps : List Property)
    → equal p.key k ≡ false
    → Found k (i + 1) ps
    → Found k i (p ∷ ps)
unfolding find_index find_prop
Found-cons k i p ps h (absent a e n) = absent (ground arith) (ground arith) (ground arith)
Found-cons k i p ps h (at pre q post a s e n) =
    at (p ∷ pre) q post (ground arith) (ground arith) (ground arith) (ground arith)

find_index-Found : (k : Bytes) (i : ℕ) (ps : List Property) → Found k i ps
unfolding find_index find_prop
find_index-Found k i [] = absent refl refl refl
find_index-Found k i (p ∷ ps) = elim (Bool-cases (equal p.key k)) [
  | inl e ↦ at [] p ps (ground arith) refl (ground arith) (ground arith)
  | inr e ↦ Found-cons k i p ps e (find_index-Found k (i + 1) ps)
]

remove_at-erase_key :
    (k : Bytes) (ps pre : List Property) (p : Property) (post : List Property)
    → ps ≡ pre ++ (p ∷ post)
    → erase_key k ps ≡ pre ++ post
    → remove_at ps (length pre) (length ps - 1) ≡ erase_key k ps
remove_at-erase_key k ps pre p post s e = rw e (rw s (remove_at_split pre post p))

remove_found-erase_key :
    (l : Log) (k : Bytes)
    → Found k 0 l.props
    → remove_found l (find_index k 0 l.props)
      ≡ (record l { props = erase_key k l.props }, (find_prop k l.props).1)
unfolding remove_found
remove_found-erase_key l k (absent a e n) = rw (a, e, n)
remove_found-erase_key l k (at pre p post a s e n) =
    let z : 0 + length pre ≡ length pre = omega arith in
    ground (arith, remove_at-erase_key k l.props pre p post s e)

remove_prop-props :
    (l : Log) (k : Bytes) (ps : List Property)
    → l.props ≡ ps
    → remove_prop l k ps ≡ (record l { props = erase_key k l.props }, (find_prop k l.props).1)
unfolding remove_prop find_prop
remove_prop-props l k [] h = ground arith
remove_prop-props l k (p ∷ ps) h =
    ground (arith, remove_found-erase_key l k (find_index-Found k 0 l.props))

-- The default case of Remove: the first property with the key is gone, and the result says whether
-- there was one.
pub remove_prop-erase_key :
    (l : Log) (k : Bytes)
    → remove_prop l k l.props ≡ (record l { props = erase_key k l.props }, (find_prop k l.props).1)
remove_prop-erase_key l k = remove_prop-props l k l.props refl
