-- ===== src/Lua/Path.antt =====
-- lua/lua.go: the pattern that Init appends to package.path, with what it uses of the package path of Go.
use logd_go.Base.{
  ℕ, ◌⊎◌, ◌≡◌, inl, inr, refl, Bool, true, false, not, ◌||◌, ◌&&◌, List, [], ◌∷◌, ◌++◌, Bytes, All,
  codes, equal, is_empty, ◌==◌, if◌then◌else◌, arith, Bool-cases,
}

-- `path.IsAbs`
unfoldable pub is_abs : Bytes → Bool
is_abs [] = false
is_abs (c ∷ s) = c == b'/'

abbrev extend : Bytes → List Bytes → List Bytes
extend [] segs = segs
extend (c ∷ s) [] = (c ∷ s) ∷ []
extend (c ∷ s) (seg ∷ segs) = (c ∷ s ++ seg) ∷ segs

-- The parts between the slashes.
segments : Bytes → List Bytes
segments [] = [] ∷ []
segments (c ∷ s) = let rest = segments s in if c == b'/' then [] ∷ rest else extend (c ∷ []) rest

-- A part "..": it takes away the part before it, if there is one.
parent : Bool → List Bytes → List Bytes
parent rooted [] = if rooted then [] else codes ".." ∷ []
parent rooted (seg ∷ segs) = if equal seg (codes "..") then codes ".." ∷ seg ∷ segs else segs

clean_segment : Bool → List Bytes → Bytes → List Bytes
unfolding parent
clean_segment rooted done seg =
    if is_empty seg || equal seg (codes ".")
    then done
    else if equal seg (codes "..")
    then parent rooted done
    else seg ∷ done

-- The parts of the cleaned path, the last one first.
clean_segments : Bool → List Bytes → List Bytes → List Bytes
unfolding clean_segment
clean_segments rooted done [] = done
clean_segments rooted done (seg ∷ segs) = clean_segments rooted (clean_segment rooted done seg) segs

-- The parts, the last one first, with slashes between them.
abbrev pub slashed : List Bytes → Bytes
slashed [] = []
slashed (seg ∷ []) = seg
slashed (seg ∷ (t ∷ segs)) = slashed (t ∷ segs) ++ (b'/' ∷ seg)

rendered : Bool → Bytes → Bytes
rendered true s = b'/' ∷ s
rendered false [] = codes "."
rendered false (c ∷ s) = c ∷ s

-- `path.Clean`
unfoldable pub clean : Bytes → Bytes
unfolding is_abs segments clean_segments rendered
clean p = rendered (is_abs p) (slashed (clean_segments (is_abs p) [] (segments p)))

-- The text up to the last slash.
directory : Bytes → Bytes
directory [] = []
directory (c ∷ s) =
    let rest = directory s in if c == b'/' || not (is_empty rest) then c ∷ rest else []

-- `path.Dir`
unfoldable pub dir : Bytes → Bytes
unfolding clean directory
dir p = clean (directory p)

-- `path.Join` of two texts.
unfoldable pub join : Bytes → Bytes → Bytes
unfolding clean
join a b =
    if is_empty a && is_empty b
    then []
    else if is_empty a
    then clean b
    else if is_empty b
    then clean a
    else clean (a ++ (b'/' ∷ b))

unfoldable pub script_dir : Bytes → Bytes → Bytes
unfolding is_abs dir join
script_dir script cwd = if not (is_abs script) then join cwd (dir script) else dir script

-- With the directory that `os.Getwd` gives.
unfoldable pub package_pattern : Bytes → Bytes → Bytes
unfolding script_dir join
package_pattern script cwd = join (script_dir script cwd) (codes "?.lua")

abbrev pub no_slash : Bytes → Bool
no_slash [] = true
no_slash (c ∷ s) = not (c == b'/') && no_slash s

-- A part that names a directory or a file.
abbrev pub IsPlain : Bytes → Type 0
IsPlain seg =
    (is_empty seg || equal seg (codes ".") ≡ false)
    × (equal seg (codes "..") ≡ false)
    × (no_slash seg ≡ true)

abbrev IsUncut : Bytes → Type 0
IsUncut seg = no_slash seg ≡ true

extend-IsUncut :
    (c : ℕ) (segs : List Bytes)
    → (c == b'/') ≡ false
    → All IsUncut segs
    → All IsUncut (extend (c ∷ []) segs)
extend-IsUncut c [] h a = (rw h refl, tt)
extend-IsUncut c (seg ∷ segs) h a = (rw h a.0, a.1)

segments-IsUncut : (s : Bytes) → All IsUncut (segments s)
unfolding segments
segments-IsUncut [] = (refl, tt)
segments-IsUncut (c ∷ s) = elim (Bool-cases (c == b'/')) [
  | inl h ↦ rw h (refl, segments-IsUncut s)
  | inr h ↦ rw h (extend-IsUncut c (segments s) h (segments-IsUncut s))
]

-- The path from the root, with parts that are not empty, hold no slash, and are neither a dot nor two.
pub record IsRooted (p : Bytes) : Type 0 where
  pub parts : List Bytes
  pub plain : All IsPlain parts
  pub from_root : p ≡ b'/' ∷ slashed parts

clean_segment-IsPlain :
    (done : List Bytes) (seg : Bytes)
    → IsUncut seg
    → All IsPlain done
    → All IsPlain (clean_segment true done seg)
unfolding clean_segment parent
clean_segment-IsPlain [] seg u a = ground arith
clean_segment-IsPlain (t ∷ done) seg u a = ground arith

clean_segments-IsPlain :
    (segs done : List Bytes)
    → All IsUncut segs
    → All IsPlain done
    → All IsPlain (clean_segments true done segs)
unfolding clean_segments
clean_segments-IsPlain [] done u a = a
clean_segments-IsPlain (seg ∷ segs) done u a =
    clean_segments-IsPlain segs (clean_segment true done seg) u.1
      (clean_segment-IsPlain done seg u.0 a)

clean-IsRooted : (p : Bytes) → is_abs p ≡ true → IsRooted (clean p)
unfolding clean rendered
clean-IsRooted p h = record {
  parts = clean_segments true [] (segments p);
  plain = clean_segments-IsPlain (segments p) [] (segments-IsUncut p) tt;
  from_root = rw h refl;
}

join-IsRooted : (a b : Bytes) → is_abs a ≡ true → IsRooted (join a b)
unfolding join is_abs
join-IsRooted [] b h = cc
join-IsRooted (c ∷ a) [] h = clean-IsRooted (c ∷ a) h
join-IsRooted (c ∷ a) (d ∷ b) h = clean-IsRooted (c ∷ a ++ (b'/' ∷ (d ∷ b))) h

IsRooted-is_abs : (p : Bytes) → IsRooted p → is_abs p ≡ true
unfolding is_abs
IsRooted-is_abs p r = rw r.from_root refl

directory-is_abs : (p : Bytes) → is_abs p ≡ true → is_abs (directory p) ≡ true
unfolding is_abs directory
directory-is_abs [] h = cc
directory-is_abs (c ∷ s) h = rw h h

dir-IsRooted : (p : Bytes) → is_abs p ≡ true → IsRooted (dir p)
unfolding dir
dir-IsRooted p h = clean-IsRooted (directory p) (directory-is_abs p h)

script_dir-IsRooted :
    (script cwd : Bytes)
    → (is_abs script ≡ true) ⊎ (is_abs cwd ≡ true)
    → IsRooted (script_dir script cwd)
unfolding script_dir
script_dir-IsRooted script cwd (inl h) = rw h (dir-IsRooted script h)
script_dir-IsRooted script cwd (inr h) = elim (Bool-cases (is_abs script)) [
  | inl e ↦ rw e (dir-IsRooted script e)
  | inr e ↦ rw e (join-IsRooted cwd (dir script) h)
]

-- The pattern that Init appends to package.path is a path from the root, whose parts between the slashes are not
-- empty and neither a dot nor two: for a script with a path from the root whatever the working directory is, and for
-- any script if the working directory has a path from the root.
pub package_pattern-IsRooted :
    (script cwd : Bytes)
    → (is_abs script ≡ true) ⊎ (is_abs cwd ≡ true)
    → IsRooted (package_pattern script cwd)
unfolding package_pattern
package_pattern-IsRooted script cwd h =
    let r = script_dir-IsRooted script cwd h in
    join-IsRooted (script_dir script cwd) (codes "?.lua")
      (IsRooted-is_abs (script_dir script cwd) r)
