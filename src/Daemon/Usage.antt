-- ===== src/Daemon/Usage.antt =====
-- cmd/logd/main.go: the usage text, with the flags sorted into commands and options. What
-- `flag.UnquoteUsage` gives for a flag stands in its record.
use logd_go.Base.{
  has_prefix, ◌≡◌, refl, Bool, true, false, not, ◌&&◌, ◌||◌, List, [], ◌∷◌, ◌++◌, Bytes, codes,
  equal, is_empty, if◌then◌else◌, Bool-cases, inl, inr, arith, equal_iff, append-nil,
}

pub record Flag : Type 0 where
  pub name : Bytes
  pub default : Bytes
  pub argument : Bytes
  pub usage : Bytes

-- printFlag
unfoldable pub print_flag : Flag → Bytes
print_flag f =
    codes "\t-"
    ++ (f.name
        ++ ((if is_empty f.argument then [] else codes " <" ++ (f.argument ++ codes ">"))
            ++ (codes "\n\t\t"
                ++ (f.usage
                    ++ ((if is_empty f.default
                          then []
                          else codes " [default: " ++ (f.default ++ codes "]"))
                        ++ codes "\n")))))

-- `strings.Contains`

abbrev pub contains : Bytes → Bytes → Bool
contains [] p = has_prefix [] p
contains (c ∷ s) p = has_prefix (c ∷ s) p || contains s p

-- printOptions
unfoldable pub print_options : Flag → Bytes
unfolding print_flag
print_options f =
    if contains f.name (codes "test")
    then []
    else if equal f.name (codes "F") || (equal f.name (codes "B") || equal f.name (codes "R"))
    then []
    else print_flag f

-- printCommands
unfoldable pub print_commands : Flag → Bytes
unfolding print_flag
print_commands f =
    if not (equal f.name (codes "F"))
      && (not (equal f.name (codes "B")) && not (equal f.name (codes "R")))
    then []
    else print_flag f

-- flag.VisitAll with one of them.
unfoldable pub visit_all : (Flag → Bytes) → List Flag → Bytes
visit_all f [] = []
visit_all f (x ∷ xs) = f x ++ visit_all f xs

-- The usage text, with the name of the program.
unfoldable pub usage_text : Bytes → List Flag → Bytes
unfolding visit_all print_options print_commands
usage_text program flags =
    codes "Usage:\n\n"
    ++ (codes "\t"
        ++ (program
            ++ (codes " (-S|-R|-B) <lua> [options]\n"
                ++ (codes "\nCommands:\n\n"
                    ++ (visit_all print_commands flags
                        ++ (codes "\nOptions:\n\n" ++ visit_all print_options flags))))))

abbrev is_command : Bytes → Bool
is_command n = equal n (codes "F") || (equal n (codes "B") || equal n (codes "R"))

command-contains : (n : Bytes) → is_command n ≡ true → contains n (codes "test") ≡ false
command-contains n h = elim (Bool-cases (equal n (codes "F"))) [
  | inl e ↦ rw ((equal_iff n (codes "F")).0 e) refl
  | inr e ↦ elim (Bool-cases (equal n (codes "B"))) [
    | inl k ↦ rw ((equal_iff n (codes "B")).0 k) refl
    | inr k ↦ rw ((equal_iff n (codes "R")).0 (rw e at (rw k at h))) refl
  ]
]

print_commands_lem :
    (f : Flag) → print_commands f ≡ (if is_command f.name then print_flag f else [])
unfolding print_commands
print_commands_lem f = ground arith

print_options_lem :
    (f : Flag)
    → print_options f ≡ (
        if contains f.name (codes "test")
        then []
        else if is_command f.name
        then []
        else print_flag f)
unfolding print_options
print_options_lem f = refl

-- A flag is printed in the usage text as printFlag writes it and only once, under the commands or under the
-- options; it is not printed at all if its name contains "test".
print_options-commands :
    (f : Flag)
    → print_commands f ++ print_options f
      ≡ (if contains f.name (codes "test") then [] else print_flag f)
print_options-commands f = rw (print_commands_lem f) (
    rw (print_options_lem f) (elim (Bool-cases (is_command f.name)) [
      | inl c ↦ rw c (rw (command-contains f.name c) (append-nil (print_flag f)))
      | inr c ↦ rw c refl
    ]))
