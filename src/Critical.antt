-- ===== src/Critical.antt =====
-- src/critical.rs: the guard against catastrophic commands. It reads a command line into segments of
-- words, strips assignments and wrappers, and looks at the program and its arguments.
mod Segments
pub mod Paths
pub mod Guarded
pub mod Levels
unfoldable pub use Segments.*
use securecrt_mcp.Prelude.{
  ℕ, zero, suc, ◌+◌, ◌-◌, ◌≤◌, ◌<◌, min, max, ◌≡◌, refl, sym, ap, ap₂, ◌∙◌, Bool, true, false, not,
  ◌&&◌, ◌||◌, List, [], ◌∷◌, ◌++◌, arith, ltb, leb, ◌==◌, if◌then◌else◌, Bool-cases, Option-cases,
  inl, inr, Option, none, some, All, append_assoc, append-nil, Result, ok, err, ◌>>=◌, ◌>>◌, ensure,
  context, is_some, unwrap_or, is_empty, all, any, ◌*◌, ◌≢◌, ◌⊎◌, ◌↔◌, subst,
}
use securecrt_mcp.Text.{
  Text, codes, eq_text, contains, has_char, starts_with, strip_prefix, is_whitespace, split,
  after_last, trim_end_matches,
}

abbrev pub slash : ℕ
slash = b'/'

-- The parts of a path, the last first: empty and `.` parts are dropped, `..` drops the part before.
abbrev pop : List Text → List Text
pop [] = []
pop (p ∷ ps) = ps

unfoldable pub push_part : List Text → Text → List Text
unfolding eq_text
push_part parts p =
    if is_empty p || eq_text p (codes ".")
    then parts
    else if eq_text p (codes "..")
    then pop parts
    else p ∷ parts

unfoldable pub resolve : List Text → List Text → List Text
unfolding push_part
resolve parts [] = parts
resolve parts (p ∷ ps) = resolve (push_part parts p) ps

-- `format!("/{}", parts.join("/"))`, from the parts in reverse.
unfoldable pub join_reversed : List Text → Text
join_reversed [] = []
join_reversed (p ∷ []) = slash ∷ p
join_reversed (p ∷ q ∷ ps) = join_reversed (q ∷ ps) ++ slash ∷ p

unfoldable pub absolute : List Text → Text
unfolding join_reversed
absolute [] = slash ∷ []
absolute (p ∷ ps) = join_reversed (p ∷ ps)

unfoldable pub normalized : Text → Text
unfolding starts_with resolve split absolute
normalized path =
    if starts_with path (slash ∷ []) then absolute (resolve [] (split slash path)) else path

unfoldable pub authentication_target : Text → Bool
unfolding eq_text starts_with
authentication_target path =
    let p = normalized path in
    eq_text p (codes "/etc/ssh")
    || starts_with p (codes "/etc/ssh/")
    || starts_with p (codes "/etc/sudoers")

abbrev protected_paths : List Text
protected_paths =
    codes "/*"
    ∷ codes "/.*"
    ∷ codes "/bin"
    ∷ codes "/sbin"
    ∷ codes "/usr"
    ∷ codes "/lib"
    ∷ codes "/lib64"
    ∷ codes "/boot"
    ∷ codes "/etc"
    ∷ codes "/dev"
    ∷ codes "/proc"
    ∷ codes "/sys"
    ∷ codes "/home"
    ∷ codes "/root"
    ∷ codes "/var"
    ∷ codes "/mnt"
    ∷ codes "/media"
    ∷ []

-- The tests of `protected` on the path that it has normalized.
unfoldable pub protected_normal : Text → Bool
unfolding contains starts_with trim_end_matches
protected_normal normal =
    let path = trim_end_matches (λ c. c == slash) normal in
    is_empty path
    || contains protected_paths path
    || starts_with path (codes "/dev/")
    || starts_with path (codes "/etc/ssh/")
    || starts_with path (codes "/etc/sudoers")

unfoldable pub protected : Text → Bool
protected path = protected_normal (normalized path)

-- `first.rsplit('/').next()`.
unfoldable pub base_name : Text → Text
unfolding after_last
base_name = after_last slash

-- `while words.first() has '=' and no leading '/' { words.remove(0) }`.
unfoldable pub strip_assignments : List Text → List Text
unfolding has_char starts_with
strip_assignments [] = []
strip_assignments (w ∷ ws) =
    let rest = strip_assignments ws in
    if has_char w b'=' && not (starts_with w (slash ∷ [])) then rest else w ∷ ws

unfoldable pub is_wrapper : Text → Bool
unfolding contains base_name
is_wrapper w =
    contains (codes "sudo" ∷ codes "command" ∷ codes "env" ∷ codes "nohup" ∷ []) (base_name w)

unfoldable pub is_option : Text → Bool
unfolding starts_with has_char
is_option w = starts_with w (codes "-") || has_char w b'='

unfoldable pub takes_value : Text → Bool
unfolding contains
takes_value =
    contains (codes "-u" ∷ codes "-g" ∷ codes "-h" ∷ codes "--user" ∷ codes "--group" ∷ [])

-- The loop over wrappers. With `true` it stands behind a wrapper, where options are dropped, some
-- with their value.
unfoldable pub strip_wrappers : Bool → List Text → List Text
unfolding is_wrapper is_option takes_value
strip_wrappers b [] = []
strip_wrappers b (w ∷ []) = if (b && is_option w) || is_wrapper w then [] else w ∷ []
strip_wrappers b (w ∷ v ∷ ws) =
    let next = strip_wrappers true (v ∷ ws) in
    let behind = strip_wrappers true ws in
    if b && is_option w
    then (if takes_value w then behind else next)
    else if is_wrapper w
    then next
    else w ∷ v ∷ ws

-- `a.get(i + 1)` at the first `-c` or `-lc`.
unfoldable pub script_argument : List Text → Option Text
unfolding eq_text
script_argument [] = none
script_argument (w ∷ []) = none
script_argument (w ∷ v ∷ ws) =
    let rest = script_argument (v ∷ ws) in
    if eq_text w (codes "-c") || eq_text w (codes "-lc") then some v else rest

-- `a.windows(2).any(|p| p == [x, y])`.
unfoldable pub has_pair : Text → Text → List Text → Bool
unfolding eq_text
has_pair x y [] = false
has_pair x y (w ∷ []) = false
has_pair x y (w ∷ v ∷ ws) = (eq_text w x && eq_text v y) || has_pair x y (v ∷ ws)

-- The destination of `cp` and `install`: behind `-t`, or the last argument.
unfoldable pub target_directory : List Text → Option Text
unfolding eq_text
target_directory [] = none
target_directory (w ∷ []) = none
target_directory (w ∷ v ∷ ws) =
    let rest = target_directory (v ∷ ws) in
    if eq_text w (codes "-t") || eq_text w (codes "--target-directory") then some v else rest

unfoldable pub last : List Text → Option Text
last [] = none
last (w ∷ []) = some w
last (w ∷ v ∷ ws) = last (v ∷ ws)

abbrev on_some : (Text → Bool) → Option Text → Bool
on_some p none = false
on_some p (some t) = p t

abbrev or_else : Option Text → Option Text → Option Text
or_else none o = o
or_else (some t) o = some t

-- The test on a script handed to a shell; `inner` is `check` one level down.
unfoldable pub runs_script : (Text → Bool) → Text → List Text → Bool
unfolding contains
runs_script inner cmd a =
    contains (codes "sh" ∷ codes "bash" ∷ codes "dash" ∷ codes "zsh" ∷ []) cmd
    && on_some inner (script_argument a)

-- The other tests on a program and its arguments.
unfoldable pub is_catastrophic : Text → List Text → Bool
unfolding contains starts_with eq_text strip_prefix
is_catastrophic cmd a =
    (eq_text cmd (codes "rm") && any (λ s. not (starts_with s (codes "-")) && protected s) a)
    || starts_with cmd (codes "mkfs")
    || contains
        (codes "wipefs"
          ∷ codes "shred"
          ∷ codes "fdisk"
          ∷ codes "parted"
          ∷ codes "shutdown"
          ∷ codes "reboot"
          ∷ codes "poweroff"
          ∷ codes "halt"
          ∷ [])
        cmd
    || (eq_text cmd (codes "dd") && any (λ s. on_some protected (strip_prefix s (codes "of="))) a)
    || (contains (codes "iptables" ∷ codes "ip6tables" ∷ []) cmd
        && any (contains (codes "-F" ∷ codes "--flush" ∷ codes "-X" ∷ codes "--delete-chain" ∷ []))
            a)
    || (eq_text cmd (codes "nft") && has_pair (codes "flush") (codes "ruleset") a)
    || (contains (codes "cp" ∷ codes "install" ∷ []) cmd
        && on_some authentication_target (or_else (target_directory a) (last a)))
    || (contains (codes "tee" ∷ codes "truncate" ∷ codes "mv" ∷ []) cmd
        && any authentication_target a)

unfoldable pub dangerous : (Text → Bool) → Text → List Text → Bool
unfolding runs_script is_catastrophic
dangerous inner cmd a = runs_script inner cmd a || is_catastrophic cmd a

abbrev program : (Text → Bool) → List Text → Bool
program inner [] = false
program inner (first ∷ a) = dangerous inner (base_name first) a

unfoldable pub critical_words : (Text → Bool) → List Text → Bool
unfolding dangerous strip_assignments strip_wrappers
critical_words inner words = program inner (strip_wrappers false (strip_assignments words))

-- `check(input, depth)` with `levels = 5 - depth`: past depth 4 nothing is looked at.
unfoldable pub check : ℕ → Text → Bool
unfolding critical_words segments
check zero input = false
check (suc levels) input = any (critical_words (check levels)) (segments input)

unfoldable pub is_critical : Text → Bool
unfolding check
is_critical command = check 5 command
