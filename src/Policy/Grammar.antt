-- ===== src/Policy/Grammar.antt =====
-- `literal`, `options` and `safe_command` of src/policy.rs: the finite grammar of the safe mode.
mod Words
pub use Words.*
use securecrt_mcp.Prelude.{
  ℕ, ◌+◌, ◌-◌, Bool, true, false, not, ◌&&◌, ◌||◌, List, [], ◌∷◌, ltb, leb, ◌==◌, if◌then◌else◌,
  Option, none, some, is_empty, all, ◌*◌,
}
use securecrt_mcp.Prelude.{length, ◌^◌}
use securecrt_mcp.Text.{
  Text, codes, eq_text, contains, has_char, starts_with, is_ascii_alphanumeric,
  split_ascii_whitespace,
}

unfoldable pub is_literal_char : ℕ → Bool
unfolding is_ascii_alphanumeric has_char
is_literal_char c = is_ascii_alphanumeric c || has_char (codes "_./:=,@%+-") c

unfoldable pub literal : Text → Bool
unfolding starts_with is_literal_char
literal word = not (is_empty word) && not (starts_with word (codes "-")) && all is_literal_char word

-- `str::parse::<u32>`: digits behind an optional plus sign, within 32 bits.
unfoldable pub digits_value : ℕ → Text → Option ℕ
digits_value acc [] = some acc
digits_value acc (c ∷ s) =
    let rest = digits_value (acc * 10 + (c - b'0')) s in
    if leb b'0' c && leb c b'9' then rest else none

abbrev below_2_32 : Option ℕ → Option ℕ
below_2_32 none = none
below_2_32 (some n) = if ltb n (2 ^ 32) then some n else none

unfoldable pub parse_u32 : Text → Option ℕ
unfolding digits_value
parse_u32 [] = none
parse_u32 (c ∷ []) = below_2_32 (digits_value 0 (c ∷ []))
parse_u32 (c ∷ d ∷ s) =
    if c == b'+'
    then below_2_32 (digits_value 0 (d ∷ s))
    else below_2_32 (digits_value 0 (c ∷ d ∷ s))

-- The number of lines that an option asks for is known to be over 5000.
unfoldable pub asks_too_much : Text → Text → Bool
unfolding contains parse_u32
asks_too_much arg value =
    contains (codes "-n" ∷ codes "--tail" ∷ []) arg
    && elim (parse_u32 value) [ none ↦ false | some n ↦ ltb 5000 n ]

module _ (flags values : List Text) (positionals : Bool) where
  unfoldable pub options : List Text → Bool
  unfolding contains literal asks_too_much
  options [] = true
  options (arg ∷ []) =
      contains flags arg || (not (contains values arg) && positionals && literal arg)
  options (arg ∷ value ∷ args) =
      let next = options (value ∷ args) in
      let behind = options args in
      if contains flags arg
      then next
      else if contains values arg
      then literal value && not (asks_too_much arg value) && behind
      else positionals && literal arg && next

-- `windows(2)` of the arguments of kubectl: an output format is one of four.
unfoldable pub formats_ok : List Text → Bool
unfolding contains
formats_ok [] = true
formats_ok (w ∷ []) = true
formats_ok (w ∷ v ∷ ws) =
    (not (contains (codes "-o" ∷ codes "--output" ∷ []) w)
      || contains (codes "wide" ∷ codes "json" ∷ codes "yaml" ∷ codes "name" ∷ []) v)
    && formats_ok (v ∷ ws)

-- A `match` on a word: the first arm that lists the word decides, and no arm is a refusal.
abbrev pub first_arm : Text → List (List Text × Bool) → Bool
first_arm w [] = false
first_arm w ((names, accepted) ∷ rows) =
    let rest = first_arm w rows in if contains names w then accepted else rest

unfoldable pub ip_ok : List Text → Bool
unfolding contains eq_text options
ip_ok [] = false
ip_ok (w ∷ []) = false
ip_ok (w ∷ v ∷ ws) =
    contains ip_objects w && eq_text v (codes "show") && options [] ip_values true ws

unfoldable pub systemctl_ok : List Text → Bool
unfolding contains starts_with options
systemctl_ok [] = false
systemctl_ok (w ∷ ws) =
    contains systemctl_verbs w
    && (starts_with w (codes "is-") || contains (w ∷ ws) (codes "--no-pager"))
    && options systemctl_flags [] true ws

abbrev pub docker_arms : Text → List Text → List (List Text × Bool)
docker_arms w ws =
    (codes "ps" ∷ [], options docker_ps_flags [] false ws)
    ∷ (
      codes "stats" ∷ [],
      contains (w ∷ ws) (codes "--no-stream") && options docker_stats_flags [] true ws,
    )
    ∷ (codes "logs" ∷ [], options docker_logs_flags docker_logs_values true ws)
    ∷ (
      codes "inspect" ∷ codes "images" ∷ codes "info" ∷ codes "version" ∷ [],
      options [] [] true ws,
    )
    ∷ []

unfoldable pub docker_ok : List Text → Bool
unfolding contains options
docker_ok [] = false
docker_ok (w ∷ ws) = first_arm w (docker_arms w ws)

unfoldable pub kubectl_ok : List Text → Bool
unfolding contains options formats_ok
kubectl_ok [] = false
kubectl_ok (w ∷ ws) =
    contains kubectl_verbs w && options kubectl_flags kubectl_values true ws && formats_ok (w ∷ ws)

abbrev pub eq_words : List Text → List Text → Bool
eq_words [] [] = true
eq_words [] (_ ∷ _) = false
eq_words (_ ∷ _) [] = false
eq_words (w ∷ ws) (v ∷ vs) = eq_text w v && eq_words ws vs

-- The arms of the `match` on the first word, in their order.
abbrev pub arms : List Text → List (List Text × Bool)
arms a =
    (codes "pwd" ∷ codes "whoami" ∷ codes "date" ∷ [], is_empty a)
    ∷ (codes "hostname" ∷ [], options hostname_flags [] false a)
    ∷ (codes "uname" ∷ [], options uname_flags [] false a)
    ∷ (codes "uptime" ∷ [], options uptime_flags [] false a)
    ∷ (codes "id" ∷ [], options id_flags [] false a)
    ∷ (codes "free" ∷ [], options free_flags [] false a)
    ∷ (codes "df" ∷ [], options df_flags [] true a)
    ∷ (codes "ls" ∷ [], options ls_flags [] true a)
    ∷ (codes "ps" ∷ [], eq_words a (codes "aux" ∷ []) || eq_words a (codes "-ef" ∷ []))
    ∷ (codes "ss" ∷ [], options ss_flags [] false a)
    ∷ (codes "cat" ∷ codes "stat" ∷ codes "wc" ∷ [], not (is_empty a) && all literal a)
    ∷ (codes "head" ∷ codes "tail" ∷ [], not (is_empty a) && options [] lines_values true a)
    ∷ (codes "ip" ∷ [], ip_ok a)
    ∷ (codes "dmesg" ∷ [], options dmesg_flags [] false a)
    ∷ (
      codes "journalctl" ∷ [],
      contains a (codes "--no-pager") && options journalctl_flags journalctl_values false a,
    )
    ∷ (codes "systemctl" ∷ [], systemctl_ok a)
    ∷ (codes "docker" ∷ codes "podman" ∷ [], docker_ok a)
    ∷ (codes "kubectl" ∷ [], kubectl_ok a)
    ∷ []

abbrev pub program_ok : List Text → Bool
program_ok [] = false
program_ok (w ∷ a) = first_arm w (arms a)

unfoldable pub safe_command : Text → Bool
unfolding split_ascii_whitespace contains options literal ip_ok systemctl_ok docker_ok kubectl_ok
    eq_text
safe_command command =
    let words = split_ascii_whitespace command in leb (length words) 64 && program_ok words
