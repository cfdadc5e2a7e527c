-- ===== src/Policy/Alphabet.antt =====
-- The characters of the commands that the safe grammar of src/policy.rs accepts.
use securecrt_mcp.Prelude.{
  ◌≡◌, refl, Bool, true, false, not, ◌&&◌, List, [], ◌∷◌, arith, leb, Bool-cases, inl, inr, All,
  is_empty, all,
}
use securecrt_mcp.Prelude.{length, &&_parts, ||_parts}
use securecrt_mcp.Text.{
  Text, codes, eq_text, contains, is_ascii_alphanumeric, has_char, split_ascii_whitespace,
}
use securecrt_mcp.Text.Words.{split_ascii_whitespace-all, eq_text-all_inv, contains-all, or_blank}
use securecrt_mcp.Policy.Grammar.{
  is_literal_char, literal, asks_too_much, options, ip_ok, systemctl_ok, docker_ok, kubectl_ok,
  eq_words, program_ok, safe_command, formats_ok, first_arm, docker_arms, arms, hostname_flags,
  uname_flags, uptime_flags, id_flags, free_flags, df_flags, ls_flags, ss_flags, lines_values,
  ip_objects, ip_values, dmesg_flags, journalctl_flags, journalctl_values, systemctl_verbs,
  systemctl_flags, docker_ps_flags, docker_stats_flags, docker_logs_flags, docker_logs_values,
  kubectl_verbs, kubectl_flags, kubectl_values,
}

-- Words of characters that literals may contain.
abbrev IsCalm : Text → Type 0
IsCalm w = all is_literal_char w ≡ true

abbrev AreCalm : List Text → Type 0
AreCalm ws = all (all is_literal_char) ws ≡ true

literal-IsCalm : (w : Text) → literal w ≡ true → IsCalm w
unfolding literal
literal-IsCalm w h = ground arith

cons-AreCalm : (w : Text) (ws : List Text) → IsCalm w → AreCalm ws → AreCalm (w ∷ ws)
cons-AreCalm w ws h k = ground arith

all-literal-AreCalm : (ws : List Text) → all literal ws ≡ true → AreCalm ws
all-literal-AreCalm [] h = refl
all-literal-AreCalm (w ∷ ws) h = ground (arith, literal-IsCalm w, all-literal-AreCalm ws)

member-IsCalm : (ts : List Text) (w : Text) → AreCalm ts → contains ts w ≡ true → IsCalm w
member-IsCalm = contains-all is_literal_char

first_last : (a b c : Bool) → (a && b && c) ≡ true → (a ≡ true) × (c ≡ true)
first_last a b c h = (ground arith, ground arith)

last_two : (a b c : Bool) → (a && b && c) ≡ true → (b ≡ true) × (c ≡ true)
last_two a b c h = (ground arith, ground arith)

module _ (flags values : List Text) (positionals : Bool) (f : AreCalm flags)
    (v : AreCalm values) where
  options-AreCalm : (ws : List Text) → options flags values positionals ws ≡ true → AreCalm ws
  unfolding options
  options-AreCalm [] h = refl
  options-AreCalm (w ∷ []) h = ground (arith, literal-IsCalm w, member-IsCalm flags w f)
  options-AreCalm (w ∷ x ∷ ws) h = elim (Bool-cases (contains flags w)) [
    | inl e ↦
        let g : options flags values positionals (x ∷ ws) ≡ true = rw (e, options) at h in
        cons-AreCalm w (x ∷ ws) (member-IsCalm flags w f e) (options-AreCalm (x ∷ ws) g)
    | inr e ↦ elim (Bool-cases (contains values w)) [
      | inl d ↦
          let g : (literal x && not (asks_too_much w x) && options flags values positionals ws)
              ≡ true =
            rw (e, d, options) at h in
          let (lit, rest) = first_last (literal x) _ (options flags values positionals ws) g in
          cons-AreCalm w (x ∷ ws) (member-IsCalm values w v d)
            (cons-AreCalm x ws (literal-IsCalm x lit) (options-AreCalm ws rest))
      | inr d ↦
          let g : (positionals && literal w && options flags values positionals (x ∷ ws)) ≡ true =
            rw (e, d, options) at h in
          let (lit, rest) =
            last_two positionals (literal w) (options flags values positionals (x ∷ ws)) g in
          cons-AreCalm w (x ∷ ws) (literal-IsCalm w lit) (options-AreCalm (x ∷ ws) rest)
    ]
  ]

member_of :
    (ts : List Text) (w : Text) (ws : List Text)
    → AreCalm ts
    → contains ts w ≡ true
    → AreCalm ws
    → AreCalm (w ∷ ws)
member_of ts w ws h m k = cons-AreCalm w ws (member-IsCalm ts w h m) k

-- If in every arm the words are calm, and the arguments are where its test succeeds, the first arm
-- that lists the word accepts only calm words.
abbrev AreGuarded : List Text → List (List Text × Bool) → Type 0
AreGuarded a = All (λ arm. AreCalm arm.0 × (arm.1 ≡ true → AreCalm a))

infixr 5 ◌▸◌
◌▸◌ : {A B : Type 0} → A → B → A × B
a ▸ b = (a, b)

first_arm-AreCalm :
    (w : Text) (a : List Text) (rows : List (List Text × Bool))
    → AreGuarded a rows
    → first_arm w rows ≡ true
    → AreCalm (w ∷ a)
first_arm-AreCalm w a [] g h = cc
first_arm-AreCalm w a ((names, accepted) ∷ rows) (g, gs) h = elim (Bool-cases (contains names w)) [
  | inl e ↦ let k : accepted ≡ true = rw (e, first_arm) at h in member_of names w a g.0 e (g.1 k)
  | inr e ↦
      let k : first_arm w rows ≡ true = rw (e, first_arm) at h in first_arm-AreCalm w a rows gs k
]

ip_ok-AreCalm : (a : List Text) → ip_ok a ≡ true → AreCalm a
unfolding ip_ok is_literal_char is_ascii_alphanumeric has_char
ip_ok-AreCalm [] h = refl
ip_ok-AreCalm (w ∷ []) h = cc
ip_ok-AreCalm (w ∷ v ∷ ws) h =
    let (k, o) =
      &&_parts (contains ip_objects w && eq_text v (codes "show")) (options [] ip_values true ws)
        h in
    let (m, e) = &&_parts (contains ip_objects w) (eq_text v (codes "show")) k in
    member_of ip_objects w (v ∷ ws) refl m (
      cons-AreCalm v ws (eq_text-all_inv is_literal_char v (codes "show") refl e)
        (options-AreCalm [] ip_values true refl refl ws o))

systemctl_ok-AreCalm : (a : List Text) → systemctl_ok a ≡ true → AreCalm a
unfolding systemctl_ok is_literal_char is_ascii_alphanumeric has_char
systemctl_ok-AreCalm [] h = refl
systemctl_ok-AreCalm (w ∷ ws) h =
    let (m, o) = first_last (contains systemctl_verbs w) _ (options systemctl_flags [] true ws) h in
    member_of systemctl_verbs w ws refl m (options-AreCalm systemctl_flags [] true refl refl ws o)

docker_ok-AreCalm : (a : List Text) → docker_ok a ≡ true → AreCalm a
unfolding docker_ok is_literal_char is_ascii_alphanumeric has_char
docker_ok-AreCalm [] h = refl
docker_ok-AreCalm (w ∷ ws) h =
    first_arm-AreCalm w ws (docker_arms w ws)
      ((refl, options-AreCalm docker_ps_flags [] false refl refl ws)
        ▸ (
          refl,
          λ k.
              options-AreCalm docker_stats_flags [] true refl refl ws
                (&&_parts (contains (w ∷ ws) (codes "--no-stream"))
                  (options docker_stats_flags [] true ws) k).1,
        )
        ▸ (refl, options-AreCalm docker_logs_flags docker_logs_values true refl refl ws)
        ▸ (refl, options-AreCalm [] [] true refl refl ws)
        ▸ tt)
      h

kubectl_ok-AreCalm : (a : List Text) → kubectl_ok a ≡ true → AreCalm a
unfolding kubectl_ok is_literal_char is_ascii_alphanumeric has_char
kubectl_ok-AreCalm [] h = refl
kubectl_ok-AreCalm (w ∷ ws) h =
    let (k, f) =
      &&_parts (contains kubectl_verbs w && options kubectl_flags kubectl_values true ws)
        (formats_ok (w ∷ ws)) h in
    let (m, o) =
      &&_parts (contains kubectl_verbs w) (options kubectl_flags kubectl_values true ws) k in
    member_of kubectl_verbs w ws refl m
      (options-AreCalm kubectl_flags kubectl_values true refl refl ws o)

eq_words-AreCalm : (a ws : List Text) → AreCalm ws → eq_words a ws ≡ true → AreCalm a
eq_words-AreCalm [] ws h e = refl
eq_words-AreCalm (w ∷ a) [] h e = cc
eq_words-AreCalm (w ∷ a) (v ∷ ws) h e =
    let (x, y) = &&_parts (eq_text w v) (eq_words a ws) e in
    let (c, d) = &&_parts (all is_literal_char v) (all (all is_literal_char) ws) h in
    cons-AreCalm w a (eq_text-all_inv is_literal_char w v c x) (eq_words-AreCalm a ws d y)

is_empty-AreCalm : (a : List Text) → is_empty a ≡ true → AreCalm a
is_empty-AreCalm [] h = refl
is_empty-AreCalm (w ∷ a) h = cc

arms-AreGuarded : (a : List Text) → AreGuarded a (arms a)
unfolding is_literal_char is_ascii_alphanumeric has_char
arms-AreGuarded a =
    (refl, is_empty-AreCalm a)
    ▸ (refl, options-AreCalm hostname_flags [] false refl refl a)
    ▸ (refl, options-AreCalm uname_flags [] false refl refl a)
    ▸ (refl, options-AreCalm uptime_flags [] false refl refl a)
    ▸ (refl, options-AreCalm id_flags [] false refl refl a)
    ▸ (refl, options-AreCalm free_flags [] false refl refl a)
    ▸ (refl, options-AreCalm df_flags [] true refl refl a)
    ▸ (refl, options-AreCalm ls_flags [] true refl refl a)
    ▸ (
      refl,
      λ h. elim (||_parts (eq_words a (codes "aux" ∷ [])) (eq_words a (codes "-ef" ∷ [])) h) [
        | inl e ↦ eq_words-AreCalm a (codes "aux" ∷ []) refl e
        | inr e ↦ eq_words-AreCalm a (codes "-ef" ∷ []) refl e
      ],
    )
    ▸ (refl, options-AreCalm ss_flags [] false refl refl a)
    ▸ (refl, λ h. all-literal-AreCalm a (&&_parts (not (is_empty a)) (all literal a) h).1)
    ▸ (
      refl,
      λ h.
          options-AreCalm [] lines_values true refl refl a
            (&&_parts (not (is_empty a)) (options [] lines_values true a) h).1,
    )
    ▸ (refl, ip_ok-AreCalm a)
    ▸ (refl, options-AreCalm dmesg_flags [] false refl refl a)
    ▸ (
      refl,
      λ h.
          options-AreCalm journalctl_flags journalctl_values false refl refl a
            (&&_parts (contains a (codes "--no-pager"))
              (options journalctl_flags journalctl_values false a) h).1,
    )
    ▸ (refl, systemctl_ok-AreCalm a)
    ▸ (refl, docker_ok-AreCalm a)
    ▸ (refl, kubectl_ok-AreCalm a)
    ▸ tt

program_ok-AreCalm : (ws : List Text) → program_ok ws ≡ true → AreCalm ws
program_ok-AreCalm [] h = refl
program_ok-AreCalm (w ∷ a) h = first_arm-AreCalm w a (arms a) (arms-AreGuarded a) h

-- Every character of a command that the safe grammar accepts is a letter, a digit, one of
-- `_./:=,@%+-` or blank: no separator, quote, redirection, expansion or control of a shell.
pub safe_command-alphabet :
    (command : Text) → safe_command command ≡ true → all (or_blank is_literal_char) command ≡ true
unfolding safe_command
safe_command-alphabet command h =
    let words = split_ascii_whitespace command in
    split_ascii_whitespace-all is_literal_char command
      (program_ok-AreCalm words (&&_parts (leb (length words) 64) (program_ok words) h).1)
