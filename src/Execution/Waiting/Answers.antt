-- ===== src/Execution/Waiting/Answers.antt =====
-- What the bounded waits answer, and that they answer by their deadline.
use securecrt_mcp.Prelude.{
  ℕ, ◌+◌, ◌-◌, max, ◌≡◌, refl, sym, ap, ◌∙◌, Bool, true, false, not, ◌&&◌, ◌||◌, List, [], ◌∷◌,
  arith, leb, Bool-cases, Option-cases, inl, inr, Option, none, some, ok, is_some, any, ◌*◌, ◌⊎◌,
  &&_parts,
}
use securecrt_mcp.Text.{Text, slice_from}
use securecrt_mcp.Text.Utf8.{boundary-zero}
use securecrt_mcp.Assoc.{lookup}
use securecrt_mcp.Config.{within}
use securecrt_mcp.Execution.Job.{Job, active}
use securecrt_mcp.Execution.Output.{Page, page, page_at, output}
use securecrt_mcp.Execution.Waiting.{
  Look, Answer, answer, wait_loop, wait_turn, wait_result, read_turn, drain_turn,
}

-- A turn that answers once the deadline has passed.
module _ {ℓ} {A : Type ℓ} (turn : Look → Option A) (until : ℕ)
    (answers : (look : Look) → leb until look.now ≡ true → is_some (turn look) ≡ true) where
  wait_loop_ends :
      (looks : List Look)
      → any (λ look. leb until look.now) looks ≡ true
      → is_some (wait_loop turn looks) ≡ true
  unfolding wait_loop
  wait_loop_ends [] h = absurd (cc h)
  wait_loop_ends (look ∷ looks) h = ground (arith, answers look, wait_loop_ends looks)

wait_turn_late :
    (id : Text) (max_bytes until : ℕ) (look : Look)
    → leb until look.now ≡ true
    → is_some (wait_turn id max_bytes until look) ≡ true
unfolding wait_turn
wait_turn_late id max_bytes until look h = ground arith

read_turn_late :
    (id : Text) (cursor max_bytes : Option ℕ) (until : ℕ) (look : Look)
    → leb until look.now ≡ true
    → is_some (read_turn id cursor max_bytes until look) ≡ true
unfolding read_turn
read_turn_late id cursor max_bytes until look h = ground arith

drain_turn_late :
    (until : ℕ) (look : Look) → leb until look.now ≡ true → is_some (drain_turn until look) ≡ true
unfolding drain_turn
drain_turn_late until look h = ground arith

-- The wait for a result has answered at the latest with the first turn at or behind its deadline,
-- whatever other tasks do to the registry.
pub wait_result_answers :
    (id : Text) (wait_ms max_bytes start : ℕ) (looks : List Look)
    → any (λ look. leb (start + wait_ms * 1000) look.now) looks ≡ true
    → is_some (wait_result id wait_ms max_bytes start looks) ≡ true
unfolding wait_result
wait_result_answers id wait_ms max_bytes start looks h = ground (
  arith,
  wait_loop_ends (wait_turn id max_bytes (start + wait_ms * 1000)) (start + wait_ms * 1000)
      (wait_turn_late id max_bytes (start + wait_ms * 1000)) looks h,
)

-- Some element of the list has the property.
abbrev pub SomeOf {ℓ} : {A : Type ℓ} → (A → Type 0) → List A → Type 0
SomeOf P [] = ⊥
SomeOf P (x ∷ xs) = P x ⊎ SomeOf P xs

wait_loop_from :
    {A : Type 0} (turn : Look → Option A) (looks : List Look) (a : A)
    → wait_loop turn looks ≡ some a
    → SomeOf (λ look. turn look ≡ some a) looks
unfolding wait_loop
wait_loop_from turn [] a h = absurd (cc h)
wait_loop_from turn (look ∷ looks) a h = elim (Option-cases (turn look)) [
  | inl e ↦ inr (wait_loop_from turn looks a (ground (arith, e)))
  | inr (b, e) ↦ inl (ground (arith, e))
]

SomeOf-map {ℓ} :
    {A : Type ℓ} (P : A → Type 0) (Q : A → Type 0) (f : (x : A) → P x → Q x) (xs : List A)
    → SomeOf P xs
    → SomeOf Q xs
SomeOf-map P Q f [] h = h
SomeOf-map P Q f (x ∷ xs) (inl h) = inl (f x h)
SomeOf-map P Q f (x ∷ xs) (inr h) = inr (SomeOf-map P Q f xs h)

-- The answer is the first page that `output` gives of the job at that time, and the job was not active
-- then or the deadline had passed.
abbrev pub IsFirstPage : Text → ℕ → ℕ → Answer → Look → Type 0
IsFirstPage id max_bytes until a look =
    (p : Page) × ((output look.registry id none (some max_bytes) ≡ ok p)
      × (a.text ≡ p.text)
      × (a.cursor ≡ p.cursor)
      × (a.next_cursor ≡ p.next_cursor)
      × ((active p.state ≡ false) ⊎ (leb until look.now ≡ true)))

first_offset : (n : ℕ) → max n n - n ≡ 0
first_offset n = omega arith

page_first :
    (j : Job) (max_bytes : ℕ) → page j none max_bytes ≡ ok (page_at j j.output_start max_bytes 0)
unfolding page
page_first j max_bytes = rw (first_offset j.output_start, boundary-zero j.output) (ground arith)

slice_from-zero : (s : Text) → slice_from s 0 ≡ s
unfolding slice_from
slice_from-zero [] = refl
slice_from-zero (c ∷ s) = refl

answer_page :
    (now max_bytes : ℕ) (j : Job)
    → let a = answer now max_bytes j in
      let p = page_at j j.output_start max_bytes 0 in
      (a.text ≡ p.text) × (a.cursor ≡ p.cursor) × (a.next_cursor ≡ p.next_cursor)
unfolding answer page_at
answer_page now max_bytes j =
    let e = slice_from-zero j.output in rw e (refl, omega arith, ground arith)

late_or_done : (b c : Bool) → (not b || c) ≡ true → (b ≡ false) ⊎ (c ≡ true)
late_or_done true c h = inr h
late_or_done false c h = inl refl

answered_page :
    (id : Text) (max_bytes until : ℕ) (a : Answer) (look : Look)
    → within 4 65536 max_bytes ≡ true
    → wait_turn id max_bytes until look ≡ some (ok a)
    → IsFirstPage id max_bytes until a look
unfolding wait_turn output
answered_page id max_bytes until a look w h = elim (Option-cases (lookup id look.registry.jobs)) [
  | inl e ↦ absurd (ground (arith, e))
  | inr (j, e) ↦
      let p = page_at j j.output_start max_bytes 0 in
      let (text, cursor, next) = answer_page look.now max_bytes j in
      elim (Bool-cases (not (active j.state) || leb until look.now)) [
        | inl t ↦
            let same : answer look.now max_bytes j ≡ a = ground (arith, e, t) in
            let found : output look.registry id none (some max_bytes) ≡ ok p =
              rw (w, e) (page_first j max_bytes) in
            (
              p,
              (
                found,
                ap (λ (x : Answer). x.text) (sym same) ∙ text,
                ap (λ (x : Answer). x.cursor) (sym same) ∙ cursor,
                ap (λ (x : Answer). x.next_cursor) (sym same) ∙ next,
                late_or_done (active j.state) (leb until look.now) t,
              ),
            )
        | inr t ↦ absurd (ground (arith, e, t))
      ]
]

-- What the wait for a result answers, where it answers with a job, is the first page that `output`
-- gives at one of its turns, of a job that is not active then or at a turn behind the deadline.
pub wait_result-output :
    (id : Text) (wait_ms max_bytes start : ℕ) (looks : List Look) (a : Answer)
    → wait_result id wait_ms max_bytes start looks ≡ some (ok a)
    → SomeOf (IsFirstPage id max_bytes (start + wait_ms * 1000) a) looks
unfolding wait_result
wait_result-output id wait_ms max_bytes start looks a h =
    let until = start + wait_ms * 1000 in
    let turn = wait_turn id max_bytes until in
    elim (Bool-cases (leb wait_ms 60000 && within 4 65536 max_bytes)) [
      | inl e ↦
          let bounded : within 4 65536 max_bytes ≡ true =
            (&&_parts (leb wait_ms 60000) (within 4 65536 max_bytes) e).1 in
          SomeOf-map (λ look. turn look ≡ some (ok a)) (IsFirstPage id max_bytes until a)
            (λ look found. answered_page id max_bytes until a look bounded found) looks
            (wait_loop_from turn looks (ok a) (rw e at h))
      | inr e ↦ absurd (cc (rw e at h))
    ]
