-- ===== src/Execution/Output.antt =====
-- `Engine::output` of src/execution.rs: one page of a job's output.
pub mod Pages
use securecrt_mcp.Prelude.{
  ℕ, zero, suc, ◌+◌, ◌-◌, ◌≤◌, ◌<◌, min, max, ◌≡◌, refl, sym, ap, ap₂, ◌∙◌, Bool, true, false, not,
  ◌&&◌, ◌||◌, List, [], ◌∷◌, ◌++◌, arith, ltb, leb, ◌==◌, if◌then◌else◌, Bool-cases, Option-cases,
  inl, inr, Option, none, some, All, append_assoc, append-nil, Result, ok, err, ◌>>=◌, ◌>>◌, ensure,
  context, is_some, unwrap_or, is_empty, all, any, ◌*◌, ◌≢◌, ◌⊎◌, ◌↔◌, subst,
}
use securecrt_mcp.Text.{Text, len, is_char_boundary, slice_to, slice_from}
use securecrt_mcp.Assoc.{lookup}
use securecrt_mcp.Config.{within}
use securecrt_mcp.Execution.Job.{State, Job, active, prefix_len}
use securecrt_mcp.Execution.Registry.{Registry}

pub data OutputError : Type 0 where
  invalid_max_bytes unknown_command invalid_cursor : OutputError

pub record Page : Type 0 where
  pub state : State
  pub text : Text
  pub cursor : ℕ
  pub next_cursor : Option ℕ
  pub gap : Bool
  pub dropped_bytes : ℕ
  pub retained_bytes : ℕ
  pub truncated : Bool
  pub may_be_incomplete : Bool

-- The page of at most `count` bytes from an offset of the retained output.
unfoldable pub page_at : Job → ℕ → ℕ → ℕ → Page
unfolding active prefix_len
page_at j requested count offset =
    let rest = slice_from j.output offset in
    let size = prefix_len rest count in
    record {
      state = j.state;
      text = slice_to rest size;
      cursor = offset + j.output_start;
      next_cursor =
          if ltb (offset + size) (len j.output) || active j.state
          then some (offset + size + j.output_start)
          else none;
      gap = ltb requested j.output_start;
      dropped_bytes = j.output_start - requested;
      retained_bytes = len j.output;
      truncated = j.truncated;
      may_be_incomplete = j.incomplete;
    }

-- The page of a job, behind the checks of the cursor.
unfoldable pub page : Job → Option ℕ → ℕ → Result OutputError Page
unfolding page_at
page j cursor count =
    let requested = unwrap_or cursor j.output_start in
    let offset = max requested j.output_start - j.output_start in
    if leb offset (len j.output) && is_char_boundary j.output offset
    then ok (page_at j requested count offset)
    else err invalid_cursor

unfoldable pub output : Registry → Text → Option ℕ → Option ℕ → Result OutputError Page
unfolding page
output r id cursor max_bytes = do
  ensure (within 4 65536 (unwrap_or max_bytes 16384)) invalid_max_bytes
  j ← context (lookup id r.jobs) unknown_command
  page j cursor (unwrap_or max_bytes 16384)
