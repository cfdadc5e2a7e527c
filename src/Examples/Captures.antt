-- ===== src/Examples/Captures.antt =====
-- Captures of concrete output.
use securecrt_mcp.Prelude.{ℕ, ◌≡◌, refl, true, List, [], ◌∷◌, ◌++◌, some}
use securecrt_mcp.Text.{Text, codes, strip_prefix}
use securecrt_mcp.Execution.Job.{Job}
use securecrt_mcp.Execution.Job.Retention.{
  RetainsSuffix, RetainsBounded, append_all, IsFresh, stream_retention, bounded_retention,
}
use securecrt_mcp.Execution.Params.{CaptureMode}
use securecrt_mcp.Execution.Registry.{new_job}
use securecrt_mcp.Execution.Marker.{
  MarkerParser, is_cr, new, feed, envelope, end_status, parse_status, digits, digits_from,
}
use securecrt_mcp.Execution.Marker.Reads.{Reads}
use securecrt_mcp.Execution.Marker.Roundtrip.{IsPlain, final_line, feed-printed}
use securecrt_mcp.Execution.Marker.Quoting.{
  eval_word-envelope, from_eval, after_eval, shell_word, outside,
}
use securecrt_mcp.Examples.Values.{list_files}

-- An é, of two bytes.
abbrev stream_job : Job
stream_job = new_job 0 (record list_files { mode = CaptureMode.stream }) (codes "a")

abbrev posix_job : Job
posix_job = new_job 0 list_files (codes "a")

abbrev two_chunks : List (ℕ × Text)
two_chunks = (1, codes "abcdef") ∷ (2, codes "ghi") ∷ []

stream-IsFresh : IsFresh stream_job
unfolding new_job
stream-IsFresh = record { empty = refl; at_start = refl }

posix-IsFresh : IsFresh posix_job
unfolding new_job
posix-IsFresh = record { empty = refl; at_start = refl }

stream_retention_example : RetainsSuffix 4 (append_all 4 stream_job two_chunks) (codes "abcdefghi")
stream_retention_example =
    stream_retention 4 stream_job two_chunks stream-IsFresh (unfold new_job in refl)

bounded_retention_example : RetainsBounded 4 (append_all 4 posix_job two_chunks) (codes "abcdefghi")
bounded_retention_example =
    bounded_retention 4 posix_job two_chunks posix-IsFresh (unfold new_job in refl)

abbrev parser : MarkerParser
parser = new (codes "B") (codes "E")

abbrev began : MarkerParser
began = record parser { started = true }

end-IsPlain : IsPlain (final_line (codes "E") (codes "0"))
unfolding is_cr
end-IsPlain = ((refl, (refl, (refl, tt))), (refl, (refl, (refl, tt))))

feed-printed_example :
    feed (new (codes "B") (codes "E")) (codes "\nB\nhi\nE 0\n")
    ≡ (record parser { started = true; done = true }, codes "hi\n", some 0)
unfolding new is_cr
feed-printed_example =
    feed-printed (codes "B") (codes "E") (codes "0") 0 end-IsPlain
      (unfold parse_status in unfold digits in unfold digits_from in refl) ((refl, tt), (refl, tt))
      (λ h. cc h) (codes "hi" ∷ [])
      (
        (
          ((refl, (refl, tt)), (refl, (refl, tt))),
          unfold end_status in unfold strip_prefix in refl,
        ),
        tt,
      )

eval_word-envelope_example :
    (envelope (codes "echo 'a'") (codes "B") (codes "E")
      ≡ codes "printf '\\n%s\\n' '"
        ++ (codes "B" ++ (codes "'; eval " ++ from_eval (codes "echo 'a'") (codes "E"))))
    × (shell_word outside (from_eval (codes "echo 'a'") (codes "E"))
        ≡ some (codes "echo 'a'", b';' ∷ after_eval (codes "E")))
eval_word-envelope_example = eval_word-envelope (codes "echo 'a'") (codes "B") (codes "E")
