-- ===== src/Execution/Marker/Cuts.antt =====
-- `MarkerParser::feed` of src/execution.rs on any sequence of chunks, against the text that they make.
use securecrt_mcp.Prelude.{ℕ, ◌≡◌, true, false, List, [], ◌∷◌, ◌++◌, Option, none, some}
use securecrt_mcp.Text.{Text}
use securecrt_mcp.Execution.Marker.{MarkerParser, feed}
use securecrt_mcp.Execution.Marker.Reads.{Reads}

-- The chunks one after the other, with all output and the first exit code.
unfoldable pub feed_all : MarkerParser → List Text → MarkerParser × Text × Option ℕ
unfolding feed
feed_all p [] = (p, [], none)
feed_all p (chunk ∷ chunks) =
    let (q, out, exit) = feed p chunk in
    let (r, more, last) = feed_all q chunks in
    (r, out ++ more, elim exit [ some code ↦ some code | none ↦ last ])

abbrev pub concat : List Text → Text
concat [] = []
concat (chunk ∷ chunks) = chunk ++ concat chunks

-- What a feed keeps for the next one: it is started, has its end marker, and is done with an exit.
abbrev GoesOn : Text → MarkerParser → Option ℕ → Type 0
GoesOn end q exit =
    (q.started ≡ true) × (q.end ≡ end) × (q.done ≡ elim exit [ none ↦ false | some _ ↦ true ])

-- What a feed comes to with the feeds behind it.
abbrev then_all :
    MarkerParser × Text × Option ℕ → MarkerParser × Text × Option ℕ → MarkerParser × Text × Option ℕ
then_all (q, out, exit) (r, more, last) =
    (r, out ++ more, elim exit [ some code ↦ some code | none ↦ last ])
