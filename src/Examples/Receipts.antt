-- ===== src/Examples/Receipts.antt =====
-- Requests to the manager of OpenSSH commands.
use securecrt_mcp.Prelude.{◌≤◌, false, [], ◌∷◌, some, ok}
use securecrt_mcp.Text.{codes}
use securecrt_mcp.Assoc.{size}
use securecrt_mcp.Connector.Manager.{Request, reservation, initial, run}
use securecrt_mcp.Connector.Manager.Ledger.{AllDistinct, run-AllDistinct}

abbrev request : Request
request = record {
  operation_id = codes "o";
  fingerprint = codes "f";
  command_id = codes "c";
  interlock = some false;
  guard = ok tt;
}

run-AllDistinct_example :
    AllDistinct (run initial (reservation request ∷ reservation request ∷ [])).dispatched
    × (size (run initial (reservation request ∷ reservation request ∷ [])).operations ≤ 4096)
    × (size (run initial (reservation request ∷ reservation request ∷ [])).commands ≤ 32)
run-AllDistinct_example = run-AllDistinct (reservation request ∷ reservation request ∷ [])
