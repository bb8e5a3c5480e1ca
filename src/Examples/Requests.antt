-- ===== src/Examples/Requests.antt =====
-- Runs of internal/approvals: a proposal of ana that ben approves.
use argus.Base.{
  ◌≤◌, arith, ℕ, ◌+◌, ◌≡◌, refl, false, true, Option, none, some, [], ◌∷◌, str_eq, codes,
  trim_space, equal_fold,
}
use argus.Base.Result.{ok, err}
use argus.Remediation.States.{awaiting_approval}
use argus.Approvals.{
  is_pending, request_expired, RequestStatus, Request, Event, Database, find_request, update_where,
  count_where,
}
use argus.Approvals.Store.{
  decide, decide_tx, write_audit, write_audits, verdict, decided_events, set_decision, has_key,
}
use argus.Approvals.Service.{
  Service, Proposal, new_request, normalize_decision, validate_decision, validate_separation,
  decide_request,
}
use argus.Approvals.Rows.{Keyed}
use argus.Approvals.Late.{decide-expired}
use argus.Approvals.Final.{HasStatus, Follows}
use argus.Approvals.Steps.{Run, stay, then_step, decided, Run-Follows}
use argus.Approvals.Verdict.{IsDecided, decide_request-IsDecided}

-- A ledger that counts its entries.
abbrev counting : Event → ℕ → Option ℕ
counting event n = some (n + 1)

abbrev service : Service
service = record { timeout = 900; escalate_after = 450; allow_self = false; transport = "disabled" }

abbrev proposal : Proposal
proposal = record {
  remediation_id = "rem1";
  incident_id = "inc1";
  action_type = "reload_nginx";
  target = "edge";
  parameters = [];
  risk = "medium";
  proposed_by = "ana";
}

abbrev request : Request
request = new_request service "apr1" proposal 100

abbrev database : Database ℕ
database = record {
  requests = request ∷ [];
  remediations = record { id = "rem1"; status = awaiting_approval; approved_by = none } ∷ [];
  ledger = 0;
}

abbrev result : Request
result = set_decision RequestStatus.approved 200 "ben" "looks right" "api" request

approves :
    (decide_request counting service "apr1" "ben" "user" " Approve" "looks right" "api" 200
      database).1
    ≡ ok result
unfolding decide_request normalize_decision validate_decision validate_separation find_request
    decide decide_tx write_audit write_audits verdict decided_events update_where count_where
    new_request trim_space equal_fold codes str_eq
approves = refl

database-Keyed : Keyed database.requests
unfolding has_key
database-Keyed = (refl, tt)

decide_request-IsDecided_example :
    (r : Request) × (find_request "apr1" database.requests ≡ some r)
    × IsDecided counting service r "ben"
        (normalize_decision " Approve")
        (trim_space "looks right")
        "api"
        200
        database
        (decide_request counting service "apr1" "ben" "user" " Approve" "looks right" "api" 200
          database).0
decide_request-IsDecided_example =
    decide_request-IsDecided counting service "apr1" "ben" "user" " Approve" "looks right" "api" 200
      database result approves

abbrev approving :
    Run counting database
      (decide_request counting service "apr1" "ben" "user" "approve" "ok" "api" 200 database).0
approving = then_step stay (decided service "apr1" "ben" "user" "approve" "ok" "api" 200)

Run-Follows_example :
    Follows database
      (decide_request counting service "apr1" "ben" "user" "approve" "ok" "api" 200 database).0
Run-Follows_example = Run-Follows counting database _ database-Keyed approving

counting_goes : (e : Event) (l : ℕ) → (l' : ℕ) × (counting e l ≡ some l')
counting_goes e l = (l + 1, refl)

request_found : find_request "apr1" database.requests ≡ some request
unfolding find_request new_request str_eq
request_found = refl

request_waits : is_pending request.status ≡ true
unfolding new_request
request_waits = refl

request_is_over : request.expires_at ≤ 1000
unfolding new_request
request_is_over = omega arith

decide-expired_example :
    ((decide counting "apr1" "ben" "user" "approve" "ok" "api" 1000 database).1
      ≡ err request_expired)
    × HasStatus "apr1" RequestStatus.expired
        (decide counting "apr1" "ben" "user" "approve" "ok" "api" 1000 database).0.requests
decide-expired_example =
    decide-expired counting counting_goes "apr1" "ben" "user" "approve" "ok" "api" 1000 database
      request request_found request_waits request_is_over
