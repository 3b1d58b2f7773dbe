-- ===== src/Proposals/Tests.antt =====
-- The theorems on suggestions at one suggestion with a decision and its claim.
use beepa.Prelude.{ℕ, zero, suc, String, [], ◌∷◌, refl}
use beepa.Js.{Value, str, num, whole, arr, obj, field, end, cons, nil}
use beepa.Matrix.Client.{Method, ok}
use beepa.Matrix.Actions.{Action}
use beepa.Proposals.Lifecycle.{proposal_history}
use beepa.Proposals.Lifecycle.Complete
use beepa.Proposals.Lifecycle.Complete.{Pages}

abbrev content : Value
content = obj (
    field "schema" (num (whole 1)) (
      field "proposal_event_id" (str "$p")
        (field "decision" (str "accepted") (field "send_state" (str "sent") end))))

abbrev decision : Value
decision = obj (
    field "type" (str "com.jkali.proposal_decision")
      (field "state_key" (str "$p") (field "sender" (str "@me:h") (field "content" content end))))

-- Two pages; the first names the second.
abbrev two_pages : Method → String → Action ℕ Value
two_pages method path zero =
    (1, ok (obj (field "chunk" (arr (cons decision nil)) (field "end" (str "t1") end))))
two_pages method path (suc n) = (2, ok (obj (field "chunk" (arr nil) end)))

abbrev encode : Value → String
encode (str s) = s
encode _ = ""

proposal_history-Pages_example : Pages two_pages encode "!r:h" (str "") 0 2 (decision ∷ [])
unfolding proposal_history
proposal_history-Pages_example =
    Complete.proposal_history-Pages two_pages encode "!r:h" 0 2 (decision ∷ []) refl
