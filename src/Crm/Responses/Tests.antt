-- ===== src/Crm/Responses/Tests.antt =====
-- Runs of `attributeResponses` of shared/model/crm.js.
use beepa.Prelude.{ℕ, String, true, false, List, [], ◌∷◌, All, length, ◌≡◌, refl}
use beepa.Js.{Value, bool, str, num, whole}
use beepa.Crm.Checked.{Checked, fine, refused, ◌>>=◌, ◌>>◌, need}
use beepa.Crm.Tests.{host, object}
use beepa.Crm.Responses.{Attribution, attribute_responses, counts}
use beepa.Crm.Responses.Incomplete
use beepa.Crm.Responses.Incomplete.{IsKept}
use beepa.Crm.Responses.Answered
use beepa.Crm.Responses.Answered.{Attributed}

abbrev message : String → ℕ → String → List (String × Value) → Value
message id place direction more = object (
    ("trusted", bool true)
    ∷ ("owner_mxid", str "@a:h")
    ∷ ("generation", str "g")
    ∷ ("conversation_id", str "c")
    ∷ ("kind", str "text")
    ∷ ("source_id", str id)
    ∷ ("source_order", num (whole place))
    ∷ ("source_ts", num (whole place))
    ∷ ("direction", str direction)
    ∷ more)

-- An outreach and its answer, in the order in which they arrived.
abbrev ledger : List Value
ledger =
    message "s2" 2 "incoming" []
    ∷ message "s1" 1 "outgoing" (("confirmed", bool true) ∷ ("outreach", bool true) ∷ [])
    ∷ []

abbrev attribution : Checked Attribution → Attribution
attribution (fine a) = a
attribution (refused code) = record {
  links = [];
  pending = [];
  corrections = [];
  reconciling_scopes = [];
}

abbrev answered : Attribution
answered = attribution (attribute_responses host ledger [] true)

-- The same ledger, before all of it has arrived.
abbrev retained : Attribution
retained = attribution (attribute_responses host [] answered.links false)

attribute_responses-Attributed_example : All (Attributed host ledger []) answered.links
unfolding attribute_responses counts ◌>>=◌ ◌>>◌ need
attribute_responses-Attributed_example =
    Answered.attribute_responses-Attributed host ledger [] true answered refl

attribute_responses-IsKept_example : All (IsKept answered.links) retained.links
unfolding attribute_responses counts ◌>>=◌ ◌>>◌ need
attribute_responses-IsKept_example =
    Incomplete.attribute_responses-IsKept host [] answered.links retained refl

answered_once : length answered.links ≡ 1
unfolding attribute_responses counts ◌>>=◌ ◌>>◌ need
answered_once = refl

retained_once : length retained.links ≡ 1
unfolding attribute_responses counts ◌>>=◌ ◌>>◌ need
retained_once = refl
