-- ===== src/Enforce/Ladder.antt =====
-- crates/topgent-enforce/src/ladder.rs, `decide_response`: what a requested response comes to.
use topgent.Base.{◌≡◌, ◌↔◌, ◌⊎◌, arith, Bool, true, Option, none, some, if◌then◌else◌}
use topgent.Policy.{ResponseMode}

pub record EnforcementCapability : Type 0 where
  pub can_intercept : Bool
  pub can_terminate : Bool

pub data ApprovalState : Type 0 where
  pending approved denied expired : ApprovalState

pub data DecisionOutcome : Type 0 where
  no_action observed alert awaiting_approval allowed blocked terminate capability_mismatch :
      DecisionOutcome

-- The answer of the person, where the action can be held back, and where it is a kill.
unfoldable pub approval_outcome : Option ApprovalState → DecisionOutcome
approval_outcome none = awaiting_approval
approval_outcome (some pending) = awaiting_approval
approval_outcome (some approved) = allowed
approval_outcome (some denied) = blocked
approval_outcome (some expired) = blocked

unfoldable pub kill_outcome : Option ApprovalState → DecisionOutcome
kill_outcome none = awaiting_approval
kill_outcome (some pending) = awaiting_approval
kill_outcome (some approved) = terminate
kill_outcome (some denied) = no_action
kill_outcome (some expired) = no_action

unfoldable pub decide_mode :
    ResponseMode → EnforcementCapability → Option ApprovalState → DecisionOutcome
decide_mode ResponseMode.observe capability answer = observed
decide_mode ResponseMode.alert capability answer = DecisionOutcome.alert
decide_mode ResponseMode.approval capability answer =
    if capability.can_intercept then approval_outcome answer else capability_mismatch
decide_mode ResponseMode.block capability answer =
    if capability.can_intercept then blocked else capability_mismatch
decide_mode ResponseMode.kill capability answer =
    if capability.can_terminate then kill_outcome answer else capability_mismatch

unfoldable pub decide_response :
    Bool → ResponseMode → EnforcementCapability → Option ApprovalState → DecisionOutcome
decide_response matched mode capability answer =
    if matched then decide_mode mode capability answer else no_action

-- A termination is offered exactly for a matched kill rule, a host that can terminate, and a person
-- who approved; an alert is raised exactly for a matched alert rule; and an action is blocked
-- exactly where the host can intercept and a matched rule blocks, or asked and was not allowed.
pub decide_response_exact :
    (matched : Bool) (mode : ResponseMode) (capability : EnforcementCapability)
    (answer : Option ApprovalState)
    → ((decide_response matched mode capability answer ≡ terminate) ↔ (
        (matched ≡ true)
        × (mode ≡ ResponseMode.kill)
        × (capability.can_terminate ≡ true)
        × (answer ≡ some approved)))
      × ((decide_response matched mode capability answer ≡ DecisionOutcome.alert)
          ↔ ((matched ≡ true) × (mode ≡ ResponseMode.alert)))
      × ((decide_response matched mode capability answer ≡ blocked) ↔ (
          (matched ≡ true)
          × (capability.can_intercept ≡ true)
          × ((mode ≡ ResponseMode.block)
              ⊎ ((mode ≡ ResponseMode.approval)
                  × ((answer ≡ some denied) ⊎ (answer ≡ some expired))))))
unfolding decide_response decide_mode approval_outcome kill_outcome
decide_response_exact matched mode capability answer = ground arith
