-- ===== src/Safety/Services.antt =====
-- assets/emergence.py, coordination/conflict.py, access/capability_matcher.py: a candidate's life
-- cycle, the ranking of bids, and the match of capabilities.
use blackboard_coordination.Base.{
  String, Bool, true, false, not, ◌&&◌, Option, none, some, List, [], ◌∷◌, ◌++◌, member, keep, any,
  if◌then◌else◌,
}
use blackboard_coordination.Base.Dict.{sort_texts}
use blackboard_coordination.Python.Value.{Float, float_lt}

pub data CandidateState : Type 0 where
  candidate candidate_trial validated registered rejected canary rolled_back retired :
      CandidateState

-- `CandidateLifecycle._allowed`
unfoldable pub allowed : CandidateState → CandidateState → Bool
allowed candidate candidate_trial = true
allowed candidate rejected = true
allowed candidate_trial validated = true
allowed candidate_trial rejected = true
allowed validated registered = true
allowed registered canary = true
allowed registered retired = true
allowed canary registered = true
allowed canary rolled_back = true
allowed _ _ = false

-- `transition`: the new status, or the `ValueError` (`none`).
unfoldable pub transition : CandidateState → CandidateState → Option CandidateState
transition current target = if allowed current target then some target else none

-- The fields of `ParticipationDecision` that the ranking reads.
pub record Decision : Type 0 where
  pub device_id : String
  pub accept : Bool
  pub bid_score : Float

-- `max(accepts, key=...)`: the first of the best.
unfoldable pub best : Decision → List Decision → Decision
best d [] = d
best d (e ∷ es) = best (if float_lt d.bid_score e.bid_score then e else d) es

abbrev max_of : List Decision → Option Decision
max_of [] = none
max_of (d ∷ ds) = some (best d ds)

-- `ConflictService.rank_bids`
unfoldable pub rank_bids : List Decision → Option Decision
rank_bids decisions = max_of (keep (λ (d : Decision). d.accept) decisions)

pub record CapabilityRequirement : Type 0 where
  pub all_of : List String
  pub any_of : List (List String)

pub record CapabilityMatchResult : Type 0 where
  pub matched : Bool
  pub missing_capabilities : List String
  pub unsatisfied_any_of : List (List String)
  pub reason_codes : List String

abbrev is_nil {ℓ} : {A : Type ℓ} → List A → Bool
is_nil [] = true
is_nil (x ∷ xs) = false

unsatisfied : List String → List (List String) → List (List String)
unsatisfied capabilities [] = []
unsatisfied capabilities (group ∷ groups) =
    let rest = unsatisfied capabilities groups in
    if not (is_nil group) && not (any (λ c. member c capabilities) group)
    then sort_texts group ∷ rest
    else rest

-- `CapabilityMatcher.match`, of the card's capabilities; the sets are lists without repetition.
unfoldable pub match : List String → CapabilityRequirement → CapabilityMatchResult
unfolding unsatisfied
match capabilities requirement =
    let missing = sort_texts (keep (λ c. not (member c capabilities)) requirement.all_of) in
    let groups = unsatisfied capabilities requirement.any_of in
    let reasons =
      (if is_nil missing then [] else "REQUIRED_CAPABILITY_MISSING" ∷ [])
      ++ (if is_nil groups then [] else "ALTERNATIVE_CAPABILITY_MISSING" ∷ []) in
    record {
      matched = is_nil reasons;
      missing_capabilities = missing;
      unsatisfied_any_of = groups;
      reason_codes = reasons;
    }
