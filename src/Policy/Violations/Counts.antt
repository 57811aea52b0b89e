-- ===== src/Policy/Violations/Counts.antt =====
-- coordination/policy.py: the shape checks of the validator, by counting ids.
use blackboard_coordination.Base.{
  ◌≤◌, ◌<◌, String, ◌≡◌, refl, Bool, true, false, not, List, [], ◌∷◌, ◌++◌, map, member, keep,
  arith, eq_iff, Bool-cases, inl, inr, ◌⊎◌,
}
use blackboard_coordination.Base.Dict.{sort_texts, member-sort_texts}
use blackboard_coordination.Policy.Data.{RoleSlot, CandidateAssignmentPlan}
use blackboard_coordination.Policy.Violations.{
  count, distinct, candidate_slots, candidate_devices, slot_ids, owner_counts, device_counts,
  shape_violations, on_slot,
}

pub member-count : (u : String) (xs : List String) → member u xs ≡ true → 0 < count u xs
unfolding count
member-count u [] h = cc
member-count u (x ∷ xs) h = ground (arith, member-count u xs, eq_iff u x, eq_iff x u)

pub count-member : (u : String) (xs : List String) → 0 < count u xs → member u xs ≡ true
unfolding count
count-member u [] h = absurd (omega arith)
count-member u (x ∷ xs) h = ground (arith, count-member u xs, eq_iff u x, eq_iff x u)

member-distinct : (u : String) (xs : List String) → member u (distinct xs) ≡ member u xs
unfolding distinct
member-distinct u [] = refl
member-distinct u (x ∷ xs) = ground (arith, member-distinct u xs, eq_iff u x)

owner_counts-nil :
    (slots xs : List String)
    → ((u : String) → member u xs ≡ true → count u slots ≡ 1)
    → owner_counts slots xs ≡ []
unfolding owner_counts
owner_counts-nil slots [] h = refl
owner_counts-nil slots (x ∷ xs) h =
    let once = h x (ground (arith, eq_iff x x)) in
    let rest = owner_counts-nil slots xs (λ u m. h u (ground arith)) in ground arith

device_counts-nil :
    (devices xs : List String)
    → ((d : String) → count d devices ≤ 1)
    → device_counts devices xs ≡ []
unfolding device_counts
device_counts-nil devices [] h = refl
device_counts-nil devices (x ∷ xs) h = ground (arith, h x, device_counts-nil devices xs h)

keep-none :
    (p : String → Bool) (xs : List String)
    → ((u : String) → member u xs ≡ true → p u ≡ false)
    → keep p xs ≡ []
keep-none p [] h = refl
keep-none p (x ∷ xs) h =
    let out = h x (ground (arith, eq_iff x x)) in
    let rest = keep-none p xs (λ u m. h u (ground arith)) in ground arith

pub shape_violations-nil :
    (c : CandidateAssignmentPlan) (slots : List RoleSlot)
    → ((u : String) → count u (candidate_slots c) ≡ count u (slot_ids slots))
    → ((u : String) → count u (slot_ids slots) ≤ 1)
    → ((d : String) → count d (candidate_devices c) ≤ 1)
    → shape_violations c slots ≡ []
unfolding shape_violations sort_texts
shape_violations-nil c slots same once devices =
    rw
      (
        owner_counts-nil (candidate_slots c) (sort_texts (distinct (slot_ids slots))) owners,
        keep-none (λ s. not (member s (distinct (slot_ids slots)))) (distinct (candidate_slots c))
            known,
      )
      (device_counts-nil (candidate_devices c) (sort_texts (distinct (candidate_devices c)))
        devices)
  where
    owners :
        (u : String)
        → member u (sort_texts (distinct (slot_ids slots))) ≡ true
        → count u (candidate_slots c) ≡ 1
    owners u m = omega (
      arith,
      same u,
      once u,
      member-count u (slot_ids slots) (
          rw (member-sort_texts u (distinct (slot_ids slots)), member-distinct u (slot_ids slots))
            at m),
    )

    known :
        (u : String)
        → member u (distinct (candidate_slots c)) ≡ true
        → not (member u (distinct (slot_ids slots))) ≡ false
    known u m =
        let owned =
          member-count u (candidate_slots c) (rw (member-distinct u (candidate_slots c)) at m) in
        let there = count-member u (slot_ids slots) (omega (arith, same u)) in
        rw (member-distinct u (slot_ids slots), there)

absent : (u : String) (xs : List String) → member u xs ≡ false → count u xs ≡ 0
unfolding count
absent u [] h = refl
absent u (x ∷ xs) h = ground (arith, absent u xs, eq_iff u x, eq_iff x u)

-- Conversely, what holds when the shape checks found nothing.
pub ++-nil {ℓ} : {A : Type ℓ} (xs ys : List A) → xs ++ ys ≡ [] → (xs ≡ []) × (ys ≡ [])
++-nil [] ys h = (refl, h)
++-nil (x ∷ xs) ys h = cc

sort_texts-nil : (xs : List String) → sort_texts xs ≡ [] → (u : String) → member u xs ≡ false
sort_texts-nil xs h u = rw (← member-sort_texts u xs, h)

owner_counts-once :
    (slots xs : List String) (u : String)
    → owner_counts slots xs ≡ []
    → member u xs ≡ true
    → count u slots ≡ 1
unfolding owner_counts
owner_counts-once slots [] u h m = cc
owner_counts-once slots (x ∷ xs) u h m = ground (arith, owner_counts-once slots xs u, eq_iff u x)

device_counts-once :
    (devices xs : List String) (u : String)
    → device_counts devices xs ≡ []
    → member u xs ≡ true
    → count u devices ≤ 1
unfolding device_counts
device_counts-once devices [] u h m = cc
device_counts-once devices (x ∷ xs) u h m =
    ground (arith, device_counts-once devices xs u, eq_iff u x)

map-nil {ℓ κ} : {A : Type ℓ} {B : Type κ} (f : A → B) (xs : List A) → map f xs ≡ [] → xs ≡ []
map-nil f [] h = refl
map-nil f (x ∷ xs) h = cc

keep-member :
    (p : String → Bool) (xs : List String) (u : String)
    → member u (keep p xs) ≡ false
    → member u xs ≡ true
    → p u ≡ false
keep-member p [] u h m = cc
keep-member p (x ∷ xs) u h m = ground (arith, keep-member p xs u, eq_iff u x)

pub record IsShaped (slots candidates devices : List String) : Type 0 where
  pub one_owner : (u : String) → member u slots ≡ true → count u candidates ≡ 1
  pub no_unknown : (u : String) → member u candidates ≡ true → member u slots ≡ true
  pub one_slot : (d : String) → count d devices ≤ 1

pub shape_violations-IsShaped :
    (c : CandidateAssignmentPlan) (slots : List RoleSlot)
    → shape_violations c slots ≡ []
    → IsShaped (slot_ids slots) (candidate_slots c) (candidate_devices c)
unfolding shape_violations
shape_violations-IsShaped c slots h =
    let known = distinct (slot_ids slots) in
    let strange = keep (λ s. not (member s known)) (distinct (candidate_slots c)) in
    let owner = owner_counts (candidate_slots c) (sort_texts known) in
    let unknown = map (on_slot "UNKNOWN_SLOT") (sort_texts strange) in
    let (slots_fit, devices) = ++-nil (owner ++ unknown) _ h in
    let (owners, none_strange) = ++-nil owner unknown slots_fit in
    record {
      one_owner = λ u m.
          owner_counts-once (candidate_slots c) (sort_texts known) u owners
            (rw (member-sort_texts u known, member-distinct u (slot_ids slots)) m);
      no_unknown = λ u m. known_slot u (
          keep-member (λ s. not (member s known)) (distinct (candidate_slots c)) u
            (sort_texts-nil strange
              (map-nil (on_slot "UNKNOWN_SLOT") (sort_texts strange) none_strange) u)
            (rw (member-distinct u (candidate_slots c)) m));
      one_slot = λ d. once_of d devices (Bool-cases (member d (candidate_devices c)));
    }
  where
    known_slot :
        (u : String)
        → not (member u (distinct (slot_ids slots))) ≡ false
        → member u (slot_ids slots) ≡ true
    known_slot u n = ground (arith, member-distinct u (slot_ids slots))

    once_of :
        (d : String)
        → device_counts (candidate_devices c) (sort_texts (distinct (candidate_devices c))) ≡ []
        → (member d (candidate_devices c) ≡ true) ⊎ (member d (candidate_devices c) ≡ false)
        → count d (candidate_devices c) ≤ 1
    once_of d devices (inl m) =
        device_counts-once (candidate_devices c) (sort_texts (distinct (candidate_devices c))) d
          devices
          (rw
            (
              member-sort_texts d (distinct (candidate_devices c)),
              member-distinct d (candidate_devices c),
            )
            m)
    once_of d devices (inr m) = omega (arith, absent d (candidate_devices c) m)
