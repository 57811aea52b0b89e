-- ===== src/Policy/Matching/Plan.antt =====
-- coordination/policy.py: the edges of the matching against the bids, and the assignments that are read
-- off the search.

use blackboard_coordination.Base.{
  ◌≤◌, ◌<◌, String, ◌≡◌, refl, Bool, true, ◌&&◌, none, some, List, [], ◌∷◌, ◌==◌, map, any, All,
  Option, if◌then◌else◌, ◌⊎◌, inl, inr, arith, eq_iff, eq_refl, Bool-cases, false,
}
use blackboard_coordination.Base.Dict.{lookup, insert, lookup-insert}
use blackboard_coordination.Python.Result.{ok}
use blackboard_coordination.Policy.Data.{
  RoleSlot, BidRecord, CandidateAssignment, BidOffer, eligible,
}
use blackboard_coordination.Policy.Violations.{count, slot_ids}
use blackboard_coordination.Policy.Matching.{
  Edge, Edges, Search, accepts, accepted, insert_edge, sort_edges, edge_map, has_edge, edges_at,
  assignments_of, insert_slot, sort_slots, offer_for_slot,
}
use blackboard_coordination.Policy.Matching.Owners.{
  devices_of, has_pair, has_pair-lookup, invert-has_pair, invert-found,
}
use blackboard_coordination.Policy.Matching.Sound.{Good}

-- The offer is an acceptance of a device whose metrics are eligible.
abbrev pub is_taken : Option BidOffer → Bool
is_taken none = false
is_taken (some o) = if o.decision == "accept" then eligible o.metrics else false

-- A record of the bids stands behind an edge of the slot.
abbrev pub backs : String → Edge → BidRecord → Bool
backs slot_id (d, b) r =
    r.event_id == b && r.payload.device_id == d && is_taken (offer_for_slot r slot_id)

accepts-is_taken : (o : Option BidOffer) → accepts o ≡ true → is_taken o ≡ true
accepts-is_taken none h = cc
accepts-is_taken (some o) h = ground arith

accepted-backed :
    (slot_id : String) (e : Edge) (bids : List BidRecord)
    → has_edge e (accepted slot_id bids) ≡ true
    → any (backs slot_id e) bids ≡ true
unfolding accepted
accepted-backed slot_id e [] h = cc
accepted-backed slot_id (d, b) (r ∷ rs) h = ground (
  arith,
  accepted-backed slot_id (d, b) rs,
  accepts-is_taken (offer_for_slot r slot_id),
  eq_iff d r.payload.device_id,
  eq_iff b r.event_id,
  eq_refl d,
  eq_refl b,
)

has_edge-insert_edge :
    (e x : Edge) (es : List Edge) → has_edge e (insert_edge x es) ≡ has_edge e (x ∷ es)
unfolding insert_edge
has_edge-insert_edge e x [] = refl
has_edge-insert_edge e x (y ∷ es) = ground (arith, has_edge-insert_edge e x es)

has_edge-sort_edges :
    (e : Edge) (es : List Edge) → has_edge e (sort_edges es) ≡ true → has_edge e es ≡ true
unfolding sort_edges
has_edge-sort_edges e [] h = h
has_edge-sort_edges e (x ∷ es) h =
    ground (arith, has_edge-insert_edge e x (sort_edges es), has_edge-sort_edges e es)

-- The edges of every slot of a map come from accepted bids.
abbrev FromBids : List BidRecord → Edges → Type 0
FromBids bids m =
    (u : String) (e : Edge) → has_edge e (edges_at m u) ≡ true → any (backs u e) bids ≡ true

insert-FromBids :
    (bids : List BidRecord) (m : Edges) (slot_id : String)
    → FromBids bids m
    → FromBids bids (insert slot_id (sort_edges (accepted slot_id bids)) m)
insert-FromBids bids m slot_id from u e h = elim (Bool-cases (slot_id == u)) [
  | inl same ↦ rw (← (eq_iff slot_id u).0 same) (
      accepted-backed slot_id e bids (
        has_edge-sort_edges e (accepted slot_id bids)
          (rw (lookup-insert slot_id u (sort_edges (accepted slot_id bids)) m, same) at h)))
  | inr other ↦
      from u e (rw (lookup-insert slot_id u (sort_edges (accepted slot_id bids)) m, other) at h)
]

edge_map-FromBids :
    (bids : List BidRecord) (m : Edges) (slots : List RoleSlot)
    → FromBids bids m
    → FromBids bids (edge_map bids m slots)
unfolding edge_map
edge_map-FromBids bids m [] from = from
edge_map-FromBids bids m (s ∷ ss) from =
    edge_map-FromBids bids (insert s.slot_id (sort_edges (accepted s.slot_id bids)) m) ss
      (insert-FromBids bids m s.slot_id from)

pub edges-FromBids :
    (bids : List BidRecord) (slots : List RoleSlot) → FromBids bids (edge_map bids [] slots)
unfolding lookup
edges-FromBids bids slots = edge_map-FromBids bids [] slots (λ u e h. cc)

count-insert_slot :
    (u : String) (a : RoleSlot) (slots : List RoleSlot)
    → count u (slot_ids (insert_slot a slots)) ≡ count u (slot_ids (a ∷ slots))
unfolding insert_slot count
count-insert_slot u a [] = refl
count-insert_slot u a (b ∷ slots) = ground (arith, count-insert_slot u a slots)

pub count-sort_slots :
    (u : String) (slots : List RoleSlot)
    → count u (slot_ids (sort_slots slots)) ≡ count u (slot_ids slots)
unfolding sort_slots count
count-sort_slots u [] = refl
count-sort_slots u (a ∷ slots) =
    ground (arith, count-insert_slot u a (sort_slots slots), count-sort_slots u slots)

-- An assignment of a device to the slot that it owns, by an edge of the slot.
abbrev pub Fits : Edges → Search → CandidateAssignment → Type 0
Fits edges s a =
    (lookup a.device_id s.owners ≡ some a.slot_id)
    × (has_edge (a.device_id, a.supporting_bid_event_id) (edges_at edges a.slot_id) ≡ true)

abbrev pub a_slot : CandidateAssignment → String
a_slot a = a.slot_id

abbrev pub a_device : CandidateAssignment → String
a_device a = a.device_id

-- A device has no more assignments than its slot.
pub count-devices :
    (edges : Edges) (s : Search) (d u : String) (rest : List CandidateAssignment)
    → All (Fits edges s) rest
    → lookup d s.owners ≡ some u
    → count d (map a_device rest) ≤ count u (map a_slot rest)
unfolding count
count-devices edges s d u [] f h = omega arith
count-devices edges s d u (a ∷ rest) (fits, f) h =
    ground (arith, count-devices edges s d u rest f h, eq_iff a.device_id d, eq_iff a.slot_id u)

pub count-devices_none :
    (edges : Edges) (s : Search) (d : String) (rest : List CandidateAssignment)
    → All (Fits edges s) rest
    → lookup d s.owners ≡ none
    → count d (map a_device rest) ≡ 0
unfolding count
count-devices_none edges s d [] f h = omega arith
count-devices_none edges s d (a ∷ rest) (fits, f) h =
    ground (arith, count-devices_none edges s d rest f h, eq_iff a.device_id d)

pub lookup_nil : (key d : String) → lookup {V = String} key [] ≡ some d → ⊥
unfolding lookup
lookup_nil key d h = cc

-- The assignments that are read off the matching.
pub record Assigned (edges : Edges) (s : Search) (slots : List RoleSlot) : Type 0 where
  pub assignments : List CandidateAssignment
  pub returned : assignments_of s slots ≡ ok assignments
  pub of_slots : map a_slot assignments ≡ slot_ids slots
  pub fit : All (Fits edges s) assignments

pub assignments_of-Assigned :
    (edges : Edges) (s : Search) (slots : List RoleSlot)
    → Good edges s
    → ((u : String) → 0 < count u (slot_ids slots) → 0 < devices_of u s.owners)
    → Assigned edges s slots
unfolding assignments_of count
assignments_of-Assigned edges s [] g h = record {
  assignments = [];
  returned = refl;
  of_slots = refl;
  fit = tt;
}
assignments_of-Assigned edges s (slot ∷ slots) g h =
    let (d, found) =
      invert-found slot.slot_id [] s.owners
        (inr (h slot.slot_id (ground (arith, eq_refl slot.slot_id)))) in
    let mine =
      has_pair-lookup d slot.slot_id s.owners g.distinct_keys
        (paired d (invert-has_pair slot.slot_id d [] s.owners found)) in
    let b = g.backed d slot.slot_id mine in
    let rest = assignments_of-Assigned edges s slots g (λ u m. h u (ground arith)) in
    let first : CandidateAssignment = record {
      slot_id = slot.slot_id;
      device_id = d;
      supporting_bid_event_id = b.bid;
    } in
    record {
      assignments = first ∷ rest.assignments;
      returned = rw (found, b.chosen_bid, rest.returned);
      of_slots = ground (arith, rest.of_slots);
      fit = ((mine, b.edge), rest.fit);
    }
  where
    paired :
        (d : String)
        → (has_pair d slot.slot_id s.owners ≡ true) ⊎ (lookup slot.slot_id [] ≡ some d)
        → has_pair d slot.slot_id s.owners ≡ true
    paired d (inl there) = there
    paired d (inr found) = absurd (lookup_nil slot.slot_id d found)
