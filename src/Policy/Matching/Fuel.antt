-- ===== src/Policy/Matching/Fuel.antt =====
-- coordination/policy.py: the recursion of `augment`, measured by the devices that are not yet visited.

use blackboard_coordination.Base.{
  ℕ, suc, zero, ◌+◌, ◌≤◌, ◌<◌, String, ◌≡◌, refl, Bool, true, false, ◌||◌, none, some, List, [],
  ◌∷◌, ◌++◌, member, length, arith, eq_iff, eq_refl, Bool-cases, Option-cases, inl, inr,
  if◌then◌else◌, ◌⊎◌,
}
use blackboard_coordination.Base.Dict.{lookup}
use blackboard_coordination.Policy.Matching.{
  Edge, Edges, Search, Answer, has_edge, edges_at, all_edges, assign, visit, take_over, try_edges,
  augment, match_slots, RoleSlot,
}

-- How many edges lead to a device that is not visited.
remaining : List Edge → List String → ℕ
remaining [] visited = 0
remaining ((d, b) ∷ es) visited = (if member d visited then 0 else 1) + remaining es visited

remaining-le-length : (es : List Edge) (visited : List String) → remaining es visited ≤ length es
unfolding remaining
remaining-le-length [] visited = omega arith
remaining-le-length ((d, b) ∷ es) visited = ground (arith, remaining-le-length es visited)

remaining_mono :
    (x : String) (es : List Edge) (visited : List String)
    → remaining es (x ∷ visited) ≤ remaining es visited
unfolding remaining
remaining_mono x [] visited = omega arith
remaining_mono x ((d, b) ∷ es) visited = ground (arith, remaining_mono x es visited)

-- A visit of a device that some edge leads to uses up an edge.
remaining_falls :
    (d b : String) (es : List Edge) (visited : List String)
    → has_edge (d, b) es ≡ true
    → member d visited ≡ false
    → remaining es (d ∷ visited) < remaining es visited
unfolding remaining
remaining_falls d b [] visited h new = cc
remaining_falls d b ((e, c) ∷ es) visited h new = ground (
  arith,
  eq_iff d e,
  eq_refl d,
  eq_iff e d,
  remaining_falls d b es visited,
  remaining_mono d es visited,
)

-- The call has an answer, which takes no device out of the visited.
abbrev Done : List Edge → Search → Answer → Type 0
Done E s a =
    (b : Bool) × (t : Search) × (a ≡ some (b, t)) × (remaining E t.visited ≤ remaining E s.visited)

abbrev Within : List Edge → List Edge → Type 0
Within es E = (e : Edge) → has_edge e es ≡ true → has_edge e E ≡ true

has_edge-head : (e : Edge) (es : List Edge) → has_edge e (e ∷ es) ≡ true
has_edge-head (d, b) es = ground (arith, eq_refl d, eq_refl b)

has_edge-tail : (e x : Edge) (es : List Edge) → has_edge e es ≡ true → has_edge e (x ∷ es) ≡ true
has_edge-tail e x es h = ground arith

Within-tail : (x : Edge) (es E : List Edge) → Within (x ∷ es) E → Within es E
Within-tail x es E w e h = w e (has_edge-tail e x es h)

module _ (E : List Edge) where
  Done-le :
      (s t : Search) (a : Answer)
      → remaining E t.visited ≤ remaining E s.visited
      → Done E t a
      → Done E s a
  Done-le s t a h (b, u, p, q) = (b, u, p, omega arith)

  take_over-Done :
      (slot_id : String) (e : Edge) (later : Search → Answer) (s : Search) (a : Answer)
      → ((t : Search) → remaining E t.visited ≤ remaining E s.visited → Done E t (later t))
      → Done E s a
      → Done E s (take_over slot_id e later a)
  unfolding take_over
  take_over-Done slot_id e later s a ends (true, t, p, q) = rw p (true, assign slot_id e t, refl, q)
  take_over-Done slot_id e later s a ends (false, t, p, q) =
      rw p (Done-le s t (later t) q (ends t q))

  module _ (call : String → Search → Answer) (fuel : ℕ)
      (answers : (slot_id : String) (s : Search)
        → remaining E s.visited < fuel
        → Done E s (call slot_id s)) where
    try_edges-Done :
        (slot_id : String) (es : List Edge) (s : Search)
        → Within es E
        → remaining E s.visited ≤ fuel
        → Done E s (try_edges call slot_id es s)
    unfolding try_edges
    try_edges-Done slot_id [] s w h = (false, s, refl, omega arith)
    try_edges-Done slot_id ((d, bid) ∷ es) s w h = elim (Bool-cases (member d s.visited)) [
      | inl old ↦ rw (old, try_edges) (try_edges-Done slot_id es s (Within-tail (d, bid) es E w) h)
      | inr new ↦
          rw (new, try_edges)
            (fresh (λ t q. try_edges-Done slot_id es t (Within-tail (d, bid) es E w) q)
              (remaining_falls d bid E s.visited (w (d, bid) (has_edge-head (d, bid) es)) new)
              (Option-cases (lookup d s.owners)))
    ]
      where
        Rest : Type 0
        Rest = (t : Search) → remaining E t.visited ≤ fuel → Done E t (try_edges call slot_id es t)

        fresh :
            Rest
            → remaining E (d ∷ s.visited) < remaining E s.visited
            → (lookup d s.owners ≡ none)
              ⊎ ((previous : String) × (lookup d s.owners ≡ some previous))
            → Done E s (elim (lookup d s.owners) [
              | none ↦ some (true, assign slot_id (d, bid) (visit d s))
              | some previous ↦
                  take_over slot_id (d, bid) (try_edges call slot_id es) (call previous (visit d s))
            ])
        fresh rest falls (inl free) =
            rw free (true, assign slot_id (d, bid) (visit d s), refl, omega arith)
        fresh rest falls (inr (previous, taken)) = rw taken (
            Done-le s (visit d s) _ (omega arith) (
              take_over-Done slot_id (d, bid) (try_edges call slot_id es) (visit d s)
                (call previous (visit d s)) (λ t q. rest t (omega arith))
                (answers previous (visit d s) (omega arith))))

has_edge-append :
    (e : Edge) (xs ys : List Edge) → has_edge e (xs ++ ys) ≡ (has_edge e xs || has_edge e ys)
has_edge-append e [] ys = refl
has_edge-append e (x ∷ xs) ys = ground (arith, has_edge-append e xs ys)

edges_at-Within :
    (slot_id : String) (edges : Edges) → Within (edges_at edges slot_id) (all_edges edges)
unfolding all_edges lookup
edges_at-Within slot_id [] e h = cc
edges_at-Within slot_id ((name, es) ∷ rest) e h =
    ground (arith, has_edge-append e es (all_edges rest), edges_at-Within slot_id rest e)

augment-Done :
    (fuel : ℕ) (edges : Edges) (slot_id : String) (s : Search)
    → remaining (all_edges edges) s.visited < fuel
    → Done (all_edges edges) s (augment fuel edges slot_id s)
unfolding augment
augment-Done zero edges slot_id s h = absurd (omega arith)
augment-Done (suc fuel) edges slot_id s h =
    try_edges-Done (all_edges edges) (augment fuel edges) fuel (augment-Done fuel edges) slot_id
      (edges_at edges slot_id) s (edges_at-Within slot_id edges) (omega arith)

-- With more fuel than edges, the loop over the slots has an answer.
pub match_slots_total :
    (fuel : ℕ) (edges : Edges) (slots : List RoleSlot) (s : Search)
    → length (all_edges edges) < fuel
    → (b : Bool) × (t : Search) × (match_slots fuel edges slots s ≡ some (b, t))
unfolding match_slots
match_slots_total fuel edges [] s h = (true, s, refl)
match_slots_total fuel edges (slot ∷ slots) s h =
    answered
      (augment-Done fuel edges slot.slot_id (record s { visited = [] })
        (omega (arith, remaining-le-length (all_edges edges) [])))
      (λ t. match_slots_total fuel edges slots t h)
  where
    answered :
        Done
          (all_edges edges)
          (record s { visited = [] })
          (augment fuel edges slot.slot_id (record s { visited = [] }))
        → ((t : Search)
            → (b : Bool) × (u : Search) × (match_slots fuel edges slots t ≡ some (b, u)))
        → (b : Bool) × (t : Search) × (match_slots fuel edges (slot ∷ slots) s ≡ some (b, t))
    answered (true, t, p, q) later = let (b, u, r) = later t in (b, u, rw (p, match_slots) r)
    answered (false, t, p, q) later = (false, t, rw (p, match_slots))
