-- ===== src/Policy/Matching/Sound.antt =====
-- coordination/policy.py: the owners and the chosen bids over a call of `augment`.
use mathlib.Core.Path.{subst}
use blackboard_coordination.Policy.Violations.{count, slot_ids}
use blackboard_coordination.Base.{
  ℕ, suc, zero, ◌+◌, String, ◌≡◌, refl, Bool, true, false, ◌&&◌, none, some, List, [], ◌∷◌, ◌==◌,
  member, ◌⊎◌, inl, inr, arith, eq_iff, eq_refl, if◌then◌else◌, Bool-cases, Option-cases,
}
use blackboard_coordination.Base.Dict.{lookup, insert, lookup-insert}
use blackboard_coordination.Policy.Matching.{
  Edge, Edges, Search, Answer, has_edge, edges_at, chosen_at, assign, visit, take_over, try_edges,
  augment, match_slots, RoleSlot,
}
use blackboard_coordination.Policy.Matching.Owners.{
  devices_of, devices_of-insert, KeysDistinct, insert-KeysDistinct,
}

module _ (edges : Edges) where
  -- The bid of a pair of the matching is an edge of its slot.
  pub record HasBid (chosen : List ((String × String) × String)) (d u : String) : Type 0 where
    pub bid : String
    pub chosen_bid : chosen_at u d chosen ≡ some bid
    pub edge : has_edge (d, bid) (edges_at edges u) ≡ true

  pub record Good (s : Search) : Type 0 where
    pub distinct_keys : KeysDistinct s.owners
    pub backed : (d u : String) → lookup d s.owners ≡ some u → HasBid s.chosen d u

  -- A further choice keeps the bids of the other pairs.
  HasBid-cons :
      (slot_id d b : String) (chosen : List ((String × String) × String)) (d' u : String)
      → (slot_id == u && d == d') ≡ false
      → HasBid chosen d' u
      → HasBid (((slot_id, d), b) ∷ chosen) d' u
  unfolding chosen_at
  HasBid-cons slot_id d b chosen d' u other h = record {
    bid = h.bid;
    chosen_bid = rw (other, chosen_at) h.chosen_bid;
    edge = h.edge;
  }

  HasBid-head :
      (slot_id d b : String) (chosen : List ((String × String) × String)) (d' u : String)
      → has_edge (d, b) (edges_at edges slot_id) ≡ true
      → (slot_id == u && d == d') ≡ true
      → HasBid (((slot_id, d), b) ∷ chosen) d' u
  unfolding chosen_at
  HasBid-head slot_id d b chosen d' u e same = record {
    bid = b;
    chosen_bid = rw (same, chosen_at);
    edge = ground (arith, eq_iff slot_id u, eq_iff d d');
  }

  assign-Good :
      (slot_id d b : String) (s : Search)
      → has_edge (d, b) (edges_at edges slot_id) ≡ true
      → Good s
      → Good (assign slot_id (d, b) s)
  assign-Good slot_id d b s e g = record {
    distinct_keys = insert-KeysDistinct d slot_id s.owners g.distinct_keys;
    backed = λ d' u h. backed_by d' u h (Bool-cases (slot_id == u && d == d'));
  }
    where
      backed_by :
          (d' u : String)
          → lookup d' (insert d slot_id s.owners) ≡ some u
          → ((slot_id == u && d == d') ≡ true) ⊎ ((slot_id == u && d == d') ≡ false)
          → HasBid (((slot_id, d), b) ∷ s.chosen) d' u
      backed_by d' u h (inl same) = HasBid-head slot_id d b s.chosen d' u e same
      backed_by d' u h (inr other) =
          HasBid-cons slot_id d b s.chosen d' u other
            (g.backed d' u (ground (arith, lookup-insert d d' slot_id s.owners, eq_iff slot_id u)))

  -- A call on `slot_id` has taken `s` to `t`, and answered `b`.
  pub record Extends (slot_id : String) (s : Search) (b : Bool) (t : Search) : Type 0 where
    pub counts :
        (u : String)
        → devices_of u t.owners ≡ devices_of u s.owners + (if b && slot_id == u then 1 else 0)
    pub settled : (d : String) → member d s.visited ≡ true → lookup d t.owners ≡ lookup d s.owners
    pub kept : (d : String) → member d s.visited ≡ true → member d t.visited ≡ true
    pub good : Good s → Good t

  -- Of an answer.
  abbrev pub Extended : String → Search → Answer → Type 0
  Extended slot_id s none = Unit {0}
  Extended slot_id s (some (b, t)) = Extends slot_id s b t

  abbrev Fresh : String → Search → Type 0
  Fresh d s = member d s.visited ≡ false

  assign-Extends :
      (slot_id d bid : String) (s : Search)
      → Fresh d s
      → has_edge (d, bid) (edges_at edges slot_id) ≡ true
      → lookup d s.owners ≡ none
      → Extends slot_id s true (assign slot_id (d, bid) (visit d s))
  assign-Extends slot_id d bid s new e free = record {
    counts = λ u. ground (arith, devices_of-insert u d slot_id s.owners);
    settled = λ d' h. ground (arith, lookup-insert d d' slot_id s.owners, eq_iff d d');
    kept = λ d' h. ground arith;
    good = λ g.
        assign-Good slot_id d bid (visit d s) e
          (record { distinct_keys = g.distinct_keys; backed = g.backed });
  }

  -- The device is taken over from an earlier owner, which has found another.
  take_over-Extends :
      (slot_id d bid previous : String) (s t : Search)
      → Fresh d s
      → has_edge (d, bid) (edges_at edges slot_id) ≡ true
      → lookup d s.owners ≡ some previous
      → Extends previous (visit d s) true t
      → Extends slot_id s true (assign slot_id (d, bid) t)
  take_over-Extends slot_id d bid previous s t new e taken x = record {
    counts = λ u. ground (
      arith,
      devices_of-insert u d slot_id t.owners,
      x.counts u,
      x.settled d,
      eq_refl d,
      eq_iff previous u,
    );
    settled =
        λ d' h. ground (arith, lookup-insert d d' slot_id t.owners, eq_iff d d', x.settled d');
    kept = λ d' h. ground (arith, x.kept d');
    good = λ g.
        assign-Good slot_id d bid t e
          (x.good (record { distinct_keys = g.distinct_keys; backed = g.backed }));
  }

  -- The loop goes on after a call that found nothing.
  Extended-after :
      (slot_id d previous : String) (s t : Search) (a : Answer)
      → Extends previous (visit d s) false t
      → Extended slot_id t a
      → Extended slot_id s a
  Extended-after slot_id d previous s t none x y = tt
  Extended-after slot_id d previous s t (some (b, w)) x y = record {
    counts = λ u. ground (arith, y.counts u, x.counts u);
    settled = λ d' h. ground (arith, y.settled d', x.settled d', x.kept d');
    kept = λ d' h. ground (arith, y.kept d', x.kept d');
    good = λ g. y.good (x.good (record { distinct_keys = g.distinct_keys; backed = g.backed }));
  }

  abbrev Within : String → List Edge → Type 0
  Within slot_id es = (e : Edge) → has_edge e es ≡ true → has_edge e (edges_at edges slot_id) ≡ true

  Within-tail :
      (slot_id : String) (x : Edge) (es : List Edge) → Within slot_id (x ∷ es) → Within slot_id es
  Within-tail slot_id x es w e h = w e (ground arith)

  has_edge-head : (d b : String) (es : List Edge) → has_edge (d, b) ((d, b) ∷ es) ≡ true
  has_edge-head d b es = ground (arith, eq_refl d, eq_refl b)

  module _ (call : String → Search → Answer)
      (calls : (slot_id : String) (s : Search) → Extended slot_id s (call slot_id s)) where
    -- The answer of the call on an earlier owner, and what is done with it.
    take_over-Extended :
        (slot_id d bid previous : String) (es : List Edge) (s : Search) (a : Answer)
        → Fresh d s
        → has_edge (d, bid) (edges_at edges slot_id) ≡ true
        → lookup d s.owners ≡ some previous
        → ((t : Search) → Extended slot_id t (try_edges call slot_id es t))
        → Extended previous (visit d s) a
        → Extended slot_id s (take_over slot_id (d, bid) (try_edges call slot_id es) a)
    unfolding take_over
    take_over-Extended slot_id d bid previous es s none new e taken later x = tt
    take_over-Extended slot_id d bid previous es s (some (true, t)) new e taken later x =
        take_over-Extends slot_id d bid previous s t new e taken x
    take_over-Extended slot_id d bid previous es s (some (false, t)) new e taken later x =
        Extended-after slot_id d previous s t (try_edges call slot_id es t) x (later t)

    try_edges-Extended :
        (slot_id : String) (es : List Edge) (s : Search)
        → Within slot_id es
        → Extended slot_id s (try_edges call slot_id es s)
    unfolding try_edges
    try_edges-Extended slot_id [] s w = record {
      counts = λ u. omega arith;
      settled = λ d h. refl;
      kept = λ d h. h;
      good = λ g. g;
    }
    try_edges-Extended slot_id ((d, bid) ∷ es) s w = elim (Bool-cases (member d s.visited)) [
      | inl old ↦
          rw (old, try_edges) (try_edges-Extended slot_id es s (Within-tail slot_id (d, bid) es w))
      | inr new ↦
          rw (new, try_edges)
            (fresh (w (d, bid) (has_edge-head d bid es)) new
              (λ t. try_edges-Extended slot_id es t (Within-tail slot_id (d, bid) es w))
              (Option-cases (lookup d s.owners)))
    ]
      where
        fresh :
            has_edge (d, bid) (edges_at edges slot_id) ≡ true
            → member d s.visited ≡ false
            → ((t : Search) → Extended slot_id t (try_edges call slot_id es t))
            → (lookup d s.owners ≡ none)
              ⊎ ((previous : String) × (lookup d s.owners ≡ some previous))
            → Extended slot_id s (elim (lookup d s.owners) [
              | none ↦ some (true, assign slot_id (d, bid) (visit d s))
              | some previous ↦
                  take_over slot_id (d, bid) (try_edges call slot_id es) (call previous (visit d s))
            ])
        fresh e new later (inl free) = rw free (assign-Extends slot_id d bid s new e free)
        fresh e new later (inr (previous, taken)) = rw taken (
            take_over-Extended slot_id d bid previous es s (call previous (visit d s)) new e taken
              later (calls previous (visit d s)))

  pub augment-Extended :
      (fuel : ℕ) (slot_id : String) (s : Search) → Extended slot_id s (augment fuel edges slot_id s)
  unfolding augment
  augment-Extended zero slot_id s = tt
  augment-Extended (suc fuel) slot_id s =
      try_edges-Extended (augment fuel edges) (augment-Extended fuel) slot_id
        (edges_at edges slot_id) s (λ e h. h)

  -- After the loop over the slots has succeeded, each slot has one device more for each time that
  -- it stands in the list.
  pub record Matched (slots : List RoleSlot) (s t : Search) : Type 0 where
    pub each :
        (u : String) → devices_of u t.owners ≡ devices_of u s.owners + count u (slot_ids slots)
    pub all_good : Good s → Good t

  pub match_slots-Matched :
      (fuel : ℕ) (slots : List RoleSlot) (s t : Search)
      → match_slots fuel edges slots s ≡ some (true, t)
      → Matched slots s t
  unfolding match_slots count
  match_slots-Matched fuel [] s t h = record {
    each = λ u. ground arith;
    all_good = λ g. subst Good (cc h) g;
  }
  match_slots-Matched fuel (slot ∷ slots) s t h =
      cases (augment fuel edges slot.slot_id (record s { visited = [] })) refl
        (augment-Extended fuel slot.slot_id (record s { visited = [] }))
        (λ u. match_slots-Matched fuel slots u t)
    where
      joined :
          (u : Search)
          → Extends slot.slot_id (record s { visited = [] }) true u
          → Matched slots u t
          → Matched (slot ∷ slots) s t
      joined u x m = record {
        each = λ v. ground (arith, m.each v, x.counts v);
        all_good = λ g.
            m.all_good (x.good (record { distinct_keys = g.distinct_keys; backed = g.backed }));
      }

      cases :
          (a : Answer)
          → augment fuel edges slot.slot_id (record s { visited = [] }) ≡ a
          → Extended slot.slot_id (record s { visited = [] }) a
          → ((u : Search) → match_slots fuel edges slots u ≡ some (true, t) → Matched slots u t)
          → Matched (slot ∷ slots) s t
      cases none p x rest = cc (rw (p, match_slots) at h)
      cases (some (false, u)) p x rest = cc (rw (p, match_slots) at h)
      cases (some (true, u)) p x rest = joined u x (rest u (rw (p, match_slots) at h))
