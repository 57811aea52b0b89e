-- ===== src/Board/Leases.antt =====
-- The leases of a board: `claim` and `release`.
use blackboard_coordination.Base.{
  String, ◌≡◌, Bool, false, ◌&&◌, ◌==◌, Option, none, some, eq_iff, eq_refl, arith, if◌then◌else◌,
}
use blackboard_coordination.Base.Dict.{lookup, lookup-insert, lookup-remove}
use blackboard_coordination.Board.State.{Board, claim, release}

-- Who holds a resource.
abbrev pub holder : String → Board → Option String
holder resource b = lookup resource b.leases

abbrev is_holder : Option String → String → Bool
is_holder none d = false
is_holder (some h) d = h == d

-- The device holds the resource.
abbrev pub held_by : String → String → Board → Bool
held_by resource d b = is_holder (holder resource b) d

-- After a claim of a free resource its device holds it, every other resource has the holder that it
-- had, and a second claim of the resource, by any device, succeeds exactly when it is by the holder.
pub claim-claim :
    (r d d' q : String) (b : Board)
    → holder r b ≡ none
    → (holder q (claim r d b).0 ≡ (if r == q then some d else holder q b))
      × ((claim r d' (claim r d b).0).1 ≡ (d == d'))
unfolding claim
claim-claim r d d' q b free = (
  ground (arith, lookup-insert r q d b.leases, eq_iff r q),
  ground (arith, lookup-insert r r d b.leases, eq_refl r),
)

-- A release frees the resource exactly when it comes from the holder, and leaves the holders of
-- every other resource as they are.
pub release_lem :
    (r d q : String) (b : Board)
    → holder q (release r d b) ≡ (if r == q && held_by r d b then none else holder q b)
unfolding release
release_lem r d q b = ground (arith, lookup-remove r q b.leases, eq_iff r q)
