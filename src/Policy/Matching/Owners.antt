-- ===== src/Policy/Matching/Owners.antt =====
-- The map from devices to slots: how many devices own a slot, and the inverse map.
use blackboard_coordination.Base.{
  ℕ, ◌+◌, ◌<◌, String, ◌≡◌, refl, Bool, true, false, ◌&&◌, ◌||◌, Option, none, some, [], ◌∷◌, ◌==◌,
  ◌⊎◌, inl, inr, arith, eq_iff, if◌then◌else◌, Bool-cases,
}
use blackboard_coordination.Base.Dict.{Assoc, lookup, insert, lookup-insert}
use blackboard_coordination.Policy.Matching.{invert}

-- The number of devices of a slot.
unfoldable pub devices_of : String → Assoc String → ℕ
devices_of u [] = 0
devices_of u ((d, s) ∷ m) = (if s == u then 1 else 0) + devices_of u m

-- What a device that is found under its key counts for a slot.
abbrev pub share : String → Option String → ℕ
share u none = 0
share u (some s) = if s == u then 1 else 0

pub devices_of-insert :
    (u d s : String) (m : Assoc String)
    → devices_of u (insert d s m) + share u (lookup d m)
      ≡ devices_of u m + (if s == u then 1 else 0)
unfolding devices_of insert lookup
devices_of-insert u d s [] = ground arith
devices_of-insert u d s ((e, t) ∷ m) = ground (arith, devices_of-insert u d s m)

-- No key stands twice.
abbrev pub KeysDistinct : Assoc String → Type 0
KeysDistinct [] = Unit
KeysDistinct ((d, s) ∷ m) = (lookup d m ≡ none) × KeysDistinct m

pub insert-KeysDistinct :
    (d s : String) (m : Assoc String) → KeysDistinct m → KeysDistinct (insert d s m)
unfolding insert lookup
insert-KeysDistinct d s [] k = (refl, tt)
insert-KeysDistinct d s ((e, t) ∷ m) (new, k) = elim (Bool-cases (e == d)) [
  | inl same ↦ rw (same, insert) (new, k)
  | inr other ↦
      rw (other, insert)
        (ground (arith, lookup-insert d e s m, eq_iff d e, eq_iff e d), insert-KeysDistinct d s m k)
]

pub has_pair : String → String → Assoc String → Bool
has_pair d s [] = false
has_pair d s ((e, t) ∷ m) = (e == d && t == s) || has_pair d s m

-- With distinct keys, a pair of the map is what its key finds.
pub has_pair-lookup :
    (d s : String) (m : Assoc String) → KeysDistinct m → has_pair d s m ≡ true → lookup d m ≡ some s
unfolding has_pair lookup
has_pair-lookup d s [] k h = cc
has_pair-lookup d s ((e, t) ∷ m) (new, k) h =
    ground (arith, has_pair-lookup d s m k, eq_iff e d, eq_iff t s)

-- What the inverse map finds stands in the map.
pub invert-has_pair :
    (u d : String) (m : Assoc String) (owners : Assoc String)
    → lookup u (invert m owners) ≡ some d
    → (has_pair d u owners ≡ true) ⊎ (lookup u m ≡ some d)
unfolding invert has_pair
invert-has_pair u d m [] h = inr h
invert-has_pair u d m ((e, s) ∷ owners) h = elim (invert-has_pair u d (insert s e m) owners h) [
  | inl there ↦ inl (ground arith)
  | inr found ↦ elim (Bool-cases (s == u)) [
    | inl same ↦ inl (ground (arith, lookup-insert s u e m, eq_iff e d))
    | inr other ↦ inr (ground (arith, lookup-insert s u e m))
  ]
]

-- A slot with a device is found.
pub invert-found :
    (u : String) (m : Assoc String) (owners : Assoc String)
    → ((x : String) × (lookup u m ≡ some x)) ⊎ (0 < devices_of u owners)
    → (d : String) × (lookup u (invert m owners) ≡ some d)
unfolding invert devices_of
invert-found u m [] (inl found) = found
invert-found u m [] (inr h) = absurd (omega arith)
invert-found u m ((e, s) ∷ owners) h = elim (Bool-cases (s == u)) [
  | inl same ↦ invert-found u (insert s e m) owners (inl (e, ground (arith, lookup-insert s u e m)))
  | inr other ↦ invert-found u (insert s e m) owners (later other h)
]
  where
    later :
        (s == u) ≡ false
        → ((x : String) × (lookup u m ≡ some x)) ⊎ (0 < devices_of u ((e, s) ∷ owners))
        → ((x : String) × (lookup u (insert s e m) ≡ some x)) ⊎ (0 < devices_of u owners)
    later other (inl (x, found)) = inl (x, ground (arith, lookup-insert s u e m))
    later other (inr many) = inr (ground arith)
