-- ===== src/Base/Dict.antt =====
-- Python's `dict` with text keys as an association list, with its order of insertion.
use Prim.Native.String.{String, compare}
use mathlib.Core.Path.{◌≡◌, refl}
use mathlib.Core.Option.{Option, none, some}
use mathlib.Core.List.{List, [], ◌∷◌}
use native.Mathlib.Omega.{arith}
use text.Mathlib.Text.{◌==◌, is_lt}
use text.Mathlib.TextEquality.{eq_iff}
use blackboard_coordination.Base.Lists.{member, subset}
use blackboard_coordination.Base.Tests.{if◌then◌else◌}
use blackboard_coordination.Base.{◌||◌}

abbrev pub Assoc {ℓ} : Type ℓ → Type ℓ
Assoc V = List (String × V)

module _ {ℓ} {V : Type ℓ} where
  -- `d.get(key)`
  unfoldable pub lookup : String → Assoc V → Option V
  lookup key ((name, value) ∷ d) = if name == key then some value else lookup key d
  lookup key [] = none

  -- `d[key] = value`: a new key goes to the end.
  unfoldable pub insert : String → V → Assoc V → Assoc V
  insert key value ((name, old) ∷ d) =
      if name == key then (name, value) ∷ d else (name, old) ∷ insert key value d
  insert key value [] = (key, value) ∷ []

  -- `d.pop(key, None)`
  unfoldable pub remove : String → Assoc V → Assoc V
  remove key ((name, value) ∷ d) =
      let rest = remove key d in if name == key then rest else (name, value) ∷ rest
  remove key [] = []

  pub lookup-insert :
      (key asked : String) (value : V) (d : Assoc V)
      → lookup asked (insert key value d) ≡ (if key == asked then some value else lookup asked d)
  unfolding lookup insert
  lookup-insert key asked value ((name, old) ∷ d) =
      ground (
        arith,
        lookup-insert key asked value d,
        eq_iff name asked,
        eq_iff name key,
        eq_iff key asked,
      )
  lookup-insert key asked value [] = refl

  pub lookup-remove :
      (key asked : String) (d : Assoc V)
      → lookup asked (remove key d) ≡ (if key == asked then none else lookup asked d)
  unfolding lookup remove
  lookup-remove key asked ((name, value) ∷ d) =
      ground
        (arith, lookup-remove key asked d, eq_iff name asked, eq_iff name key, eq_iff key asked)
  lookup-remove key asked [] = ground arith

  insert_sorted : String → V → Assoc V → Assoc V
  insert_sorted k v [] = (k, v) ∷ []
  insert_sorted k v ((j, w) ∷ m) =
      if is_lt (compare k j) then (k, v) ∷ (j, w) ∷ m else (j, w) ∷ insert_sorted k v m

  -- `{key: d[key] for key in sorted(d)}`
  unfoldable pub by_key : Assoc V → Assoc V
  unfolding insert_sorted
  by_key [] = []
  by_key ((k, v) ∷ m) = insert_sorted k v (by_key m)

insert_text : String → List String → List String
insert_text s [] = s ∷ []
insert_text s (t ∷ ts) = if is_lt (compare t s) then t ∷ insert_text s ts else s ∷ t ∷ ts

-- `sorted(texts)`
unfoldable pub sort_texts : List String → List String
unfolding insert_text
sort_texts [] = []
sort_texts (s ∷ ts) = insert_text s (sort_texts ts)

-- Sorting keeps the members.
member-insert_text :
    (x s : String) (ts : List String) → member x (insert_text s ts) ≡ (x == s || member x ts)
unfolding insert_text
member-insert_text x s [] = refl
member-insert_text x s (t ∷ ts) = ground (arith, member-insert_text x s ts)

pub member-sort_texts : (x : String) (ts : List String) → member x (sort_texts ts) ≡ member x ts
unfolding sort_texts
member-sort_texts x [] = refl
member-sort_texts x (t ∷ ts) =
    ground (arith, member-insert_text x t (sort_texts ts), member-sort_texts x ts)

pub subset-sort_texts : (xs ts : List String) → subset xs (sort_texts ts) ≡ subset xs ts
subset-sort_texts [] ts = refl
subset-sort_texts (x ∷ xs) ts = ground (arith, member-sort_texts x ts, subset-sort_texts xs ts)
