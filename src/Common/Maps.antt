-- ===== src/Common/Maps.antt =====
-- String-keyed maps (`std::map<std::string, V>`) as association lists. A key stands at most once
-- in a map that was built by `insert_or_assign`; the order of the entries carries no meaning.
use Prim.Native.String.{String}
use text.Mathlib.Text.{◌==◌ as str_eq}
use text.Mathlib.TextEquality.{eq_iff}
use mathlib.Core.Path.{◌≡◌, refl}
use mathlib.Core.Option.{Option, none, some}
use mathlib.Core.List.{List, [], ◌∷◌}
use native.Mathlib.Omega.{arith}
use device_manager.Common.Tests.{if◌then◌else◌}

module _ {ℓ} {V : Type ℓ} where
  -- `std::map::find`.
  unfoldable pub find : String → List (String × V) → Option V
  find k [] = none
  find k ((j, v) ∷ m) = if str_eq j k then some v else find k m

  unfoldable pub insert_or_assign : String → V → List (String × V) → List (String × V)
  insert_or_assign k v [] = (k, v) ∷ []
  insert_or_assign k v ((j, w) ∷ m) =
      if str_eq j k then (k, v) ∷ m else (j, w) ∷ insert_or_assign k v m

  -- `for (const auto & parameter : patch) target.insert_or_assign(...)`.
  unfoldable pub merge : List (String × V) → List (String × V) → List (String × V)
  merge m [] = m
  merge m ((k, v) ∷ patch) = merge (insert_or_assign k v m) patch

  find-insert_or_assign :
      (k j : String) (v : V) (m : List (String × V))
      → find j (insert_or_assign k v m) ≡ (if str_eq k j then some v else find j m)
  unfolding find insert_or_assign
  find-insert_or_assign k j v [] = refl
  find-insert_or_assign k j v ((i, w) ∷ m) =
      ground (arith, eq_iff k j, eq_iff i k, eq_iff i j, find-insert_or_assign k j v m)

  -- The keys are distinct.
  abbrev pub IsMap : List (String × V) → Type ℓ
  IsMap [] = Unit
  IsMap ((k, v) ∷ m) = (find k m ≡ none) × IsMap m

  abbrev pub or_else : Option V → Option V → Option V
  or_else none y = y
  or_else (some x) y = some x

  -- A merge takes the patch's value of a key that the patch has, and the map's otherwise.
  pub find-merge :
      (j : String) (m patch : List (String × V))
      → IsMap patch
      → find j (merge m patch) ≡ or_else (find j patch) (find j m)
  unfolding find merge
  find-merge j m [] h = refl
  find-merge j m ((k, v) ∷ patch) h = ground (
    arith,
    eq_iff k j,
    find-insert_or_assign k j v m,
    find-merge j (insert_or_assign k v m) patch h.1,
  )

  -- What one map says of a key, the other says too.
  abbrev pub Agrees : List (String × V) → List (String × V) → Type ℓ
  Agrees part whole = (k : String) (v : V) → find k part ≡ some v → find k whole ≡ some v

  pub Agrees-merge :
      (part whole patch : List (String × V))
      → IsMap patch
      → Agrees part whole
      → Agrees (merge part patch) (merge whole patch)
  Agrees-merge part whole patch h a k v e =
      ground (arith, find-merge k part patch h, find-merge k whole patch h, a k v)
