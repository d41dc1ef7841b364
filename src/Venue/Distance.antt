-- ===== src/Venue/Distance.antt =====
-- The distance matrix: contexts/venue-geo/internal/domain/venue/distance.go. A matrix is the list of
-- its writes, the latest first; `less` compares the texts of two ids.
use wc_fixture.Base.{Uuid, Bool, ◌&&◌, List, [], ◌∷◌, ◌==◌, if◌then◌else◌}
use wc_fixture.Venue.Geo.{Floats, Venue, point_distance_to}

abbrev pub Key : Type 0
Key = Uuid × Uuid

abbrev pub DistanceMatrix : Type 0 → Type 0
DistanceMatrix F = List (Key × F)

-- `sortedKey`
unfoldable pub sorted_key : (Uuid → Uuid → Bool) → Uuid → Uuid → Key
sorted_key less a b = if less a b then (a, b) else (b, a)

abbrev pub same_key : Key → Key → Bool
same_key k l = (k.0 == l.0) && (k.1 == l.1)

module _ {F : Type 0} (zero_km : F) where
  -- `m[key]`, which is 0 for a key that is not there.
  unfoldable pub entry : Key → DistanceMatrix F → F
  entry key [] = zero_km
  entry key ((k, d) ∷ m) = if same_key k key then d else entry key m

module _ {F : Type 0} (less : Uuid → Uuid → Bool) (zero_km : F) where
  unfoldable pub get : DistanceMatrix F → Uuid → Uuid → F
  get m from to = entry zero_km (sorted_key less from to) m

module _ {F : Type 0} (less : Uuid → Uuid → Bool) where
  unfoldable pub set : DistanceMatrix F → Uuid → Uuid → F → DistanceMatrix F
  set m from to d = (sorted_key less from to, d) ∷ m

  -- The inner loop, for one venue, and the outer loop.
  unfoldable pub build_row :
      (Venue F → Venue F → F) → Venue F → List (Venue F) → DistanceMatrix F → DistanceMatrix F
  build_row distance v [] m = m
  build_row distance v (w ∷ ws) m = build_row distance v ws (set m v.id w.id (distance v w))

  unfoldable pub build_rows :
      (Venue F → Venue F → F) → List (Venue F) → DistanceMatrix F → DistanceMatrix F
  build_rows distance [] m = m
  build_rows distance (v ∷ vs) m = build_rows distance vs (build_row distance v vs m)

  unfoldable pub build_distance_matrix : Floats F → List (Venue F) → DistanceMatrix F
  build_distance_matrix fl venues =
      build_rows (λ v w. point_distance_to fl v.location w.location) venues []
