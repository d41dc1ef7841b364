-- ===== src/Venue/Matrix.antt =====
-- What the matrix that `BuildDistanceMatrix` of contexts/venue-geo/internal/domain/venue/distance.go
-- builds holds.
use wc_fixture.Base.{Uuid, Bool, true, false, List, [], ◌∷◌, ◌++◌, ◌≡◌, refl, ◌∙◌, All, ◌==◌, arith}
use wc_fixture.Base.Cursor.{All-append_right}
use wc_fixture.Venue.Geo.{Floats, Venue, point_distance_to}
use wc_fixture.Venue.Distance.{
  Key, DistanceMatrix, sorted_key, same_key, entry, get, set, build_row, build_rows,
  build_distance_matrix,
}

-- Of two different ids exactly one has the lesser text.
pub record IsTextOrder (less : Uuid → Uuid → Bool) : Type 0 where
  pub asymm : (a b : Uuid) → less a b ≡ true → less b a ≡ false
  pub total : (a b : Uuid) → (a == b) ≡ false → less a b ≡ false → less b a ≡ true

module _ (less : Uuid → Uuid → Bool) where
  sorted_key_comm :
      IsTextOrder less → (a b : Uuid) → (a == b) ≡ false → sorted_key less a b ≡ sorted_key less b a
  unfolding sorted_key
  sorted_key_comm o a b n = ground (arith, o.asymm a b, o.total a b n)

  -- A pair without `v` has another key than a pair with it.
  same_key-without :
      (a b v w : Uuid)
      → (a == v) ≡ false
      → (b == v) ≡ false
      → same_key (sorted_key less a b) (sorted_key less v w) ≡ false
  unfolding sorted_key
  same_key-without a b v w ha hb = ground arith

  same_key-beside :
      (v w x : Uuid)
      → (w == v) ≡ false
      → (x == v) ≡ false
      → (x == w) ≡ false
      → same_key (sorted_key less v x) (sorted_key less v w) ≡ false
  unfolding sorted_key
  same_key-beside v w x hw hx h = ground arith

  same_key_refl : (k : Key) → same_key k k ≡ true
  same_key_refl (a, b) = ground arith

module _ {F : Type 0} (less : Uuid → Uuid → Bool) (zero_km : F)
    (distance : Venue F → Venue F → F) where
  entry-build_row :
      (v w : Venue F) (xs : List (Venue F)) (m : DistanceMatrix F)
      → (w.id == v.id) ≡ false
      → All (λ x. (x.id == v.id) ≡ false) xs
      → All (λ x. (x.id == w.id) ≡ false) xs
      → entry zero_km (sorted_key less v.id w.id) (build_row less distance v xs m)
        ≡ entry zero_km (sorted_key less v.id w.id) m
  unfolding build_row entry set
  entry-build_row v w [] m n hv hw = refl
  entry-build_row v w (x ∷ xs) m n hv hw =
      entry-build_row v w xs (set less m v.id x.id (distance v x)) n hv.1 hw.1
      ∙ (rw (same_key-beside less v.id w.id x.id n hv.0 hw.0) refl)

  entry-build_row_without :
      (a v w : Venue F) (xs : List (Venue F)) (m : DistanceMatrix F)
      → (a.id == v.id) ≡ false
      → All (λ x. (x.id == v.id) ≡ false) xs
      → entry zero_km (sorted_key less v.id w.id) (build_row less distance a xs m)
        ≡ entry zero_km (sorted_key less v.id w.id) m
  unfolding build_row entry set
  entry-build_row_without a v w [] m n hv = refl
  entry-build_row_without a v w (x ∷ xs) m n hv =
      entry-build_row_without a v w xs (set less m a.id x.id (distance a x)) n hv.1
      ∙ (rw (same_key-without less a.id x.id v.id w.id n hv.0) refl)

  entry-build_rows_without :
      (v w : Venue F) (xs : List (Venue F)) (m : DistanceMatrix F)
      → All (λ x. (x.id == v.id) ≡ false) xs
      → entry zero_km (sorted_key less v.id w.id) (build_rows less distance xs m)
        ≡ entry zero_km (sorted_key less v.id w.id) m
  unfolding build_rows
  entry-build_rows_without v w [] m h = refl
  entry-build_rows_without v w (x ∷ xs) m h =
      entry-build_rows_without v w xs (build_row less distance x xs m) h.1
      ∙ entry-build_row_without x v w xs m h.0 h.1

  -- The row of `v` has the distance to each venue behind it.
  entry-own_row :
      (v w : Venue F) (mid after : List (Venue F)) (m : DistanceMatrix F)
      → (w.id == v.id) ≡ false
      → All (λ x. (x.id == v.id) ≡ false) after
      → All (λ x. (x.id == w.id) ≡ false) after
      → entry zero_km (sorted_key less v.id w.id) (build_row less distance v (mid ++ w ∷ after) m)
        ≡ distance v w
  unfolding build_row entry set
  entry-own_row v w [] after m n hv hw =
      entry-build_row v w after (set less m v.id w.id (distance v w)) n hv hw
      ∙ (rw (same_key_refl less (sorted_key less v.id w.id)) refl)
  entry-own_row v w (x ∷ mid) after m n hv hw =
      entry-own_row v w mid after (set less m v.id x.id (distance v x)) n hv hw

  entry-build_rows :
      (v w : Venue F) (before mid after : List (Venue F)) (m : DistanceMatrix F)
      → All (λ x. (x.id == v.id) ≡ false) (mid ++ w ∷ after)
      → All (λ x. (x.id == w.id) ≡ false) after
      → entry zero_km
          (sorted_key less v.id w.id)
          (build_rows less distance (before ++ v ∷ (mid ++ w ∷ after)) m)
        ≡ distance v w
  unfolding build_rows
  entry-build_rows v w (x ∷ before) mid after m hv hw =
      entry-build_rows v w before mid after _ hv hw
  entry-build_rows v w [] mid after m hv hw =
      let behind = All-append_right _ mid (w ∷ after) hv in
      entry-build_rows_without v w (mid ++ w ∷ after)
        (build_row less distance v (mid ++ w ∷ after) m) hv
      ∙ entry-own_row v w mid after m behind.0 behind.1 hw

-- In a matrix built from venues with `v` before `w`, no other id after `v` being that of `v` and none
-- after `w` that of `w`, the entry of the two is the Haversine distance from `v` to `w`, in
-- whichever order `Get` is asked.
pub build_distance_matrix-Get :
    {F : Type 0} (less : Uuid → Uuid → Bool) (fl : Floats F) (zero_km : F) (v w : Venue F)
    (before mid after : List (Venue F))
    → IsTextOrder less
    → All (λ x. (x.id == v.id) ≡ false) (mid ++ w ∷ after)
    → All (λ x. (x.id == w.id) ≡ false) after
    → (get less zero_km (build_distance_matrix less fl (before ++ v ∷ (mid ++ w ∷ after))) v.id w.id
        ≡ point_distance_to fl v.location w.location)
      × (get less zero_km
            (build_distance_matrix less fl (before ++ v ∷ (mid ++ w ∷ after)))
            w.id
            v.id
          ≡ point_distance_to fl v.location w.location)
unfolding get build_distance_matrix
build_distance_matrix-Get less fl zero_km v w before mid after o hv hw =
    let behind = All-append_right _ mid (w ∷ after) hv in
    let e =
      entry-build_rows less zero_km (λ v w. point_distance_to fl v.location w.location) v w before
        mid after [] hv hw in
    (e, (rw (sorted_key_comm less o w.id v.id behind.0) e))
