-- ===== src/Tasking/Properties/Numbering.antt =====
-- The rows that `save` of api/src/tasking/tasks/repository.py computes.

use workspaces_backend.Base.{
  ℕ, ◌≡◌, ◌⊎◌, ◌+◌, refl, ap, true, List, [], ◌∷◌, map, All, Option, none, some, Bool-cases, inl,
  inr,
}
use workspaces_backend.Core.{ok}
use workspaces_backend.Tasking.Schema.{TaskingTask}
use workspaces_backend.Tasking.Geometry.{Shapely, Shape, polygon, multi_polygon, other_shape}
use workspaces_backend.Tasking.Tasks.Save.{task_polygon, tasks_from, polygon_to_shapely, aoi_covers}
use workspaces_backend.Tasking.Safety.Saves.{tasks_from-Turn}

-- A number for each row, from the first number on.
abbrev pub numbered : ℕ → List ℕ → List ℕ
numbered n [] = []
numbered n (_ ∷ rows) = n ∷ numbered (n + 1) rows

-- A Polygon that is inside the area of interest: covered by it, without area, or with at most the
-- tolerated share of its area outside.
pub record IsInside (lib : Shapely) (aoi : Shape) (g : ℕ) : Type 0 where
  pub rings : ℕ
  pub polygon_read : lib.shape g ≡ some (polygon rings)
  pub valid : lib.is_valid (polygon rings) ≡ true
  pub inside :
      (lib.covers aoi (polygon rings) ≡ true)
      ⊎ (lib.is_zero (lib.area (polygon rings)) ≡ true)
      ⊎ (lib.float_le
            (lib.area (lib.difference (polygon rings) aoi))
            (lib.float_mul lib.aoi_cover_rel_tolerance (lib.area (polygon rings)))
          ≡ true)

module _ (lib : Shapely) (aoi : Shape) where
  aoi_covers-split :
      (p : Shape)
      → aoi_covers lib aoi p ≡ true
      → (lib.covers aoi p ≡ true)
        ⊎ (lib.is_zero (lib.area p) ≡ true)
        ⊎ (lib.float_le
              (lib.area (lib.difference p aoi))
              (lib.float_mul lib.aoi_cover_rel_tolerance (lib.area p))
            ≡ true)
  unfolding aoi_covers
  aoi_covers-split p h = elim (Bool-cases (lib.covers aoi p)) [
    | inl e ↦ inl e
    | inr e ↦ elim (Bool-cases (lib.is_zero (lib.area p))) [
      | inl d ↦ inr (inl d)
      | inr d ↦ inr (inr (rw (e, d) at h))
    ]
  ]

  task_polygon-IsInside :
      (g : ℕ) (poly : Shape) → task_polygon lib aoi g ≡ ok poly → IsInside lib aoi g
  unfolding task_polygon polygon_to_shapely
  task_polygon-IsInside g poly h = go (lib.shape g) refl
    where
      go : (o : Option Shape) → lib.shape g ≡ o → IsInside lib aoi g
      go none e = absurd (cc (rw (e, task_polygon, polygon_to_shapely) at h))
      go (some (multi_polygon ms)) e = absurd (cc (rw (e, task_polygon, polygon_to_shapely) at h))
      go (some (other_shape s)) e = absurd (cc (rw (e, task_polygon, polygon_to_shapely) at h))
      go (some (polygon rings)) e = elim (Bool-cases (lib.is_valid (polygon rings))) [
        | inr v ↦ absurd (cc (rw (e, v, task_polygon, polygon_to_shapely) at h))
        | inl v ↦ elim (Bool-cases (aoi_covers lib aoi (polygon rings))) [
          | inr c ↦ absurd (cc (rw (e, v, c, task_polygon, polygon_to_shapely) at h))
          | inl c ↦ record {
            rings = rings;
            polygon_read = e;
            valid = v;
            inside = aoi_covers-split (polygon rings) c;
          }
        ]
      ]

-- The rows that a save computes are one for each feature, numbered without gaps from the first
-- number on, and every feature is a polygon that shapely finds valid and that the area of
-- interest covers, up to the tolerated share of its area, or that has no area.
pub tasks_from-numbers :
    (lib : Shapely) (p now : ℕ) (aoi : Shape) (idx id : ℕ) (gs : List ℕ) (ts : List TaskingTask)
    → tasks_from lib p now aoi idx id gs ≡ ok ts
    → (map (λ t. t.task_number) ts ≡ numbered (idx + 1) gs) × All (IsInside lib aoi) gs
unfolding tasks_from
tasks_from-numbers lib p now aoi idx id [] ts h =
    let none_made : ts ≡ [] = cc h in (rw none_made refl, tt)
tasks_from-numbers lib p now aoi idx id (g ∷ gs) ts h =
    let t = tasks_from-Turn lib p now aoi idx id g gs ts h in
    let n = tasks_from-numbers lib p now aoi (idx + 1) (id + 1) gs t.rest t.later in
    (
      rw t.whole (ap (λ r. (idx + 1) ∷ r) n.0),
      (task_polygon-IsInside lib aoi g t.poly t.inside, n.1),
    )
