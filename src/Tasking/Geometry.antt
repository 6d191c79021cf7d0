-- ===== src/Tasking/Geometry.antt =====
-- What the repositories ask of shapely, geoalchemy2 and hashlib: parameters of the model. A
-- number stands for a polygon's rings, for a GeoJSON geometry and for a float, all of which the
-- code only hands from one of these operations to another.
use workspaces_backend.Base.{ℕ, Bool, Option, List}
use workspaces_backend.Tasking.Schema.{Wkb}
use workspaces_backend.Tasking.Dtos.{TaskBoundaryFeature}

-- The classes that the code tells apart by `isinstance`.
pub data Shape : Type 0 where
  polygon : ℕ → Shape
  multi_polygon : List ℕ → Shape
  other_shape : ℕ → Shape

pub record Shapely : Type 0 where
  -- `to_shape` and `from_shape(…, srid=4326)` of geoalchemy2
  pub to_shape : Wkb → Shape
  pub from_shape : Shape → Wkb
  -- `shapely.geometry.shape`: none where it raises
  pub shape : ℕ → Option Shape
  pub is_valid : Shape → Bool
  pub covers : Shape → Shape → Bool
  pub area : Shape → ℕ
  pub difference : Shape → Shape → Shape
  -- arithmetic on floats: `x == 0`, `x <= y`, `x > y`, `x * y`, `round(x, 4)`
  pub is_zero : ℕ → Bool
  pub float_le : ℕ → ℕ → Bool
  pub float_gt : ℕ → ℕ → Bool
  pub float_mul : ℕ → ℕ → ℕ
  pub round_4 : ℕ → ℕ
  -- the literals `_AOI_COVER_REL_TOLERANCE`, `_DEG2_TO_KM2` and `_GRID_MAX_KM2`
  pub aoi_cover_rel_tolerance : ℕ
  pub deg_2_to_km_2 : ℕ
  pub grid_max_km_2 : ℕ
  -- the SHA-256 of a body, from its source and its features with their properties
  pub body_hash : Bool → List TaskBoundaryFeature → ℕ
