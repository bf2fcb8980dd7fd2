-- ===== src/Search/Vectors.antt =====
-- `QdrantService` of apps/ai/app/core/qdrant.py: the filter of a search and the deletion of an entry.
-- The nearest points are found by Qdrant, a parameter: it answers with points of the collection that
-- pass the filter.
use replica_ai.Common.{
  ℕ, ◌≡◌, String, Bool, true, not, ◌&&◌, Option, none, some, List, select, contains, str_eq, All,
}
use mathlib.Core.List.{Memᴰ}
use replica_ai.Common.Raise.{Result, WhereOk}
use replica_ai.Ingest.World.{Point}

-- What a search asks for; `None` does not restrict an axis.
pub record Filter : Type 0 where
  pub owner_id : String
  pub content_type : Option String
  pub allowed_content_types : Option (List String)
  pub allowed_categories : Option (List String)

abbrev matches : Option String → String → Bool
matches none value = true
matches (some wanted) value = str_eq value wanted

-- `MatchAny`
abbrev matches_any : Option (List String) → String → Bool
matches_any none value = true
matches_any (some allowed) value = contains allowed value

-- A point without a category passes.
abbrev matches_category : Option (List String) → Option String → Bool
matches_category none category = true
matches_category (some allowed) none = true
matches_category (some allowed) (some category) = contains allowed category

-- `Filter(must=must_conditions)`
unfoldable pub passes : Filter → Point → Bool
passes f p =
    str_eq p.owner_id f.owner_id
    && matches f.content_type p.content_type
    && matches_any f.allowed_content_types p.content_type
    && matches_category f.allowed_categories p.category

-- `delete_by_entry_id`
unfoldable pub delete_by_entry_id : String → List Point → List Point
delete_by_entry_id entry_id points = select (λ p. not (str_eq p.entry_id entry_id)) points

pub record Hit (Score : Type 0) : Type 0 where
  pub point : Point
  pub score : Score

-- Qdrant's search: the vector, the filter, the limit, and the points.
pub record Index (Vector : Type 0) : Type 1 where
  pub Score : Type 0
  -- `a > b`, and `a >= MIN_RELEVANT_SCORE`
  pub above : Score → Score → Bool
  pub relevant : Score → Bool
  pub query_points : Vector → (Point → Bool) → ℕ → List Point → Result (List (Hit Score))
  pub found :
      (v : Vector) (test : Point → Bool) (limit : ℕ) (points : List Point)
      → WhereOk
          (All (λ hit. Memᴰ hit.point points × (test hit.point ≡ true)))
          (query_points v test limit points)
