-- ===== src/Search/Tests.antt =====
-- The theorems on the search of apps/ai for a session of a family member.
use mathlib.Core.List.{Memᴰ}
use replica_ai.Common.{
  ℕ, ◌≡◌, refl, Bool, true, none, some, List, [], ◌∷◌, All, map, str_eq, ◌&&◌, not, is_some, ltb,
  if◌then◌else◌, inl, inr, Bool-cases,
}
use replica_ai.Common.Raise.{ok, WhereOk}
use replica_ai.Ingest.World.{Point}
use replica_ai.Ingest.Samples.{sample_library, sample_point}
use replica_ai.Family.Scope.{AuthContext, resolve_family_scope, permits, permits_type}
use replica_ai.Search.Vectors.{Hit, passes}
use replica_ai.Ingest.Knowledge.{to_english, detect_language}
use replica_ai.Family.Data.{AccessRule, AccessLevel, VerificationMethod}
use replica_ai.Search.Ranking.{All-weaken, rank, best_by_key}
use replica_ai.Search.Retrieval.{Engine, search, embed_query, results_of}
use replica_ai.Search.Grounding.{
  Chat, search_all, extract_search_queries, build_context_block, top_results,
  generate_grounded_response,
}
use replica_ai.Search.Permitted.{
  family_filter, PermittedAnswer, passes-family_filter, family_sources_permitted,
}

-- An index in which every point that passes is near, and relevant.
abbrev near : Point → Hit ℕ
near p = record { point = p; score = 1 }

abbrev hits_of : (Point → Bool) → List Point → List (Hit ℕ)
hits_of test [] = []
hits_of test (p ∷ points) = let rest = hits_of test points in if test p then near p ∷ rest else rest

hits_found :
    (test : Point → Bool) (points : List Point)
    → All (λ hit. Memᴰ hit.point points × (test hit.point ≡ true)) (hits_of test points)
hits_found test [] = tt
hits_found test (p ∷ points) =
    let others =
      All-weaken (λ hit. Memᴰ hit.point points × (test hit.point ≡ true))
        (λ hit. Memᴰ hit.point (p ∷ points) × (test hit.point ≡ true))
        (λ hit (mem, pass). (Memᴰ.tail mem, pass)) (hits_of test points) (hits_found test points) in
    elim (Bool-cases (test p)) [
      | inl pass ↦ rw (pass, hits_of) ((Memᴰ.head refl, pass), others)
      | inr fail ↦ rw (fail, hits_of) others
    ]

abbrev engine : Engine
engine = record {
  library = sample_library;
  index = record {
    Score = ℕ;
    above = λ a b. ltb b a;
    relevant = λ a. true;
    query_points = λ v test limit points. ok (hits_of test points);
    found = λ v test limit points. hits_found test points;
  };
  first_number = λ s. none;
}

abbrev chat : Chat
chat = record {
  chat_completion = λ messages. ok (some "an answer");
  splitlines = λ s. s ∷ [];
  strip_source_labels = λ s. s;
  rag_system_prompt = "You are the owner.";
  no_knowledge_context = "(none)";
}

abbrev cousin : AccessRule
cousin = record {
  id = "r1";
  owner_id = "ann";
  grantee_name = "tom";
  grantee_relation = some "cousin";
  access_level = AccessLevel.limited;
  verification_method = VerificationMethod.secret_word;
  verification_value_hash = some "apple";
  is_active = true;
  valid_from = none;
  valid_until = none;
  topic_restrictions = none;
  time_restrictions = none;
  allowed_content_types = none;
  allowed_information_categories = some ("traditions_recipes" ∷ []);
  template_name = none;
}

abbrev session : AuthContext
session = record { subject_id = "ann"; role = "family_member"; rule_id = some "r1" }

abbrev secret_point : Point
secret_point = record sample_point { entry_id = "other"; category = some "financial" }

abbrev points : List Point
points = secret_point ∷ sample_point ∷ []

passes-family_filter_example :
    let scope = resolve_family_scope session (cousin ∷ []) in
    (passes (family_filter "ann" scope) sample_point ≡ (
      str_eq sample_point.owner_id "ann"
      && permits scope sample_point.content_type sample_point.category))
    × (passes (family_filter "ann" (record scope { allowed_categories = some [] })) sample_point ≡ (
        str_eq sample_point.owner_id "ann"
        && permits_type scope.allowed_content_types sample_point.content_type
        && not (is_some sample_point.category)))
passes-family_filter_example =
    passes-family_filter "ann" (resolve_family_scope session (cousin ∷ [])) sample_point

family_sources_permitted_example :
    let scope = resolve_family_scope session (cousin ∷ []) in
    WhereOk (PermittedAnswer "ann" scope points) (
      generate_grounded_response engine chat
        (family_filter "ann" scope)
        none
        []
        "What did we eat?"
        points)
family_sources_permitted_example =
    family_sources_permitted engine chat session (cousin ∷ []) points none [] "What did we eat?"

-- The one source that the session gets.
answered :
    WhereOk
      (λ answer. map (λ s. s.entry_id) answer.sources ≡ ("entry" ∷ []))
      (generate_grounded_response engine chat
        (family_filter "ann" (resolve_family_scope session (cousin ∷ [])))
        none
        []
        "What did we eat?"
        points)
unfolding generate_grounded_response family_filter resolve_family_scope search_all
    extract_search_queries search embed_query to_english detect_language build_context_block
    top_results rank best_by_key results_of passes
answered = refl
