-- ===== src/Search/Retrieval.antt =====
-- `KnowledgeSearch` of apps/ai/app/services/search.py. Its `_detect_language` and
-- `_translate_to_english` are those of apps/ai/app/services/knowledge.py, word for word.
use Prim.Native.String.{◌++◌ as str_append}
use replica_ai.Common.{
  ℕ, ◌*◌, String, Bool, Option, none, List, length, map, leb, ltb, truthy, or_default,
  if◌then◌else◌,
}
use replica_ai.Common.Raise.{Result, ok, err}
use replica_ai.Ingest.World.{Library, Point}
use replica_ai.Ingest.Knowledge.{detect_language, to_english}
use replica_ai.Search.Ranking.{best_by_key, rank, take}
use replica_ai.Search.Vectors.{Filter, Hit, Index, passes}

pub record SearchResult (Score : Type 0) : Type 0 where
  pub entry_id : String
  pub content_type : String
  pub score : Score
  pub content_preview : Option String
  pub original_language : String
  pub chunk_index : ℕ

-- What the search uses beside the library: the index, and the first number in a text (`\d+`).
pub record Engine : Type 1 where
  pub library : Library
  pub index : Index library.Vector
  pub first_number : String → Option ℕ

module _ (g : Engine) where
  open g use {
    library,
    index,
    first_number,
    library.{Vector, embed, prepare, generate, strip},
    index.{Score, above, query_points},
  }

  abbrev pub Found : Type 0
  Found = SearchResult Score

  -- `_embed_query`
  unfoldable pub embed_query : String → Result Vector
  embed_query query = elim (to_english library query (detect_language library query)) [
    | err e ↦ err e
    | ok text ↦ embed text
  ]

  abbrev pub result_of : Hit Score → Found
  result_of h = record {
    entry_id = h.point.entry_id;
    content_type = h.point.content_type;
    score = h.score;
    content_preview = h.point.content_preview;
    original_language = h.point.language;
    chunk_index = h.point.chunk_index;
  }

  abbrev pub better : Found → Found → Bool
  better a b = above a.score b.score

  abbrev pub better_hit : Hit Score → Hit Score → Bool
  better_hit a b = above a.score b.score

  abbrev pub entry_of : Hit Score → String
  entry_of h = h.point.entry_id

  -- The best hit of each entry, the highest score first.
  unfoldable pub results_of : ℕ → List (Hit Score) → List Found
  results_of top_k hits =
      take top_k (rank better (map result_of (best_by_key entry_of better_hit hits)))

  -- `search`, with twice the number of hits, so that entries can be dropped.
  unfoldable pub search : String → ℕ → Filter → List Point → Result (List Found)
  search query top_k f points = elim (embed_query query) [
    | err e ↦ err e
    | ok vector ↦ elim (prepare vector) [
      | err e ↦ err e
      | ok u ↦ elim (query_points vector (passes f) (top_k * 2) points) [
        | err e ↦ err e
        | ok hits ↦ ok (results_of top_k hits)
      ]
    ]
  ]

  abbrev rerank_prompt : String → Found → String
  rerank_prompt query item =
      str_append
        "Rate the relevance of the following content to the query on a scale of 1-10.\nOutput ONLY a single integer between 1 and 10, nothing else.\n\nQuery: "
        (str_append query (
          str_append "\n\nContent: " (
            if truthy item.content_preview
            then or_default "" item.content_preview
            else "(no content)")))

  -- `max(1, min(10, n))`
  abbrev pub clamp : ℕ → ℕ
  clamp n = if ltb n 1 then 1 else if ltb 10 n then 10 else n

  -- The model's mark: 5 where it gives none, or fails.
  unfoldable pub relevance : String → Found → ℕ
  relevance query item = elim (generate (rerank_prompt query item)) [
    | err e ↦ 5
    | ok response ↦ clamp (or_default 5 (first_number (strip (or_default "" response))))
  ]

  abbrev marked : String → Found → ℕ × Found
  marked query item = (relevance query item, item)

  abbrev higher : ℕ × Found → ℕ × Found → Bool
  higher a b = ltb b.0 a.0

  abbrev second : ℕ × Found → Found
  second x = x.1

  abbrev pub rerank : String → ℕ → List Found → List Found
  rerank query final_k candidates =
      if leb (length candidates) final_k
      then candidates
      else map second (take final_k (rank higher (map (marked query) candidates)))

  abbrev owner_filter : String → Filter
  owner_filter owner_id = record {
    owner_id = owner_id;
    content_type = none;
    allowed_content_types = none;
    allowed_categories = none;
  }

  unfoldable pub semantic_search_with_reranking :
      String → String → ℕ → ℕ → List Point → Result (List Found)
  semantic_search_with_reranking owner_id query top_k final_k points =
      elim (search query top_k (owner_filter owner_id) points) [
        | err e ↦ err e
        | ok candidates ↦ ok (rerank query final_k candidates)
      ]
