-- ===== src/Search/Shown.antt =====
-- Where the sources of an answer in apps/ai/app/services/search.py come from: points that pass the
-- filter of the search.
use mathlib.Core.List.{Memᴰ}
use replica_ai.Common.{
  ℕ, suc, ◌*◌, ◌≤◌, ◌≡◌, refl, arith, String, true, Option, List, [], ◌∷◌, All, length, select,
  contains, inl, inr, if-both,
}
use replica_ai.Common.Raise.{Result-cases, WhereOk}
use replica_ai.Ingest.World.{Point}
use replica_ai.Search.Ranking.{
  take, rank, best_by_key, All-take, All-rank, All-best_by_key, All-map, All-select, All-append,
  length-take, length-select_le,
}
use replica_ai.Search.Vectors.{Filter, Hit, passes}
use replica_ai.Search.Retrieval.{
  Engine, Found, search, results_of, result_of, better, better_hit, entry_of, embed_query,
}
use replica_ai.Search.Grounding.{
  Chat, Turn, Source, Grounded, add_lines, build_context_block, is_relevant, entry, ask_model,
  extract_search_queries, search_all, top_results, grounded_answer, generate_grounded_response,
}

-- An entry that comes from a point which passes the filter.
abbrev pub Shown : Filter → List Point → String → String → Type 0
Shown f points entry_id content_type =
    (p : Point) × Memᴰ p points
    × (passes f p ≡ true)
    × (p.entry_id ≡ entry_id)
    × (p.content_type ≡ content_type)

module _ (g : Engine) (f : Filter) (points : List Point) where
  open g use {library, index, index.{Score, query_points}}

  abbrev ShownResult : Found g → Type 0
  ShownResult r = Shown f points r.entry_id r.content_type

  abbrev ShownSource : Source Score → Type 0
  ShownSource s = Shown f points s.entry_id s.content_type

  abbrev ShownHit : Hit Score → Type 0
  ShownHit h = Memᴰ h.point points × (passes f h.point ≡ true)

  shown_hit : (h : Hit Score) → ShownHit h → ShownResult (result_of g h)
  shown_hit h (mem, pass) = (h.point, mem, pass, refl, refl)

  shown_results :
      (top_k : ℕ) (hits : List (Hit Score))
      → All ShownHit hits
      → All ShownResult (results_of g top_k hits)
  unfolding results_of
  shown_results top_k hits a = All-take ShownResult top_k _ (
      All-rank ShownResult (better g) _ (
        All-map ShownHit ShownResult (result_of g) shown_hit _
          (All-best_by_key ShownHit (entry_of g) (better_hit g) hits a)))

  shown_search :
      (query : String) (top_k : ℕ) → WhereOk (All ShownResult) (search g query top_k f points)
  unfolding search
  shown_search query top_k = elim (Result-cases (embed_query g query)) [
    | inl (e, raised) ↦ rw (raised, search, WhereOk) tt
    | inr (vector, embedded) ↦ elim (Result-cases (library.prepare vector)) [
      | inl (e, raised) ↦ rw (embedded, raised, search, WhereOk) tt
      | inr (u, ready) ↦ elim (Result-cases (query_points vector (passes f) (top_k * 2) points)) [
        | inl (e, raised) ↦ rw (embedded, ready, raised, search, WhereOk) tt
        | inr (hits, answered) ↦
            rw (embedded, ready, answered, search, WhereOk)
              (shown_results top_k hits
                (rw (answered, WhereOk) at (index.found vector (passes f) (top_k * 2) points)))
      ]
    ]
  ]

  module _ (chat : Chat) where
    shown_all :
        (queries : List String) → WhereOk (All ShownResult) (search_all g chat f points queries)
    unfolding search_all
    shown_all [] = tt
    shown_all (q ∷ queries) = elim (Result-cases (search g q 5 f points)) [
      | inl (e, raised) ↦ rw (raised, search_all, WhereOk) tt
      | inr (results, found) ↦ elim (Result-cases (search_all g chat f points queries)) [
        | inl (e, raised) ↦ rw (found, raised, search_all, WhereOk) tt
        | inr (others, rest) ↦
            let first_shown = rw (found, WhereOk) at (shown_search q 5) in
            let others_shown = rw (rest, WhereOk) at (shown_all queries) in
            rw (found, rest, search_all, WhereOk)
              (All-append ShownResult results others first_shown others_shown)
      ]
    ]

    shown_lines :
        (i : ℕ) (seen : List String) (results : List (Found g))
        → All ShownResult results
        → All ShownSource (add_lines g chat i seen results).1
    shown_lines i seen [] a = tt
    shown_lines i seen (r ∷ results) (h, a) =
        if-both {A = List String × List (Source Score)} (λ x. All ShownSource x.1)
          (contains seen r.entry_id) _ _ (shown_lines (suc i) seen results a)
          (h, shown_lines (suc i) (r.entry_id ∷ seen) results a)

    length_lines :
        (i : ℕ) (seen : List String) (results : List (Found g))
        → length (add_lines g chat i seen results).1 ≤ length results
    length_lines i seen [] = omega arith
    length_lines i seen (r ∷ results) =
        let known = length_lines (suc i) seen results in
        let rest = length_lines (suc i) (r.entry_id ∷ seen) results in
        if-both {A = List String × List (Source Score)} (λ x. length x.1 ≤ suc (length results))
          (contains seen r.entry_id) _ _ (omega arith) (omega arith)

    -- Sources that are shown, at most five of them.
    abbrev pub ShownAnswer : Grounded Score → Type 0
    ShownAnswer answer = All ShownSource answer.sources × (length answer.sources ≤ 5)

    shown_sources :
        (results : List (Found g))
        → All ShownResult results
        → All ShownSource (build_context_block g chat (top_results g chat results)).1
          × (length (build_context_block g chat (top_results g chat results)).1 ≤ 5)
    unfolding build_context_block top_results
    shown_sources results a =
        let ranked = rank (better g) (best_by_key (entry g chat) (better g) results) in
        let top = take 5 ranked in
        let relevant = select (is_relevant g chat) top in
        (
          shown_lines 1 [] relevant (
              All-select ShownResult (is_relevant g chat) top (
                All-take ShownResult 5 ranked (
                  All-rank ShownResult (better g) _
                    (All-best_by_key ShownResult (entry g chat) (better g) results a)))),
          omega (
            arith,
            length_lines 1 [] relevant,
            length-select_le (is_relevant g chat) top,
            length-take 5 ranked,
          ),
        )

    shown_answer :
        (prompt : Option String) (history : List Turn) (message : String) (queries : List String)
        (results : List (Found g))
        → All ShownResult results
        → WhereOk ShownAnswer (grounded_answer g chat prompt history message queries results)
    shown_answer prompt history message queries results a =
        elim (Result-cases (
          ask_model g chat prompt history message
            (build_context_block g chat (top_results g chat results)))) [
              | inl (e, raised) ↦ rw (raised, WhereOk) tt
              | inr (response, answered) ↦ rw (answered, WhereOk) (shown_sources results a)
            ]

    pub shown_response :
        (prompt : Option String) (history : List Turn) (message : String)
        → WhereOk ShownAnswer (generate_grounded_response g chat f prompt history message points)
    unfolding generate_grounded_response
    shown_response prompt history message =
        let queries = extract_search_queries g chat message in
        elim (Result-cases (search_all g chat f points queries)) [
          | inl (e, raised) ↦ rw (raised, generate_grounded_response, WhereOk) tt
          | inr (results, found) ↦
              rw (found, generate_grounded_response)
                (shown_answer prompt history message queries results
                  (rw (found, WhereOk) at (shown_all queries)))
        ]
