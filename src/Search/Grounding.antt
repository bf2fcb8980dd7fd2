-- ===== src/Search/Grounding.antt =====
-- `RAGEngine` of apps/ai/app/services/search.py: the queries, the context of an answer with its sources,
-- the turns for the model, and the answer.
use Prim.Native.String.{◌++◌ as str_append}
use replica_ai.Common.{
  ℕ, suc, String, Bool, not, Option, List, [], ◌∷◌, ◌++◌, select, map, contains, str_eq, is_blank,
  truthy, or_default, if◌then◌else◌,
}
use replica_ai.Common.Raise.{Result, ok, err}
use replica_ai.Common.Text.{decimal}
use replica_ai.Ingest.World.{Point}
use replica_ai.Search.Ranking.{best_by_key, rank, take}
use replica_ai.Search.Vectors.{Filter}
use replica_ai.Search.Retrieval.{Engine, Found, search, better}

-- A turn of a conversation; a dictionary may lack either key.
pub record Turn : Type 0 where
  pub role : Option String
  pub content : Option String

pub record ChatMessage : Type 0 where
  pub role : String
  pub content : String

pub record Source (Score : Type 0) : Type 0 where
  pub entry_id : String
  pub content_type : String
  pub score : Score

pub record Grounded (Score : Type 0) : Type 0 where
  pub response : String
  pub sources : List (Source Score)
  pub query_used : String

-- The chat model with the texts of its prompts: the answer to a list of messages, the lines of a text,
-- and the removal of source labels.
pub record Chat : Type 0 where
  pub chat_completion : List ChatMessage → Result (Option String)
  pub splitlines : String → List String
  pub strip_source_labels : String → String
  pub rag_system_prompt : String
  pub no_knowledge_context : String

abbrev pub join_with : String → List String → String
join_with separator [] = ""
join_with separator (x ∷ []) = x
join_with separator (x ∷ y ∷ rest) =
    str_append x (str_append separator (join_with separator (y ∷ rest)))

-- The suffix of the system prompt, and the turns.
abbrev add_turns : String → List Turn → String × List ChatMessage
add_turns suffix [] = (suffix, [])
add_turns suffix (t ∷ turns) =
    let role = or_default "user" t.role in
    let content = or_default "" t.content in
    let folded = add_turns (str_append suffix (str_append "\n\n" content)) turns in
    let rest = add_turns suffix turns in
    if is_blank content then rest else if str_eq role "system" then folded else (
      rest.0,
      record { role = if str_eq role "assistant" then role else "user"; content = content }
          ∷ rest.1,
    )

unfoldable pub build_messages : String → String → List Turn → String → String × List ChatMessage
build_messages no_knowledge context history message =
    let block = if is_blank context then no_knowledge else context in
    let suffix =
      str_append "\n\n=== Personal Knowledge ===\n" (str_append block "\n=== End Knowledge ===") in
    let (system_suffix, turns) = add_turns suffix history in
    (system_suffix, turns ++ record { role = "user"; content = message } ∷ [])

module _ (g : Engine) (chat : Chat) where
  open g use {library, index, library.{generate, strip}, index.{Score, relevant}}
  open chat use {
    chat_completion, splitlines, strip_source_labels, rag_system_prompt, no_knowledge_context,
  }

  abbrev extraction_prompt : String → String
  extraction_prompt message =
      str_append
        "Extract 1-3 concise search queries from the user's message that would help retrieve relevant personal knowledge. Output one query per line, nothing else.\n\nUser message: "
        message

  abbrev non_blank : String → Bool
  non_blank q = not (is_blank (strip q))

  abbrev or_message : String → List String → List String
  or_message message [] = message ∷ []
  or_message message (q ∷ queries) = take 3 (q ∷ queries)

  unfoldable pub extract_search_queries : String → List String
  extract_search_queries message = elim (generate (extraction_prompt message)) [
    | err e ↦ message ∷ []
    | ok response ↦
        or_message message
          (map strip (select non_blank (splitlines (strip (or_default "" response)))))
  ]

  abbrev pub is_relevant : Found g → Bool
  is_relevant r = relevant r.score

  abbrev pub source_of : Found g → Source Score
  source_of r = record { entry_id = r.entry_id; content_type = r.content_type; score = r.score }

  abbrev line_of : ℕ → Found g → String
  line_of i r = str_append "[Source " (
      str_append (decimal i) (
        str_append "] (type=" (
          str_append r.content_type (
            str_append
              (if is_blank r.original_language
                then ""
                else str_append ", lang=" r.original_language)
              (str_append ")\n" (
                if truthy r.content_preview
                then or_default "" r.content_preview
                else "(no content available)"))))))

  -- The lines and the sources, from number `i` on; an entry that was seen is left out.
  abbrev pub add_lines : ℕ → List String → List (Found g) → List String × List (Source Score)
  add_lines i seen [] = ([], [])
  add_lines i seen (r ∷ results) =
      let known = add_lines (suc i) seen results in
      let rest = add_lines (suc i) (r.entry_id ∷ seen) results in
      if contains seen r.entry_id then known else (line_of i r ∷ rest.0, source_of r ∷ rest.1)

  unfoldable pub build_context_block : List (Found g) → String × List (Source Score)
  build_context_block results =
      let (lines, sources) = add_lines 1 [] (select is_relevant results) in
      (join_with "\n\n" lines, sources)

  -- The results of all queries; the first that raises ends the search.
  unfoldable pub search_all : Filter → List Point → List String → Result (List (Found g))
  search_all f points [] = ok []
  search_all f points (q ∷ queries) = elim (search g q 5 f points) [
    | err e ↦ err e
    | ok results ↦ elim (search_all f points queries) [
      | err e ↦ err e
      | ok others ↦ ok (results ++ others)
    ]
  ]

  abbrev pub entry : Found g → String
  entry r = r.entry_id

  -- The five best of the results, one for each entry.
  unfoldable pub top_results : List (Found g) → List (Found g)
  top_results results = take 5 (rank (better g) (best_by_key entry (better g) results))

  abbrev system_prompt_of : Option String → String
  system_prompt_of prompt = if truthy prompt then or_default "" prompt else rag_system_prompt

  abbrev pub ask_model :
      Option String → List Turn → String → String × List (Source Score) → Result (Option String)
  ask_model prompt history message (context, sources) =
      let (suffix, turns) = build_messages no_knowledge_context context history message in
      chat_completion
        (record { role = "system"; content = str_append (system_prompt_of prompt) suffix } ∷ turns)

  abbrev pub grounded_answer :
      Option String → List Turn → String → List String → List (Found g) → Result (Grounded Score)
  grounded_answer prompt history message queries results =
      let block = build_context_block (top_results results) in
      elim (ask_model prompt history message block) [
        | err e ↦ err e
        | ok response ↦ ok (record {
          response = strip_source_labels (or_default "" response);
          sources = block.1;
          query_used = join_with " | " queries;
        })
      ]

  unfoldable pub generate_grounded_response :
      Filter → Option String → List Turn → String → List Point → Result (Grounded Score)
  generate_grounded_response f prompt history message points =
      let queries = extract_search_queries message in
      elim (search_all f points queries) [
        | err e ↦ err e
        | ok results ↦ grounded_answer prompt history message queries results
      ]
