-- ===== src/Search/Permitted.antt =====
-- Who sees what in an answer: the sources of apps/ai/app/services/search.py under the scope that
-- apps/api/app/services/family_access.py resolves, as apps/api/app/services/family_chat.py passes it.
use mathlib.Core.List.{Memᴰ}
use replica_ai.Common.{
  ◌≤◌, ◌≡◌, refl, arith, String, Bool, true, false, not, ◌&&◌, Option, none, some, is_some, List,
  [], All, length, str_eq, eq_iff,
}
use replica_ai.Common.Raise.{WhereOk, WhereOk-weaken}
use replica_ai.Ingest.World.{Point}
use replica_ai.Family.Data.{AccessRule}
use replica_ai.Family.Scope.{
  FamilyScope, AuthContext, permits, permits_type, permits_category, resolve_family_scope,
}
use replica_ai.Search.Ranking.{All-weaken}
use replica_ai.Search.Vectors.{Filter, passes}
use replica_ai.Search.Retrieval.{Engine}
use replica_ai.Search.Grounding.{Chat, Turn, Grounded, generate_grounded_response}
use replica_ai.Search.Shown.{Shown, ShownAnswer, shown_response}

-- What family chat asks for.
unfoldable pub family_filter : String → FamilyScope → Filter
family_filter owner_id scope = record {
  owner_id = owner_id;
  content_type = none;
  allowed_content_types = scope.allowed_content_types;
  allowed_categories = scope.allowed_categories;
}

-- The filter of Qdrant passes the points of the owner that the scope permits, and no others. With an
-- empty list of categories, these are the owner's points of a permitted type that have no category.
pub passes-family_filter :
    (owner_id : String) (scope : FamilyScope) (p : Point)
    → (passes (family_filter owner_id scope) p
        ≡ (str_eq p.owner_id owner_id && permits scope p.content_type p.category))
      × (passes (family_filter owner_id (record scope { allowed_categories = some [] })) p ≡ (
          str_eq p.owner_id owner_id
          && permits_type scope.allowed_content_types p.content_type
          && not (is_some p.category)))
unfolding passes family_filter permits permits_type permits_category
passes-family_filter owner_id scope p = (ground arith, ground arith)

-- An entry of the owner that the scope permits.
abbrev pub PermittedSource : String → FamilyScope → List Point → String → String → Type 0
PermittedSource owner_id scope points entry_id content_type =
    (p : Point) × Memᴰ p points
    × (p.owner_id ≡ owner_id)
    × (permits scope p.content_type p.category ≡ true)
    × (p.entry_id ≡ entry_id)
    × (p.content_type ≡ content_type)

and_true : (a b : Bool) → (a && b) ≡ true → (a ≡ true) × (b ≡ true)
and_true true b h = (refl, h)
and_true false b h = cc

permitted-Shown :
    (owner_id : String) (scope : FamilyScope) (points : List Point) (entry_id content_type : String)
    → Shown (family_filter owner_id scope) points entry_id content_type
    → PermittedSource owner_id scope points entry_id content_type
permitted-Shown owner_id scope points entry_id content_type (p, mem, pass, id, kind) =
    let both = rw (passes-family_filter owner_id scope p).0 at pass in
    let (mine, allowed) = and_true _ _ both in
    (p, mem, (eq_iff p.owner_id owner_id).0 mine, allowed, id, kind)

-- At most five sources, each an entry of the owner that the scope permits.
abbrev pub PermittedAnswer :
    {Score : Type 0} → String → FamilyScope → List Point → Grounded Score → Type 0
PermittedAnswer owner_id scope points answer =
    All (λ source. PermittedSource owner_id scope points source.entry_id source.content_type)
      answer.sources
    × (length answer.sources ≤ 5)

-- What a family session is answered with: for the session of a family member, whatever the rules,
-- the collection and the model are, an answer has at most five sources, and each is an entry of the
-- owner which the scope of the session's rule permits.
pub family_sources_permitted :
    (g : Engine) (chat : Chat) (auth : AuthContext) (rules : List AccessRule) (points : List Point)
    (prompt : Option String) (history : List Turn) (message : String)
    → let scope = resolve_family_scope auth rules in
      WhereOk (PermittedAnswer auth.subject_id scope points) (
        generate_grounded_response g chat
          (family_filter auth.subject_id scope)
          prompt
          history
          message
          points)
family_sources_permitted g chat auth rules points prompt history message =
    let scope = resolve_family_scope auth rules in
    let f = family_filter auth.subject_id scope in
    WhereOk-weaken (ShownAnswer g f points chat) (PermittedAnswer auth.subject_id scope points)
      (λ answer shown. (
        All-weaken _ _ (λ s. permitted-Shown auth.subject_id scope points s.entry_id s.content_type)
            answer.sources shown.0,
        shown.1,
      ))
      (generate_grounded_response g chat f prompt history message points)
      (shown_response g f points chat prompt history message)
