-- ===== src/Browsing/Domains.antt =====
-- The domain rules of apps/api/app/services/web_browser.py. The parts of a URL are found by urllib, a
-- parameter. The second call of `scalar()` on one result raises, as SQLAlchemy documents: the first
-- has closed it.
use Prim.Native.String.{◌++◌ as str_append}
use replica_ai.Common.{
  ℕ, ◌-◌, String, Bool, true, false, ◌&&◌, ◌||◌, Option, none, some, List, [], ◌∷◌, ◌++◌, select,
  first, count, delete_first, str_eq, is_blank, or_default, is_some, ltb, leb, if◌then◌else◌,
}
use replica_ai.Common.Raise.{Exception, Result, ok, err, other_error}
use replica_ai.Common.Text.{take_chars, drop_chars, length_of}
use replica_ai.Common.Raise.{one_or_none}

pub data RuleType : Type 0 where
  allow block : RuleType

-- A row of `browse_domain_rules`.
pub record DomainRule : Type 0 where
  pub id : String
  pub owner_id : String
  pub domain : String
  pub rule_type : RuleType

-- `urlparse(url).hostname`, `x in y`, `str.lower` and `str.strip`.
pub record Urls : Type 0 where
  pub hostname : String → Option String
  pub within : String → String → Bool
  pub lower : String → String
  pub strip : String → String

abbrev pub starts_with : String → String → Bool
starts_with prefix s = str_eq (take_chars (length_of prefix) s) prefix

abbrev pub ends_with : String → String → Bool
ends_with suffix s =
    leb (length_of suffix) (length_of s)
    && str_eq (drop_chars (length_of s - length_of suffix) s) suffix

-- `_extract_domain`
unfoldable pub extract_domain : Urls → String → String
extract_domain u url =
    let full = if u.within "://" url then url else str_append "https://" url in
    let host = or_default "" (u.hostname full) in
    u.lower (if starts_with "www." host then drop_chars 4 host else host)

abbrev pub default_blocked_domains : List String
default_blocked_domains =
    "pornhub.com" ∷ "xvideos.com" ∷ "xnxx.com" ∷ "xhamster.com" ∷ "malware-traffic-analysis.net"
    ∷ "accounts.google.com" ∷ "login.microsoftonline.com" ∷ "facebook.com/login"
    ∷ "twitter.com/login" ∷ "auth0.com" ∷ []

abbrev pub blocks : String → String → Bool
blocks domain blocked = str_eq domain blocked || ends_with (str_append "." blocked) domain

unfoldable pub blocked_by_default : String → Bool
blocked_by_default domain = is_some (first (blocks domain) default_blocked_domains)

abbrev pub is_allow : RuleType → Bool
is_allow allow = true
is_allow block = false

abbrev pub has_domain : String → String → DomainRule → Bool
has_domain owner_id domain r = str_eq r.owner_id owner_id && str_eq r.domain domain

abbrev pub allows_for : String → DomainRule → Bool
allows_for owner_id r = str_eq r.owner_id owner_id && is_allow r.rule_type

-- Whether a domain is allowed, and the reason.
abbrev pub Verdict : Type 0
Verdict = Result (Bool × String)

abbrev pub quoted : String → String → String
quoted domain rest = str_append "Domain '" (str_append domain (str_append "'" rest))

-- `ResourceClosedError`
abbrev pub closed_result : Exception
closed_result = other_error "This result object is closed."

-- A result of a query for one number, which a first reading closes.
pub data Reading : Type 0 where
  opened : ℕ → Reading
  closed : Reading

-- `result.scalar()`
unfoldable pub scalar : Reading → Result ℕ × Reading
scalar (opened n) = (ok n, closed)
scalar closed = (err closed_result, closed)

abbrev pub not_listed : String → Result ℕ → Verdict
not_listed domain (err e) = err e
not_listed domain (ok n) =
    if ltb 0 n then ok (false, quoted domain " is not in your allow list.") else ok (true, "")

-- `if allow_result.scalar() and allow_result.scalar() > 0:`, with what it returns.
abbrev pub test_twice : String → Result ℕ × Reading → Verdict
test_twice domain (err e, result) = err e
test_twice domain (ok n, result) =
    if ltb 0 n then not_listed domain (scalar result).0 else ok (true, "")

-- Where no rule names the domain: an owner with rules that allow has an allow list.
unfoldable pub unlisted : String → String → List DomainRule → Verdict
unfolding scalar
unlisted owner_id domain rules =
    test_twice domain (scalar (opened (count (allows_for owner_id) rules)))

abbrev pub by_rule : String → String → List DomainRule → Result (Option DomainRule) → Verdict
by_rule owner_id domain rules (err e) = err e
by_rule owner_id domain rules (ok (some r)) =
    if is_allow r.rule_type
    then ok (true, "")
    else ok (false, quoted domain " is in your block list.")
by_rule owner_id domain rules (ok none) = unlisted owner_id domain rules

unfoldable pub check_domain_allowed : Urls → String → String → List DomainRule → Verdict
check_domain_allowed u owner_id url rules =
    let domain = extract_domain u url in
    if is_blank domain
    then ok (false, "Invalid URL.")
    else if blocked_by_default domain
    then ok (false, quoted domain " is blocked by default policy.")
    else by_rule owner_id domain rules (one_or_none (select (has_domain owner_id domain) rules))

unfoldable pub create_domain_rule :
    Urls → String → String → String → RuleType → List DomainRule → DomainRule × List DomainRule
create_domain_rule u id owner_id domain rule_type rules =
    let host = extract_domain u domain in
    let r : DomainRule = record {
      id = id;
      owner_id = owner_id;
      domain = if is_blank host then u.strip (u.lower domain) else host;
      rule_type = rule_type;
    } in
    (r, rules ++ r ∷ [])

abbrev is_rule : String → String → DomainRule → Bool
is_rule rule_id owner_id r = str_eq r.id rule_id && str_eq r.owner_id owner_id

unfoldable pub delete_domain_rule : String → String → List DomainRule → Bool × List DomainRule
delete_domain_rule rule_id owner_id rules = elim (first (is_rule rule_id owner_id) rules) [
  | none ↦ (false, rules)
  | some r ↦ (true, delete_first (is_rule rule_id owner_id) rules)
]
