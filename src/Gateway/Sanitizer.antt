-- ===== src/Gateway/Sanitizer.antt =====
-- `ExternalRequestSanitizer` of apps/api/app/services/external_llm.py. The substitution of a regular
-- expression, the test `x in y` and `str.replace` are parameters.
use replica_ai.Common.{
  String, Bool, true, false, Option, List, [], ◌∷◌, ◌++◌, str_eq, truthy, or_default, ltb,
  if◌then◌else◌, map, select,
}
use replica_ai.Common.Text.{length_of}

pub data Pattern : Type 0 where
  email phone ssn credit_card ip : Pattern

pub record Texts : Type 0 where
  -- `pattern.sub(replacement, text)`
  pub substitute : Pattern → String → String → String
  pub within : String → String → Bool
  -- `text.replace(original, replacement)`
  pub replace : String → String → String → String

pub record Redaction : Type 0 where
  pub pattern : Pattern
  pub replacement : String

abbrev redaction : Pattern → String → Redaction
redaction pattern replacement = record { pattern = pattern; replacement = replacement }

abbrev pub patterns : List Redaction
patterns =
    redaction email "[EMAIL_REDACTED]"
    ∷ redaction phone "[PHONE_REDACTED]"
    ∷ redaction ssn "[SSN_REDACTED]"
    ∷ redaction credit_card "[CARD_REDACTED]"
    ∷ redaction ip "[IP_REDACTED]"
    ∷ []

-- A name, and what stands for it.
pub record Replacement : Type 0 where
  pub original : String
  pub placeholder : String

abbrev pub owner_replacements : Option String → List Replacement
owner_replacements owner_name =
    if truthy owner_name
    then record { original = or_default "" owner_name; placeholder = "[OWNER_NAME]" } ∷ []
    else []

module _ (t : Texts) where
  open t use {substitute, within, replace}

  abbrev pub redact_all : List Redaction → String × Bool → String × Bool
  redact_all [] r = r
  redact_all (p ∷ rest) (text, modified) =
      let new = substitute p.pattern p.replacement text in
      redact_all rest (if str_eq new text then (text, modified) else (new, true))

  abbrev pub replace_all : List Replacement → String × Bool → String × Bool
  replace_all [] r = r
  replace_all (p ∷ rest) (text, modified) = replace_all rest (
      if within p.original text
      then (replace p.original p.placeholder text, true)
      else (text, modified))

  -- The text, and whether it was modified.
  unfoldable pub sanitize : List Replacement → String → String × Bool
  sanitize replacements text = replace_all replacements (redact_all patterns (text, false))

-- `add_personal_names`: names of more than two characters.
unfoldable pub add_personal_names : List String → List Replacement → List Replacement
add_personal_names names replacements =
    replacements
    ++ map (λ name. record { original = name; placeholder = "[PERSON_NAME]" })
        (select (λ name. ltb 2 (length_of name)) names)
