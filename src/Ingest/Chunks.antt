-- ===== src/Ingest/Chunks.antt =====
-- `KnowledgeIngestor._chunk_text` in apps/ai/app/services/knowledge.py: a long text is cut into
-- chunks of 2,000 characters, each of which begins 200 characters before the end of the one before.
-- The loop runs on fuel; the length of the text is enough, since each round moves on.
use Prim.Native.String.{◌++◌ as str_append}
use replica_ai.Common.{
  ℕ, zero, suc, ◌+◌, ◌-◌, ◌≤◌, ◌<◌, ◌≡◌, refl, ap, ◌∙◌, sym, arith, String, List, [], ◌∷◌, All, ltb,
  Bool-cases, inl, inr, leb→le, true, false, leb, if◌then◌else◌,
}
use replica_ai.Common.Text.{take_chars, drop_chars, length_of}
use replica_ai.Ingest.Slices.{
  drop_chars-drop_chars, length_of-take_chars, slice_append, drop_chars-all,
}
use text.Mathlib.TextLemmas.{append-nil}

abbrev pub chunk_size : ℕ
chunk_size = 2000

abbrev pub chunk_overlap : ℕ
chunk_overlap = 200

-- The loop from the character `start` on.
unfoldable pub chunks_from : ℕ → String → ℕ → List String
chunks_from zero text start = []
chunks_from (suc fuel) text start =
    let rest = chunks_from fuel text (start + chunk_size - chunk_overlap) in
    if ltb start (length_of text) then take_chars chunk_size (drop_chars start text) ∷ rest else []

unfoldable pub chunk_text : String → List String
chunk_text text =
    if leb (length_of text) chunk_size then text ∷ [] else chunks_from (length_of text) text 0

-- The chunks put together again, without the overlaps.
abbrev pub glue_rest : List String → String
glue_rest [] = ""
glue_rest (c ∷ cs) = str_append (drop_chars chunk_overlap c) (glue_rest cs)

abbrev pub glue : List String → String
glue [] = ""
glue (c ∷ cs) = str_append c (glue_rest cs)

ltb-false : (a b : ℕ) → ltb a b ≡ false → b ≤ a
ltb-false a b h = ground arith

leb-false : (a b : ℕ) → leb a b ≡ false → b < a
leb-false a b h = ground arith

lt→ltb : (a b : ℕ) → a < b → ltb a b ≡ true
lt→ltb a b h = ground arith

next_start : (start f n : ℕ) → n ≤ start + suc f → n ≤ start + chunk_size - chunk_overlap + f
next_start start f n h = omega arith

-- The loop does not depend on the fuel, once this is the number of the characters that are left:
-- with that many rounds it has come to its end.
pub chunks_from_enough :
    (f g : ℕ) (text : String) (start : ℕ)
    → length_of text ≤ start + f
    → length_of text ≤ start + g
    → chunks_from f text start ≡ chunks_from g text start
unfolding chunks_from
chunks_from_enough zero zero text start h k = refl
chunks_from_enough zero (suc g) text start h k = ground arith
chunks_from_enough (suc f) zero text start h k = ground arith
chunks_from_enough (suc f) (suc g) text start h k =
    rw
      (chunks_from_enough f g text (start + chunk_size - chunk_overlap)
        (next_start start f (length_of text) h) (next_start start g (length_of text) k))
      refl

-- A chunk without its overlap, and what follows the chunk.
chunk_append :
    (text : String) (start : ℕ)
    → str_append
        (drop_chars chunk_overlap (take_chars chunk_size (drop_chars start text)))
        (drop_chars (start + chunk_size) text)
      ≡ drop_chars (start + chunk_overlap) text
chunk_append text start = rw (sym (drop_chars-drop_chars chunk_size start text)) (
    slice_append chunk_overlap chunk_size (drop_chars start text) (omega arith)
    ∙ drop_chars-drop_chars chunk_overlap start text)

moved : (start : ℕ) → start + chunk_size - chunk_overlap + chunk_overlap ≡ start + chunk_size
moved start = omega arith

glue_rest-chunks_from :
    (f : ℕ) (text : String) (start : ℕ)
    → length_of text ≤ start + f
    → glue_rest (chunks_from f text start) ≡ drop_chars (start + chunk_overlap) text
unfolding chunks_from
glue_rest-chunks_from zero text start h =
    sym (drop_chars-all (start + chunk_overlap) text (omega arith))
glue_rest-chunks_from (suc f) text start h =
    let next =
      glue_rest-chunks_from f text (start + chunk_size - chunk_overlap)
        (next_start start f (length_of text) h)
      ∙ ap (λ k. drop_chars k text) (moved start) in
    elim (Bool-cases (ltb start (length_of text))) [
      | inl more ↦ rw (more, next) (chunk_append text start)
      | inr over ↦
          let ended = ltb-false start (length_of text) over in
          rw over (sym (drop_chars-all (start + chunk_overlap) text (omega arith)))
    ]

glue-long :
    (f : ℕ) (text : String)
    → chunk_size < length_of text
    → length_of text ≤ f
    → glue (chunks_from f text 0) ≡ text
unfolding chunks_from
glue-long zero text long h = ground arith
glue-long (suc f) text long h =
    let next = glue_rest-chunks_from f text (chunk_size - chunk_overlap) (omega arith) in
    rw (lt→ltb 0 (length_of text) (omega arith), next)
      (slice_append 0 chunk_size text (omega arith))

-- No character of a text is lost or changed: its chunks, put together without the overlaps, are
-- the text.
pub glue-chunk_text : (text : String) → glue (chunk_text text) ≡ text
unfolding chunk_text
glue-chunk_text text = elim (Bool-cases (leb (length_of text) chunk_size)) [
  | inl short ↦ rw short (append-nil text)
  | inr long ↦
      let above = leb-false (length_of text) chunk_size long in
      rw long (glue-long (length_of text) text above (omega arith))
]

-- What embeddings are made of: a chunk has at most 2,000 characters.
abbrev pub IsChunk : String → Type 0
IsChunk c = length_of c ≤ chunk_size

chunks_from-All : (f : ℕ) (text : String) (start : ℕ) → All IsChunk (chunks_from f text start)
unfolding chunks_from
chunks_from-All zero text start = tt
chunks_from-All (suc f) text start =
    let rest = chunks_from-All f text (start + chunk_size - chunk_overlap) in
    let here = length_of-take_chars chunk_size (drop_chars start text) in
    elim (Bool-cases (ltb start (length_of text))) [
      | inl more ↦ rw more (here, rest)
      | inr over ↦ rw over tt
    ]

-- Every chunk of a text has at most 2,000 characters.
pub chunk_text-All : (text : String) → All IsChunk (chunk_text text)
unfolding chunk_text
chunk_text-All text = elim (Bool-cases (leb (length_of text) chunk_size)) [
  | inl short ↦ rw short (leb→le (length_of text) chunk_size short, tt)
  | inr long ↦ rw long (chunks_from-All (length_of text) text 0)
]
