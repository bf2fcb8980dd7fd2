-- ===== src/Ingest/Slices.antt =====
-- Laws of slices of texts, for the chunks of apps/ai/app/services/knowledge.py.
use Prim.Native.String.{◌++◌}
use text.Mathlib.TextLemmas.{nil-append, cons-append}
use native.Mathlib.Numerals.{unary_clauses}
use replica_ai.Common.{ℕ, zero, suc, ◌+◌, ◌-◌, ◌≤◌, ◌≡◌, refl, ap, ◌∙◌, arith, String}
use replica_ai.Common.Text.{take_chars, drop_chars, length_of}

add_zero : (m : ℕ) → m ≡ 0 + m
add_zero m = omega arith

suc_add : (n m : ℕ) → suc (n + m) ≡ suc n + m
suc_add n m = omega arith

pub drop_chars-drop_chars :
    (m n : ℕ) (s : String) → drop_chars m (drop_chars n s) ≡ drop_chars (n + m) s
drop_chars-drop_chars m zero s = ap (λ k. drop_chars k s) (add_zero m)
drop_chars-drop_chars zero (suc n) String.[] = simp unary_clauses refl
drop_chars-drop_chars (suc m) (suc n) String.[] = simp unary_clauses refl
drop_chars-drop_chars m (suc n) (String.◌∷◌ c s) =
    drop_chars-drop_chars m n s ∙ ap (λ k. drop_chars k (String.◌∷◌ c s)) (suc_add n m)

pub length_of-drop_chars : (n : ℕ) (s : String) → length_of (drop_chars n s) ≡ length_of s - n
length_of-drop_chars zero s = omega arith
length_of-drop_chars (suc n) String.[] = omega arith
length_of-drop_chars (suc n) (String.◌∷◌ c s) = omega (arith, length_of-drop_chars n s)

pub length_of-take_chars : (n : ℕ) (s : String) → length_of (take_chars n s) ≤ n
length_of-take_chars zero s = omega arith
length_of-take_chars (suc n) String.[] = omega arith
length_of-take_chars (suc n) (String.◌∷◌ c s) = omega (arith, length_of-take_chars n s)

pub take_chars-all : (n : ℕ) (s : String) → length_of s ≤ n → take_chars n s ≡ s
take_chars-all zero String.[] h = refl
take_chars-all zero (String.◌∷◌ c s) h = ground arith
take_chars-all (suc n) String.[] h = refl
take_chars-all (suc n) (String.◌∷◌ c s) h = ap (String.◌∷◌ c) (take_chars-all n s (omega arith))

pub drop_chars-all : (n : ℕ) (s : String) → length_of s ≤ n → drop_chars n s ≡ String.[]
drop_chars-all zero String.[] h = refl
drop_chars-all zero (String.◌∷◌ c s) h = ground arith
drop_chars-all (suc n) String.[] h = refl
drop_chars-all (suc n) (String.◌∷◌ c s) h = drop_chars-all n s (omega arith)

-- A slice from `m` to `n`, and what follows it.
pub slice_append :
    (m n : ℕ) (s : String)
    → m ≤ n
    → drop_chars m (take_chars n s) ++ drop_chars n s ≡ drop_chars m s
slice_append zero zero s h = nil-append s
slice_append zero (suc n) String.[] h = nil-append ""
slice_append zero (suc n) (String.◌∷◌ c s) h =
    cons-append c (take_chars n s) (drop_chars n s)
    ∙ ap (String.◌∷◌ c) (slice_append zero n s (omega arith))
slice_append (suc m) zero s h = ground arith
slice_append (suc m) (suc n) String.[] h = nil-append ""
slice_append (suc m) (suc n) (String.◌∷◌ c s) h = slice_append m n s (omega arith)
