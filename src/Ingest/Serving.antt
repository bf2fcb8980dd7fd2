-- ===== src/Ingest/Serving.antt =====
-- `serve_storage_file` of apps/ai/app/routers/knowledge.py: a file of the storage, by its path. The file
-- system is a parameter: the resolved path of the base joined with a path, and the bytes of a file.
use Prim.Native.String.{◌++◌}
use Prim.Native.Char.{Char}
use text.Mathlib.TextLemmas.{
  cons-append, append-nil, append_cancel_left, cons-ne-nil, head-eq_of_cons-eq,
}
use replica_ai.Common.{
  ℕ, ◌≡◌, ◌≢◌, refl, ap, sym, ◌∙◌, String, Bool, true, false, not, Option, none, some, str_eq,
  eq_iff, if◌then◌else◌,
}
use replica_ai.Common.Text.{take_chars, length_of}

pub data Served (Bytes : Type 0) : Type 0 where
  content : Bytes → Served Bytes
  refused : ℕ → Served Bytes

pub record Disk : Type 1 where
  pub Bytes : Type 0
  -- `(base / path).resolve()`
  pub resolve : String → String
  -- `(base / path).read_bytes()`, where it does not raise.
  pub read : String → Option Bytes

-- `str(target).startswith(str(base))`
unfoldable pub starts_with : String → String → Bool
starts_with base target = str_eq (take_chars (length_of base) target) base

-- `base` is the resolved path of the storage.
unfoldable pub serve_storage_file : (d : Disk) → String → String → Served d.Bytes
serve_storage_file d base path =
    if not (starts_with base (d.resolve path))
    then refused 400
    else elim (d.read path) [ none ↦ refused 404 | some bytes ↦ content bytes ]

take_chars-append : (s t : String) → take_chars (length_of s) (s ++ t) ≡ s
take_chars-append String.[] t = refl
take_chars-append (String.◌∷◌ c s) t =
    rw (cons-append c s t) (ap (String.◌∷◌ c) (take_chars-append s t))

starts_with-append : (base rest : String) → starts_with base (base ++ rest) ≡ true
unfolding starts_with
starts_with-append base rest =
    (eq_iff (take_chars (length_of base) (base ++ rest)) base).1 (take_chars-append base rest)

abbrev pub slash : Char
slash = "/"

-- A path of the storage: the storage itself, or what stands under it.
pub data Within (base : String) (target : String) : Type 0 where
  itself : target ≡ base → Within base target
  under : (rest : String) → target ≡ base ++ String.◌∷◌ slash rest → Within base target

beside :
    (base : String) (c : Char) (rest : String)
    → c ≢ slash
    → ¬ Within base (base ++ String.◌∷◌ c rest)
beside base c rest apart (itself e) =
    cons-ne-nil c rest (append_cancel_left base _ _ (e ∙ sym (append-nil base)))
beside base c rest apart (under other e) =
    apart (head-eq_of_cons-eq (append_cancel_left base _ _ e))

-- The guard refuses a path whose target does not begin with the storage's path, and lets pass one
-- that leaves the storage for a file or directory beside it, whose name goes on after that of the
-- storage with another character than a slash: that path is not within the storage, and a file that
-- is there is served.
pub sibling_served :
    (d : Disk) (base path outside rest : String) (c : Char) (bytes : d.Bytes)
    → d.resolve path ≡ base ++ String.◌∷◌ c rest
    → c ≢ slash
    → d.read path ≡ some bytes
    → starts_with base (d.resolve outside) ≡ false
    → (¬ Within base (d.resolve path))
      × (serve_storage_file d base path ≡ content bytes)
      × (serve_storage_file d base outside ≡ refused 400)
unfolding serve_storage_file
sibling_served d base path outside rest c bytes resolved apart found away = (
  rw resolved (beside base c rest apart),
  rw (resolved, starts_with-append base (String.◌∷◌ c rest), found) refl,
  rw away refl,
)
