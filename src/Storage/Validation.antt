-- ===== src/Storage/Validation.antt =====
-- The tests of `store` in backend/app/storage/service.py on its request. The types of `owner`,
-- `chunks` and a negative `expected_bytes` need no test here: they are UUIDs, bytes and naturals.
use Prim.Native.Char.{code}
use fillable.Common.{
  ℕ, String, Bool, true, false, not, ◌&&◌, ◌||◌, Option, none, some, List, [], ◌∷◌, ltb, leb, ◌==◌,
  str_eq, length,
}
use fillable.Storage.Service.{Policy}
use fillable.Storage.Reserving.{Request}
use fillable.Storage.Schema.{purposes}

abbrev pub codes : String → List ℕ
codes String.[] = []
codes (String.◌∷◌ c s) = code c ∷ codes s

-- The white space of Python's `str.strip`.
abbrev within : ℕ → ℕ → ℕ → Bool
within lo hi c = leb lo c && leb c hi

is_space : ℕ → Bool
is_space c =
    within 9 13 c
    || within 28 32 c
    || c == 133
    || c == 160
    || c == 5760
    || within 8192 8202 c
    || within 8232 8233 c
    || c == 8239
    || c == 8287
    || c == 12288

-- `not key.strip()`
is_blank : List ℕ → Bool
unfolding is_space
is_blank [] = true
is_blank (c ∷ cs) = is_space c && is_blank cs

is_hex : List ℕ → Bool
is_hex [] = true
is_hex (c ∷ cs) = (within b'0' b'9' c || within b'a' b'f' c) && is_hex cs

one_of : String → List String → Bool
one_of s [] = false
one_of s (p ∷ ps) = str_eq s p || one_of s ps

unfoldable pub invalid : Request → Bool
unfolding is_blank is_hex one_of
invalid request =
    is_blank (codes request.key)
    || ltb 128 (length (codes request.key))
    || not (length (codes request.fingerprint) == 64 && is_hex (codes request.fingerprint))
    || not (one_of request.purpose purposes)

abbrev pub too_large : Policy → Option ℕ → Bool
too_large policy none = false
too_large policy (some n) = ltb policy.file_bytes n
