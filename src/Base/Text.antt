-- ===== src/Base/Text.antt =====
-- Go strings as lists of bytes, and the functions of package strings that the source calls.
use Prim.Native.Nat.{ℕ, suc}
use Prim.Native.Char.{code}
use Prim.Native.String.{String}
use mathlib.Core.Path.{◌≡◌, refl}
use mathlib.Core.Logic.{◌↔◌}
use mathlib.Core.Bool.{Bool, true, false, ◌&&◌, ◌||◌}
use mathlib.Core.List.{List, [], ◌∷◌, ◌++◌}
use mathlib.Core.Option
use mathlib.Core.Option.{Option, none, some}
use native.Mathlib.Omega.{arith}
use tcl_lsp_nvim.Base.Tests.{◌==◌, if◌then◌else◌}

abbrev pub Bytes : Type 0
Bytes = List ℕ

-- The code points of a literal; every literal of the source that is used here is ASCII.
abbrev pub codes : String → Bytes
codes String.[] = []
codes (String.◌∷◌ c s) = code c ∷ codes s

-- `a == b` on strings.
unfoldable pub eql : Bytes → Bytes → Bool
eql [] [] = true
eql (x ∷ xs) (y ∷ ys) = x == y && eql xs ys
eql _ _ = false

pub eql_iff : (a b : Bytes) → (eql a b ≡ true) ↔ (a ≡ b)
unfolding eql
eql_iff (x ∷ a) (y ∷ b) = ground (arith, eql_iff a b)
eql_iff _ _ = ground arith

pub eql_refl : (a : Bytes) → eql a a ≡ true
eql_refl a = (eql_iff a a).1 refl

-- `strings.HasPrefix(s, p)`
unfoldable pub has_prefix : Bytes → Bytes → Bool
has_prefix s [] = true
has_prefix [] (p ∷ ps) = false
has_prefix (c ∷ s) (p ∷ ps) = c == p && has_prefix s ps

-- `strings.Index(s, sep)`, with `none` for -1.
unfoldable pub index_of : Bytes → Bytes → Option ℕ
unfolding has_prefix
index_of [] sep = if has_prefix [] sep then some 0 else none
index_of (c ∷ s) sep = if has_prefix (c ∷ s) sep then some 0 else Option.map suc (index_of s sep)

-- `strings.LastIndex(s, sep)`, with `none` for -1.
unfoldable pub last_index_of : Bytes → Bytes → Option ℕ
unfolding has_prefix
last_index_of [] sep = if has_prefix [] sep then some 0 else none
last_index_of (c ∷ s) sep = later (last_index_of s sep)
  where
    later : Option ℕ → Option ℕ
    later (some i) = some (suc i)
    later none = if has_prefix (c ∷ s) sep then some 0 else none

-- Whether `s` is one of `names`: a switch over strings, or a Go set of them.
unfoldable pub one_of : Bytes → List Bytes → Bool
unfolding eql
one_of s [] = false
one_of s (n ∷ names) = eql s n || one_of s names

-- A set of strings, in the order in which its members came.
abbrev pub see : Bytes → List Bytes → List Bytes
see s seen = if one_of s seen then seen else seen ++ s ∷ []
