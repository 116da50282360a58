-- ===== src/ObjMethod/Calls.antt =====
-- What `ObjMethodAt` finds stands in the source: a lone `$var`, and the method's word round the offset.
use tcl_lsp_nvim.Base.{
  ℕ, ◌+◌, ◌≤◌, ◌<◌, true, ◌≡◌, arith, Bytes, length, take, drop, length-take, IfSome,
}
use tcl_lsp_nvim.Parser.{Word}
use tcl_lsp_nvim.Located.{Located, Located-drop, Located-take}
use tcl_lsp_nvim.Bodies.{Body}
use tcl_lsp_nvim.Refs.{bracket_interior}
use tcl_lsp_nvim.ObjMethod.{Found, is_lone_var}

-- `$var method` in `src`, with the offset in the method's word: a word that is one `$` reference, whose
-- name starts at `receiver`, and the literal word `name`.
pub record IsCallAt (src : Bytes) (offset receiver : ℕ) (name : Bytes) : Type 0 where
  pub head : Word
  pub head_at : ℕ
  pub lone : is_lone_var head ≡ true
  pub head_located : Located src head_at head.text
  pub behind_dollar : receiver ≡ head_at + 1
  pub name_at : ℕ
  pub name_located : Located src name_at name
  pub starts : name_at ≤ offset
  pub ends : offset < name_at + length name

pub bracket_interior-Located :
    (src : Bytes) (pos n : ℕ) (s : Bytes)
    → 0 < n
    → n ≤ length s
    → Located src pos s
    → Located src (pos + 1) (bracket_interior (take n s))
bracket_interior-Located src pos n s h le l = Located-take src (pos + 1) _ (drop 1 (take n s)) (
    Located-drop src pos 1 (take n s) (omega (arith, length-take n s le))
      (Located-take src pos n s l))

module _ (src : Bytes) (offset : ℕ) where
  abbrev FindsCall : Found → Type 0
  FindsCall = IfSome (λ p. IsCallAt src offset p.0 p.1)

  -- A search that is right for every body of the source.
  abbrev Searches : (Body → Found) → Type 0
  Searches rec = (b : Body) → Located src b.base b.inner → FindsCall (rec b)
