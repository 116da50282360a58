-- ===== src/Lsp/Documents/Gone.antt =====
-- server/internal/lsp/server.go: the paths whose files were reported deleted.
use tcl_lsp_nvim.Base.{
  one_of, arith, true, false, List, [], ◌∷◌, ◌≡◌, Option, none, some, if◌then◌else◌, Bytes, eql,
  eql_iff,
}
use tcl_lsp_nvim.Lsp.Documents.{Change, created, changed, deleted}

unfoldable pub without : Bytes → List Bytes → List Bytes
unfolding eql
without p [] = []
without p (q ∷ paths) = let rest = without p paths in if eql p q then rest else q ∷ rest

pub one_of-without :
    (q p : Bytes) (paths : List Bytes)
    → one_of q (without p paths) ≡ (if eql p q then false else one_of q paths)
unfolding without one_of
one_of-without q p [] = ground arith
one_of-without q p (r ∷ paths) =
    ground (arith, one_of-without q p paths, eql_iff p r, eql_iff q r, eql_iff p q)

pub one_of-head : (p q : Bytes) (paths : List Bytes) → eql p q ≡ true → one_of q (p ∷ paths) ≡ true
unfolding one_of
one_of-head p q paths e = ground (arith, eql_iff p q, eql_iff q p)

pub one_of-tail :
    (p q : Bytes) (paths : List Bytes) → one_of q paths ≡ true → one_of q (p ∷ paths) ≡ true
unfolding one_of
one_of-tail p q paths e = ground arith

-- The paths gone behind a change of one of them.
abbrev pub gone_by : Bytes → Change → List Bytes → List Bytes
gone_by path deleted gone = path ∷ gone
gone_by path _ gone = gone

pub one_of-gone_by :
    (p path : Bytes) (c : Change) (gone : List Bytes)
    → one_of p gone ≡ true
    → one_of p (gone_by path c gone) ≡ true
one_of-gone_by p path (created read) gone h = h
one_of-gone_by p path (changed read) gone h = h
one_of-gone_by p path deleted gone h = one_of-tail path p gone h

-- A path is stored again where a document's text is set.
abbrev pub gone_if_set : Bytes → Option Bytes → List Bytes → List Bytes
gone_if_set path none gone = gone
gone_if_set path (some text) gone = without path gone
