-- ===== src/Files/Located.antt =====
-- Where the references and the folds of a file stand.
use mathlib.Core.Option
use mathlib.Core.List.{Memᴰ}
use tcl_lsp_nvim.Base.{
  ℕ, suc, ◌+◌, true, false, List, [], ◌∷◌, ◌≡◌, refl, sym, Option, some, Bytes, length, subst, All,
  All-append, All-map, All-mono, ◌⊎◌, ◌++◌, ◌∷◌, false,
}
use tcl_lsp_nvim.Parser.{Word, Command}
use tcl_lsp_nvim.Syntax.{Context, is_wrapped}
use tcl_lsp_nvim.Refs.{shift, sub_refs, command_refs, refs_of_command}
use tcl_lsp_nvim.Refs.Located.{IsRefAt, SubLocated}
use tcl_lsp_nvim.Refs.Scripts.{command_refs-All, shift-IsRefAt, subst_refs-SubLocated}
use tcl_lsp_nvim.Walk.Scripts.{IsMet}
use tcl_lsp_nvim.Walk.Rules.{walk_body-keeps}
use tcl_lsp_nvim.Files.{
  ContextRef, FileIndex, Collectors, context_refs, collector, walk_all, nothing_yet, file_refs,
  FoldRange,
}

abbrev pub IsContextRefAt : Bytes → ContextRef → Type 0
IsContextRefAt src r = IsRefAt src r.ref

sub_refs-SubLocated : (src : Bytes) → SubLocated src sub_refs
unfolding sub_refs
sub_refs-SubLocated src text pos l = subst_refs-SubLocated (suc (length text)) src text pos l

context_refs-All :
    (src : Bytes) (c : Command) (base : ℕ) (cx : Context)
    → IsMet src c base
    → All (IsContextRefAt src) (context_refs c base cx)
unfolding refs_of_command
context_refs-All src c base cx m =
    All-map (IsContextRefAt src) (λ r. record { ref = shift base r; context = cx })
      (command_refs sub_refs c)
      (All-mono (IsRefAt m.text) (λ r. IsRefAt src (shift base r)) (command_refs sub_refs c)
        (λ r. shift-IsRefAt src base m.text r m.located)
        (command_refs-All m.text sub_refs c (sub_refs-SubLocated m.text) m.words))

abbrev refs_alone : Collectors
refs_alone = record { defs = false; refs = true; ns = false; classes = false }

-- A walk so far that has not ended in a panic, with its references in place.
abbrev KeepsRefs : Bytes → Option FileIndex → Type 0
KeepsRefs src s = (fi : FileIndex) × (s ≡ some fi) × All (IsContextRefAt src) fi.refs

collect-KeepsRefs :
    (src : Bytes) (c : Command) (base : ℕ) (cx : Context) (s : Option FileIndex)
    → IsMet src c base
    → KeepsRefs src s
    → KeepsRefs src ((collector refs_alone).command c base cx s)
unfolding Option.bind
collect-KeepsRefs src c base cx s m (fi, e, h) =
    subst (λ s. KeepsRefs src ((collector refs_alone).command c base cx s)) (sym e)
      (
        _,
        refl,
        All-append (IsContextRefAt src) fi.refs (context_refs c base cx) h
            (context_refs-All src c base cx m),
      )

-- The reference analysis of every text ends with a result, and each reference in it, however
-- deep in bodies and substitutions, has a range inside the text whose bytes spell its name:
-- the name itself for a command, $name or ${name} for a variable.
pub file_refs-IsRefAt :
    (src : Bytes)
    → (refs : List ContextRef) × (file_refs src ≡ some refs) × All (IsContextRefAt src) refs
unfolding walk_all
file_refs-IsRefAt src =
    let (fi, e, h) =
      walk_body-keeps (collector refs_alone) src (KeepsRefs src) (collect-KeepsRefs src)
        (λ c base cx b s met m p. p) (some nothing_yet) (nothing_yet, refl, tt) in
    (fi.refs, rw e refl, h)

-- The ends of a fold and the word that it folds: where the word's text is between braces, the fold ends at
-- the word's last byte, its closing brace; else one byte behind its start.
abbrev pub IsClosed : FoldRange → Bytes → Type 0
IsClosed f text =
    ((inner : Bytes) × (text ≡ b'{' ∷ inner ++ b'}' ∷ [])
      × (f.closing ≡ f.opening + 1 + length inner))
    ⊎ ((is_wrapped text ≡ false) × (f.closing ≡ f.opening + 1))

-- A fold: of a word of a command of the file, from where the word starts.
pub record IsFoldAt (src : Bytes) (f : FoldRange) : Type 0 where
  pub command : Command
  pub base : ℕ
  pub met : IsMet src command base
  pub word : Word
  pub among : Memᴰ word command
  pub opens : f.opening ≡ base + word.start
  pub closes : IsClosed f word.text
