-- ===== src/Source/Receivers.antt =====
-- server/internal/source/source.go: the analyses at an offset, in the coordinates of the file. The
-- offset is taken into the script of a template, and what comes back is taken out of it.
use mathlib.Core.Option
use tcl_lsp_nvim.Base.{
  ℕ, ◌+◌, ◌-◌, List, [], ◌∷◌, Option, none, some, ◌==◌, if◌then◌else◌, Bytes, length, ◌>>=◌,
}
use tcl_lsp_nvim.Rvt.{Document, source_in, virtual_in, to_source, to_virtual, extract}
use tcl_lsp_nvim.Defs.{Definition}
use tcl_lsp_nvim.ObjMethod.{Found, obj_method_at}
use tcl_lsp_nvim.Reaching.Running.{reaching_at}
use tcl_lsp_nvim.ClassOf.{class_of}
use tcl_lsp_nvim.Source.{is_rvt, kept}

abbrev source_binding : Document → Definition → Option Definition
source_binding doc d =
    Option.map (λ s. record d { name_start = s; name_end = s + (d.name_end - d.name_start) })
      (to_source doc d.name_start)

unfoldable pub source_bindings : Document → List Definition → List Definition
unfolding source_in
source_bindings doc [] = []
source_bindings doc (d ∷ ds) = kept (source_binding doc d) (source_bindings doc ds)

-- `out, len(out) > 0`
abbrev pub answered : List Definition → Option (List Definition)
answered ds = if length ds == 0 then none else some ds

abbrev pub source_answer : Document → Option (List Definition) → Option (List Definition)
source_answer doc r = r >>= λ ds. answered (source_bindings doc ds)

-- An analysis at the place of the script that an offset of the template stands for; `d` if none.
abbrev pub at_virtual {ℓ} : {A : Type ℓ} → A → (ℕ → A) → Option ℕ → A
at_virtual d f none = d
at_virtual d f (some v) = f v

-- `none` is a panic, and `some none` is `ok == false`.
unfoldable pub reaching : Bytes → Bytes → ℕ → Option (Option (List Definition))
unfolding is_rvt extract virtual_in source_bindings reaching_at
reaching path content offset =
    let doc = extract content in
    if is_rvt path
    then at_virtual (some none) (λ v. Option.map (source_answer doc) (reaching_at doc.script v))
        (to_virtual doc offset)
    else reaching_at content offset

unfoldable pub classes_at : Bytes → Bytes → ℕ → Option (List Bytes)
unfolding is_rvt extract virtual_in class_of
classes_at path content offset =
    let doc = extract content in
    if is_rvt path
    then at_virtual (some []) (class_of doc.script) (to_virtual doc offset)
    else class_of content offset

abbrev source_found : Document → Found → Found
source_found doc r = r >>= λ (receiver, name). Option.map (λ s. (s, name)) (to_source doc receiver)

unfoldable pub method_call_at : Bytes → Bytes → ℕ → Found
unfolding is_rvt extract virtual_in source_in obj_method_at
method_call_at path content offset =
    let doc = extract content in
    if is_rvt path
    then at_virtual none (λ v. source_found doc (obj_method_at doc.script v))
        (to_virtual doc offset)
    else obj_method_at content offset
