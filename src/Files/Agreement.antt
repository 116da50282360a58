-- ===== src/Files/Agreement.antt =====
-- `FileAll` against the analyses that collect one thing each.
use mathlib.Core.Option
use tcl_lsp_nvim.Base.{
  ℕ, Bool, true, false, List, [], ◌≡◌, refl, sym, ap, Option, some, none, if◌then◌else◌, Bytes,
  subst,
}
use tcl_lsp_nvim.Parser.{Command}
use tcl_lsp_nvim.Syntax.{Context}
use tcl_lsp_nvim.Defs.{Definition}
use tcl_lsp_nvim.Decls.{Namespaces, Classes}
use tcl_lsp_nvim.Walk.{file_body}
use tcl_lsp_nvim.Walk.Rules.{walk_body-relates}
use tcl_lsp_nvim.Files.{
  ContextRef, FileIndex, Collectors, collect, collected_defs, collected_refs, collected_ns,
  collected_classes, collector, walk_all, nothing_yet, file_all, file_defs, file_refs,
  file_namespaces, file_classes,
}

abbrev everything : Collectors
everything = record { defs = true; refs = true; ns = true; classes = true }

-- What the collectors of `k` gather of an index.
abbrev keep : Collectors → FileIndex → FileIndex
keep k fi = record {
  defs = if k.defs then fi.defs else [];
  refs = if k.refs then fi.refs else [];
  namespaces = if k.ns then fi.namespaces else [];
  classes = if k.classes then fi.classes else [];
}

-- The full walk so far against one with the collectors of `k`: a panic shows where definitions are.
abbrev Agrees : Collectors → Option FileIndex → Option FileIndex → Type 0
Agrees k none t = k.defs ≡ true → t ≡ none
Agrees k (some fi) t = t ≡ some (keep k fi)

abbrev DefsAgree : Bool → Option (List Definition) → Option (List Definition) → Type 0
DefsAgree on none t = on ≡ true → t ≡ none
DefsAgree on (some ds) t = t ≡ some (if on then ds else [])

DefsAgree-same : (o : Option (List Definition)) → DefsAgree true o o
DefsAgree-same none = λ _. refl
DefsAgree-same (some ds) = refl

DefsAgree-off : (o : Option (List Definition)) → DefsAgree false o (some [])
DefsAgree-off none = λ e. cc
DefsAgree-off (some ds) = refl

collected_defs-DefsAgree :
    (on : Bool) (c : Command) (base : ℕ) (cx : Context) (defs : List Definition)
    → DefsAgree on
        (collected_defs true c base cx defs)
        (collected_defs on c base cx (if on then defs else []))
collected_defs-DefsAgree true c base cx defs = DefsAgree-same (collected_defs true c base cx defs)
collected_defs-DefsAgree false c base cx defs = DefsAgree-off (collected_defs true c base cx defs)

refs_if :
    (on : Bool) (c : Command) (base : ℕ) (cx : Context) (refs : List ContextRef)
    → collected_refs on c base cx (if on then refs else [])
      ≡ (if on then collected_refs true c base cx refs else [])
refs_if true c base cx refs = refl
refs_if false c base cx refs = refl

ns_if :
    (on : Bool) (c : Command) (cx : Context) (m : Namespaces)
    → collected_ns on c cx (if on then m else []) ≡ (if on then collected_ns true c cx m else [])
ns_if true c cx m = refl
ns_if false c cx m = refl

classes_if :
    (on : Bool) (c : Command) (cx : Context) (m : Classes)
    → collected_classes on c cx (if on then m else [])
      ≡ (if on then collected_classes true c cx m else [])
classes_if true c cx m = refl
classes_if false c cx m = refl

-- An index put together from its definitions, if there are any.
abbrev index_of_defs : Collectors → Command → ℕ → Context → FileIndex → List Definition → FileIndex
index_of_defs k c base cx fi defs = record {
  defs = defs;
  refs = collected_refs k.refs c base cx fi.refs;
  namespaces = collected_ns k.ns c cx fi.namespaces;
  classes = collected_classes k.classes c cx fi.classes;
}

index_of_defs-Agrees :
    (k : Collectors) (c : Command) (base : ℕ) (cx : Context) (fi : FileIndex)
    (o t : Option (List Definition))
    → DefsAgree k.defs o t
    → Agrees k
        (Option.map (index_of_defs everything c base cx fi) o)
        (Option.map (index_of_defs k c base cx (keep k fi)) t)
index_of_defs-Agrees k c base cx fi none t h =
    λ e. ap (Option.map (index_of_defs k c base cx (keep k fi))) (h e)
index_of_defs-Agrees k c base cx fi (some ds) t h =
    rw
      (
        h,
        refs_if k.refs c base cx fi.refs,
        ns_if k.ns c cx fi.namespaces,
        classes_if k.classes c cx fi.classes,
      )
      refl

collect-Agrees :
    (k : Collectors) (c : Command) (base : ℕ) (cx : Context) (s t : Option FileIndex)
    → Agrees k s t
    → Agrees k ((collector everything).command c base cx s) ((collector k).command c base cx t)
unfolding Option.bind
collect-Agrees k c base cx none t h = λ e. ap (λ t. Option.bind t (collect k c base cx)) (h e)
collect-Agrees k c base cx (some fi) t h =
    subst (λ t. Agrees k (collect everything c base cx fi) (Option.bind t (collect k c base cx)))
      (sym h)
      (index_of_defs-Agrees k c base cx fi _ _ (collected_defs-DefsAgree k.defs c base cx fi.defs))

nil_if : {A : Type 0} → (on : Bool) → ◌≡◌ {A = List A} (if on then [] else []) []
nil_if true = refl
nil_if false = refl

nothing_yet-Agrees : (k : Collectors) → Agrees k (some nothing_yet) (some nothing_yet)
nothing_yet-Agrees k = rw (nil_if k.defs, nil_if k.refs, nil_if k.ns, nil_if k.classes) refl

-- The walk with the collectors of `k` gathers what the full walk gathers, for every `k`.
pub walk_all-Agrees : (k : Collectors) (src : Bytes) → Agrees k (file_all src) (walk_all k src)
unfolding walk_all
walk_all-Agrees k src =
    walk_body-relates (collector everything) (collector k) (Agrees k) (collect-Agrees k)
      (λ b s t r. r) (file_body src) (some nothing_yet) (some nothing_yet) (nothing_yet-Agrees k)

agreed :
    (k : Collectors) (src : Bytes) (fi : FileIndex)
    → file_all src ≡ some fi
    → walk_all k src ≡ some (keep k fi)
agreed k src fi e = subst (λ s. Agrees k s (walk_all k src)) e (walk_all-Agrees k src)

-- Where the full analysis of a text has a result, each of its four fields is the result of the
-- analysis that collects that field alone.
pub file_all-fields :
    (src : Bytes) (fi : FileIndex)
    → file_all src ≡ some fi
    → (file_defs src ≡ some fi.defs)
      × (file_refs src ≡ some fi.refs)
      × (file_namespaces src ≡ some fi.namespaces)
      × (file_classes src ≡ some fi.classes)
file_all-fields src fi e =
    let go = λ (k : Collectors). agreed k src fi e in
    (
      ap (Option.map (λ fi. fi.defs)) (go _),
      ap (Option.map (λ fi. fi.refs)) (go _),
      ap (Option.map (λ fi. fi.namespaces)) (go _),
      ap (Option.map (λ fi. fi.classes)) (go _),
    )

pub file_defs-none : (src : Bytes) → file_all src ≡ none → file_defs src ≡ none
file_defs-none src e = ap (Option.map (λ fi. fi.defs)) (
    subst
      (λ s.
        Agrees (record { defs = true; refs = false; ns = false; classes = false }) s
          (walk_all (record { defs = true; refs = false; ns = false; classes = false }) src))
      e (walk_all-Agrees (record { defs = true; refs = false; ns = false; classes = false }) src)
      refl)
