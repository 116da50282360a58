-- ===== src/Index/Tracked.antt =====
-- The bookkeeping that `RemoveFile` relies on: every location is listed under its file.
use tcl_lsp_nvim.Base.{
  true, false, List, [], ◌∷◌, ◌++◌, ◌≡◌, refl, sym, ap, ◌∙◌, arith, if◌then◌else◌, Bytes, eql,
  eql_iff, eql_refl, one_of, All, All-append, All-mono, Bool-cases, inl, inr, subst, if_cases, ◌==◌,
  length,
}
use tcl_lsp_nvim.Assoc.{Assoc, find_or, alter, delete, find_or-alter, find_or-delete}
use tcl_lsp_nvim.Defs.{
  DefKind, def_proc, def_namespace_var, def_local, def_global_link, def_class, def_method, def_ivar,
  Definition,
}
use tcl_lsp_nvim.Decls.{Classes}
use tcl_lsp_nvim.Index.{
  Location, Index, new_index, filter_locs, put_locs, remove_names, remove_file, location_of,
  note_name, index_kind, index_defs, index_classes,
}

one_of-append : (s : Bytes) (a b : List Bytes) → one_of s a ≡ true → one_of s (a ++ b) ≡ true
unfolding one_of
one_of-append s [] b h = cc
one_of-append s (x ∷ a) b h = ground (arith, one_of-append s a b)

one_of-last : (s : Bytes) (a : List Bytes) → one_of s (a ++ s ∷ []) ≡ true
unfolding one_of
one_of-last s [] = ground (arith, eql_refl s)
one_of-last s (x ∷ a) = ground (arith, one_of-last s a)

-- The file of a location has `name` among the names that it defines.
abbrev pub IsListed : Assoc (List Bytes) → Bytes → Location → Type 0
IsListed fd name l = one_of name (find_or [] l.file fd) ≡ true

-- Every location stands under a name that its file is known to define.
abbrev pub IsTracked : Index → Type 0
IsTracked ix = (name : Bytes) → All (IsListed ix.file_defs name) (find_or [] name ix.defs_by_name)

pub new_index-IsTracked : IsTracked new_index
unfolding find_or
new_index-IsTracked name = tt

filter_locs-All :
    (P : Location → Type 0) (locs : List Location) (path : Bytes)
    → All (λ l. (eql l.file path ≡ false) → P l) locs
    → All P (filter_locs locs path)
unfolding filter_locs
filter_locs-All P [] path h = tt
filter_locs-All P (l ∷ locs) path (p, h) =
    let ih = filter_locs-All P locs path h in
    if_cases (All P) (eql l.file path) _ _ (λ _. ih) λ e. (p e, ih)

pub filter_locs-same :
    (locs : List Location) (path : Bytes)
    → All (λ l. eql l.file path ≡ false) locs
    → filter_locs locs path ≡ locs
unfolding filter_locs
filter_locs-same [] path h = refl
filter_locs-same (l ∷ locs) path (p, h) = rw p (ap (◌∷◌ l) (filter_locs-same locs path h))

All-every : {A : Type 0} (P : A → Type 0) → ((x : A) → P x) → (xs : List A) → All P xs
All-every P h [] = tt
All-every P h (x ∷ xs) = (h x, All-every P h xs)

filter_locs-twice :
    (locs : List Location) (path : Bytes)
    → filter_locs (filter_locs locs path) path ≡ filter_locs locs path
filter_locs-twice locs path = filter_locs-same (filter_locs locs path) path (
    filter_locs-All (λ l. eql l.file path ≡ false) locs path
      (All-every (λ l. (eql l.file path ≡ false) → eql l.file path ≡ false) (λ l e. e) locs))

find_or-put_locs :
    (n name : Bytes) (kept : List Location) (m : Assoc (List Location))
    → find_or [] name (put_locs n kept m) ≡ (if eql n name then kept else find_or [] name m)
find_or-put_locs n name [] m = find_or-delete [] n name m
find_or-put_locs n name (l ∷ kept) m = find_or-alter [] n name (λ _. l ∷ kept) m

pub find_or-remove_names :
    (path name : Bytes) (ns : List Bytes) (m : Assoc (List Location))
    → find_or [] name (remove_names path ns m)
      ≡ (if one_of name ns then filter_locs (find_or [] name m) path else find_or [] name m)
unfolding remove_names one_of
find_or-remove_names path name [] m = refl
find_or-remove_names path name (n ∷ ns) m = ground (
  arith,
  find_or-remove_names path name ns (put_locs n (filter_locs (find_or [] n m) path) m),
  find_or-put_locs n name (filter_locs (find_or [] n m) path) m,
  filter_locs-twice (find_or [] name m) path,
  eql_iff name n,
  eql_iff n name,
)

abbrev NotIn : Bytes → Location → Type 0
NotIn path l = eql l.file path ≡ false

-- A name that a file does not define has no location there.
NotIn-unlisted :
    (ix : Index) (path name : Bytes) (l : Location)
    → one_of name (find_or [] path ix.file_defs) ≡ false
    → IsListed ix.file_defs name l
    → NotIn path l
NotIn-unlisted ix path name l n h = elim (Bool-cases (eql l.file path)) [
  | inl e ↦
      let k =
        subst (λ f. one_of name (find_or [] f ix.file_defs) ≡ true) ((eql_iff l.file path).0 e) h in
      cc
  | inr e ↦ e
]

-- The lookup of each name after `RemoveFile`: the locations in other files are left, in order.
pub find_or-remove_file :
    (path name : Bytes) (ix : Index)
    → IsTracked ix
    → find_or [] name (remove_file path ix).defs_by_name
      ≡ filter_locs (find_or [] name ix.defs_by_name) path
unfolding remove_file
find_or-remove_file path name ix h =
    let names = find_or [] path ix.file_defs in
    let old = find_or [] name ix.defs_by_name in
    find_or-remove_names path name names ix.defs_by_name ∙ elim (Bool-cases (one_of name names)) [
      | inl e ↦ rw e refl
      | inr e ↦ rw e (
          sym (
            filter_locs-same old path (
              All-mono (IsListed ix.file_defs name) (NotIn path) old
                (λ l. NotIn-unlisted ix path name l e) (h name))))
    ]

IsListed-delete :
    (fd : Assoc (List Bytes)) (path name : Bytes) (l : Location)
    → IsListed fd name l
    → (eql l.file path ≡ false)
    → IsListed (delete path fd) name l
IsListed-delete fd path name l h e =
    ground (arith, find_or-delete [] path l.file fd, eql_iff l.file path, eql_iff path l.file)

pub remove_file-IsTracked :
    (path : Bytes) (ix : Index) → IsTracked ix → IsTracked (remove_file path ix)
unfolding remove_file
remove_file-IsTracked path ix h name =
    let old = find_or [] name ix.defs_by_name in
    rw (find_or-remove_file path name ix h) (
      filter_locs-All (IsListed (delete path ix.file_defs) name) old path (
        All-mono (IsListed ix.file_defs name)
          (λ l. (eql l.file path ≡ false) → IsListed (delete path ix.file_defs) name l) old
          (λ l. IsListed-delete ix.file_defs path name l) (h name)))

IsListed-grow :
    (fd : Assoc (List Bytes)) (path d name : Bytes) (l : Location)
    → IsListed fd name l
    → IsListed (alter [] path (λ names. names ++ d ∷ []) fd) name l
IsListed-grow fd path d name l h = ground (
  arith,
  find_or-alter [] path l.file (λ names. names ++ d ∷ []) fd,
  one_of-append name (find_or [] l.file fd) (d ∷ []),
)

IsListed-new :
    (fd : Assoc (List Bytes)) (path : Bytes) (d : Definition)
    → IsListed (alter [] path (λ names. names ++ d.name ∷ []) fd) d.name (location_of path d)
IsListed-new fd path d = ground (
  arith,
  find_or-alter [] path path (λ names. names ++ d.name ∷ []) fd,
  eql_refl path,
  one_of-last d.name (find_or [] path fd),
)

pub note_name-IsTracked :
    (path : Bytes) (d : Definition) (ix : Index) → IsTracked ix → IsTracked (note_name path d ix)
note_name-IsTracked path d ix h name =
    let old = find_or [] name ix.defs_by_name in
    let P = IsListed (note_name path d ix).file_defs name in
    let kept : All P old =
      All-mono (IsListed ix.file_defs name) P old
        (λ l. IsListed-grow ix.file_defs path d.name name l) (h name) in
    rw (find_or-alter [] d.name name (λ locs. locs ++ location_of path d ∷ []) ix.defs_by_name) (
      if_cases (All P) (eql d.name name) _ _
        (λ e. All-append P old (location_of path d ∷ []) kept (
          subst (λ n. IsListed (note_name path d ix).file_defs n (location_of path d))
              ((eql_iff d.name name).0 e) (IsListed-new ix.file_defs path d),
          tt,
        ))
        λ _. kept)

index_kind-IsTracked :
    (k : DefKind) (path : Bytes) (d : Definition) (ix : Index)
    → IsTracked ix
    → IsTracked (index_kind k path d ix)
unfolding index_kind
index_kind-IsTracked def_proc path d ix h = note_name-IsTracked path d ix h
index_kind-IsTracked def_namespace_var path d ix h = note_name-IsTracked path d ix h
index_kind-IsTracked def_class path d ix h = note_name-IsTracked path d ix h
index_kind-IsTracked def_method path d ix h =
    if_cases IsTracked (length d.class == 0) _ _ (λ _. h) λ _. h
index_kind-IsTracked def_ivar path d ix h =
    if_cases IsTracked (length d.class == 0) _ _ (λ _. h) λ _. h
index_kind-IsTracked def_local path d ix h = h
index_kind-IsTracked def_global_link path d ix h = h

pub index_defs-IsTracked :
    (path : Bytes) (ds : List Definition) (ix : Index)
    → IsTracked ix
    → IsTracked (index_defs path ds ix)
unfolding index_defs
index_defs-IsTracked path [] ix h = h
index_defs-IsTracked path (d ∷ ds) ix h =
    index_defs-IsTracked path ds (index_kind d.kind path d ix)
      (index_kind-IsTracked d.kind path d ix h)

pub index_classes-IsTracked :
    (path : Bytes) (m : Classes) (ix : Index) → IsTracked ix → IsTracked (index_classes path m ix)
unfolding index_classes
index_classes-IsTracked path [] ix h = h
index_classes-IsTracked path ((fq, bases) ∷ m) ix h = index_classes-IsTracked path m _ h
