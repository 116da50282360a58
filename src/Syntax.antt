-- ===== src/Syntax.antt =====
-- Words and names as the walkers of server/internal/tcl read them: the helpers of context.go and
-- defs.go on single words, and the scope that a piece of script runs in.
pub mod Names
use tcl_lsp_nvim.Base.{
  ℕ, ◌+◌, ◌-◌, Bool, true, false, ◌&&◌, ◌||◌, not, List, [], ◌∷◌, ◌++◌, Option, none, some, ◌==◌,
  leb, if◌then◌else◌, Bytes, codes, length, slice, get_elem?, has_prefix, eql,
}
use tcl_lsp_nvim.Parser.{bare, braced, Word, Command}

pub data FrameKind : Type 0 where
  frame_namespace frame_proc frame_class : FrameKind

-- The parameters `ns`, `frame`, `scope` and `class` that the walkers hand down together.
pub record Context : Type 0 where
  pub ns : Bytes
  pub frame : FrameKind
  pub scope : ℕ
  pub class : Bytes

abbrev pub is_bare : Word → Bool
is_bare w = elim w.kind [ bare ↦ true | _ ↦ false ]

abbrev pub is_braced : Word → Bool
is_braced w = elim w.kind [ braced ↦ true | _ ↦ false ]

abbrev pub in_class : FrameKind → Bool
in_class frame_class = true
in_class _ = false

abbrev pub in_proc : FrameKind → Bool
in_proc frame_proc = true
in_proc _ = false

abbrev pub in_namespace : FrameKind → Bool
in_namespace frame_namespace = true
in_namespace _ = false

-- A bare word with the text `name`.
abbrev pub is_word : Bytes → Word → Bool
is_word name w = is_bare w && eql w.text name

unfoldable pub is_cmd : Command → Bytes → Bool
unfolding eql
is_cmd [] name = false
is_cmd (w ∷ _) name = is_word name w

-- A command whose head is one of two spellings, as `itcl::class` and `::itcl::class`.
abbrev pub is_either : Command → Bytes → Bytes → Bool
is_either w a b = is_cmd w a || is_cmd w b

abbrev pub global_ns : Bytes
global_ns = codes "::"

-- `qualifyNamespace` and `qualifyName` have one body.
unfoldable pub qualify_name : Bytes → Bytes → Bytes
unfolding has_prefix eql
qualify_name name current =
    if has_prefix name global_ns
    then name
    else if eql current global_ns
    then global_ns ++ name
    else current ++ (global_ns ++ name)

abbrev pub qualify_namespace : Bytes → Bytes → Bytes
qualify_namespace = qualify_name

abbrev pub last_byte : Bytes → ℕ → Bool
last_byte [] b = false
last_byte (c ∷ []) b = c == b
last_byte (c ∷ d ∷ s) b = last_byte (d ∷ s) b

abbrev pub first_byte : Bytes → ℕ → Bool
first_byte [] b = false
first_byte (c ∷ s) b = c == b

-- Text of two bytes or more, from `{` to `}`.
abbrev pub is_wrapped : Bytes → Bool
is_wrapped t = leb 2 (length t) && first_byte t b'{' && last_byte t b'}'

abbrev pub interior : Bytes → Bytes
interior t = slice t 1 (length t - 1)

-- `bracedInner`: the text inside the braces, and its offset.
unfoldable pub braced_inner : Word → Bytes
braced_inner w = if is_wrapped w.text then interior w.text else []

abbrev pub inner_base : Word → ℕ → ℕ
inner_base w base = base + w.start + 1

-- `isLiteralName`: a bare word, not empty, with no substitution.
unfoldable pub is_static : Bytes → Bool
is_static [] = true
is_static (c ∷ s) = not (c == b'$' || c == b'[') && is_static s

unfoldable pub is_literal_name : Word → Bool
unfolding is_static
is_literal_name w = is_bare w && not (length w.text == 0) && is_static w.text

abbrev pub is_plain_name : Word → Bool
is_plain_name = is_literal_name

-- `[]Word{w[i]}` if the word is there and braced, else `nil`.
abbrev pub braced_of : Option Word → List Word
braced_of none = []
braced_of (some w) = if is_braced w then w ∷ [] else []

abbrev pub braced_at : Command → ℕ → List Word
braced_at w i = braced_of (get_elem? w i)

abbrev pub last_word : Command → Option Word
last_word w = get_elem? w (length w - 1)

abbrev pub last_braced : Command → List Word
last_braced w = braced_of (last_word w)

abbrev pub has_last_braced : Command → Bool
has_last_braced w = elim (last_word w) [ none ↦ false | some b ↦ is_braced b ]

-- `w[i].Text`, read only where the source has tested the length.
abbrev pub text_of : Option Word → Bytes
text_of none = []
text_of (some w) = w.text

abbrev pub text_at : Command → ℕ → Bytes
text_at w i = text_of (get_elem? w i)
