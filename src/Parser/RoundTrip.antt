-- ===== src/Parser/RoundTrip.antt =====
-- Commands written out as text and parsed back.
use mathlib.Core.List.{map-append}
use tcl_lsp_nvim.Base.{
  ℕ, zero, suc, ◌+◌, ◌≤◌, ◌<◌, Bool, true, false, not, ◌&&◌, ◌||◌, List, [], ◌∷◌, ◌++◌, ◌≡◌, ◌≢◌,
  refl, sym, ap, ◌∙◌, map, arith, Bytes, length, append_assoc, append-nil, All, ◌==◌, some,
  take-append, drop-append, length-append,
}
use tcl_lsp_nvim.Scanner.{newline, word, Token, ends_bare, scan_bare, scan_word, round, lex, scan}
use tcl_lsp_nvim.Scanner.Braces.{IsBalanced, AreBrackets, balanced_span-balanced}
use tcl_lsp_nvim.Parser.{Word, Command, word_from_token, flush, group, parse}

-- A byte that a bareword may hold: no separator, backslash or bracket. At its start it may not
-- be a delimiter or a comment sign either.
abbrev pub stays_bare : ℕ → Bool
stays_bare c = not (ends_bare c || c == b'\\' || c == b'[')

abbrev pub starts_bare : ℕ → Bool
starts_bare c = stays_bare c && not (c == b'{' || c == b'"' || c == b'#')

-- Texts that are one word each: plain barewords, and braces round balanced text.
pub data IsWordText : Bytes → Type 0 where
  bare :
      {c : ℕ} {s : Bytes}
      → starts_bare c ≡ true
      → All (λ c. stays_bare c ≡ true) s
      → IsWordText (c ∷ s)
  braced : {s : Bytes} → IsBalanced b'{' b'}' s → IsWordText (b'{' ∷ (s ++ b'}' ∷ []))

-- A command is its words, each with a space behind it, and a newline.
pub render_words : List Bytes → Bytes → Bytes
render_words [] rest = b'\n' ∷ rest
render_words (w ∷ ws) rest = w ++ (b' ' ∷ render_words ws rest)

pub render : List (List Bytes) → Bytes
unfolding render_words
render [] = []
render (ws ∷ cmds) = render_words ws (render cmds)

scan_bare_plain :
    (f : ℕ) (s rest : Bytes)
    → length s < f
    → All (λ c. stays_bare c ≡ true) s
    → scan_bare f (s ++ (b' ' ∷ rest)) ≡ length s
unfolding scan_bare
scan_bare_plain zero s rest h a = absurd (omega arith)
scan_bare_plain (suc f) [] [] h a = refl
scan_bare_plain (suc f) [] (c ∷ rest) h a = refl
scan_bare_plain (suc f) (x ∷ []) rest h a = ground (arith, scan_bare_plain f [] rest)
scan_bare_plain (suc f) (x ∷ y ∷ s) rest h a = ground (arith, scan_bare_plain f (y ∷ s) rest)

braces : AreBrackets b'{' b'}'
braces = record { open_plain = omega arith; close_plain = omega arith; differ = omega arith }

scan_word_text :
    {w : Bytes} (rest : Bytes) → IsWordText w → scan_word (w ++ (b' ' ∷ rest)) ≡ length w
unfolding scan_word
scan_word_text rest (bare {c} {s} h a) = ground (
  arith,
  length-append s (b' ' ∷ rest),
  scan_bare_plain (suc (length (s ++ (b' ' ∷ rest)))) (c ∷ s) rest,
)
scan_word_text rest (braced {s} b) = ground (
  arith,
  append_assoc s (b'}' ∷ []) (b' ' ∷ rest),
  length-append s (b'}' ∷ []),
  balanced_span-balanced b'{' b'}' braces s (b' ' ∷ rest) b,
)

-- The turns of the loop of `scan` at the three pieces of rendered text.
lex_newline :
    (f pos : ℕ) (b : Bool) (rest : Bytes)
    → lex (suc f) pos b (b'\n' ∷ rest)
      ≡ record { kind = newline; text = b'\n' ∷ []; start = pos; end = pos + 1 }
        ∷ lex f (pos + 1) true rest
unfolding lex round
lex_newline f pos b [] = refl
lex_newline f pos b (c ∷ rest) = refl

lex_space :
    (f pos : ℕ) (b : Bool) (rest : Bytes) → lex (suc f) pos b (b' ' ∷ rest) ≡ lex f (pos + 1) b rest
unfolding lex round
lex_space f pos b rest = refl

round_word :
    (b : Bool) (c : ℕ) (s : Bytes)
    → (starts_bare c || c == b'{') ≡ true
    → round b c s ≡ (some word, scan_word (c ∷ s))
unfolding round
round_word b c [] h = ground arith
round_word b c (d ∷ s) h = ground arith

lex_word_from :
    (f pos : ℕ) (b : Bool) (c : ℕ) (s rest : Bytes)
    → (starts_bare c || c == b'{') ≡ true
    → scan_word (c ∷ (s ++ (b' ' ∷ rest))) ≡ length (c ∷ s)
    → lex (suc f) pos b (c ∷ (s ++ (b' ' ∷ rest)))
      ≡ record { kind = word; text = c ∷ s; start = pos; end = pos + length (c ∷ s) }
        ∷ lex f (pos + length (c ∷ s)) false (b' ' ∷ rest)
unfolding lex
lex_word_from f pos b c s rest h e =
    rw (round_word b c (s ++ (b' ' ∷ rest)) h, e, take-append, drop-append)

lex_word :
    {w : Bytes} (f pos : ℕ) (b : Bool) (rest : Bytes)
    → IsWordText w
    → lex (suc f) pos b (w ++ (b' ' ∷ rest))
      ≡ record { kind = word; text = w; start = pos; end = pos + length w }
        ∷ lex f (pos + length w) false (b' ' ∷ rest)
lex_word f pos b rest (bare {c} {s} h a) =
    lex_word_from f pos b c s rest (ground arith) (scan_word_text rest (bare h a))
lex_word f pos b rest (braced {s} h) =
    lex_word_from f pos b b'{' (s ++ b'}' ∷ []) rest (ground arith) (scan_word_text rest (braced h))

abbrev pub texts : List Command → List (List Bytes)
texts = map (map (λ w. w.text))

texts-flush :
    (cur : List Word) (cmds : List Command)
    → cur ≢ []
    → texts (flush cur cmds) ≡ map (λ w. w.text) cur ∷ texts cmds
texts-flush [] cmds h = absurd (h refl)
texts-flush (w ∷ cur) cmds h = refl

-- `cmds` is what any run of the loop finds in `rest` from a command's start.
Finds : Bytes → List (List Bytes) → Type 0
Finds rest cmds = (f pos : ℕ) → length rest ≤ f → texts (group [] (lex f pos true rest)) ≡ cmds

length-rendered :
    {w : Bytes} (ws : List Bytes) (rest : Bytes)
    → IsWordText w
    → 2 + length (render_words ws rest) ≤ length (render_words (w ∷ ws) rest)
unfolding render_words
length-rendered ws rest (bare {c} {s} h a) =
    omega (arith, length-append s (b' ' ∷ render_words ws rest))
length-rendered ws rest (braced {s} b) =
    omega (arith, length-append (s ++ b'}' ∷ []) (b' ' ∷ render_words ws rest))

group-render_words :
    (ws : List Bytes) (cur : List Word) (f pos : ℕ) (b : Bool) (rest : Bytes)
    (cmds : List (List Bytes))
    → All IsWordText ws
    → Finds rest cmds
    → map (λ w. w.text) cur ++ ws ≢ []
    → length (render_words ws rest) ≤ f
    → texts (group cur (lex f pos b (render_words ws rest))) ≡ (map (λ w. w.text) cur ++ ws) ∷ cmds
unfolding render_words group Finds
group-render_words [] cur zero pos b rest cmds a k ne h = absurd (omega arith)
group-render_words [] cur (suc f) pos b rest cmds a k ne h = rw lex_newline (
    rw append-nil (
      texts-flush cur _ (λ e. ne (ap (λ c. map (λ w. w.text) c ++ []) e))
      ∙ ap (◌∷◌ (map (λ w. w.text) cur)) (k f (pos + 1) (omega arith))))
group-render_words (w ∷ ws) cur zero pos b rest cmds (a, a') k ne h =
    absurd (omega (arith, length-rendered ws rest a))
group-render_words (w ∷ ws) cur (suc zero) pos b rest cmds (a, a') k ne h =
    absurd (omega (arith, length-rendered ws rest a))
group-render_words (w ∷ ws) cur (suc (suc f)) pos b rest cmds (a, a') k ne h =
    let tk : Token = record { kind = word; text = w; start = pos; end = pos + length w } in
    let moved : map (λ w. w.text) (cur ++ word_from_token tk ∷ []) ++ ws
        ≡ map (λ w. w.text) cur ++ w ∷ ws =
      rw (map-append) (append_assoc (map (λ w. w.text) cur) (w ∷ []) ws) in
    rw (lex_word (suc f) pos b (render_words ws rest) a, lex_space)
      (group-render_words ws (cur ++ word_from_token tk ∷ []) f (pos + length w + 1) false rest cmds
          a' k (λ e. ne (sym moved ∙ e)) (omega (arith, length-rendered ws rest a))
        ∙ ap (λ ws. ws ∷ cmds) moved)

Finds-render :
    (cmds : List (List Bytes))
    → All (λ ws. (ws ≢ []) × All IsWordText ws) cmds
    → Finds (render cmds) cmds
unfolding Finds render group lex
Finds-render [] h f pos le = refl
Finds-render (ws ∷ cmds) ((ne, a), h) f pos le =
    group-render_words ws [] f pos true (render cmds) cmds a (Finds-render cmds h) ne le

-- Commands of plain barewords and balanced braced words, written with spaces between the words
-- and a newline behind each command, parse back to those commands: the same words, grouped alike.
pub parse-render :
    (cmds : List (List Bytes))
    → All (λ ws. (ws ≢ []) × All IsWordText ws) cmds
    → texts (parse (render cmds)) ≡ cmds
unfolding parse scan Finds
parse-render cmds h = Finds-render cmds h (length (render cmds)) 0 (omega arith)
