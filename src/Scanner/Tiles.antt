-- ===== src/Scanner/Tiles.antt =====
-- The token stream against the source text, with no scanning order in it: `Tiles` says how
-- tokens and the bytes between them make up the text again.
use tcl_lsp_nvim.Base.{
  ℕ, zero, suc, ◌+◌, ◌-◌, ◌≤◌, Bool, true, false, List, [], ◌∷◌, ◌++◌, ◌≡◌, ◌≢◌, sym, ap, ◌∙◌,
  arith, ◌==◌, Option, none, some, Bytes, length, take, drop, length-drop, length-take,
  take-append-drop, append_assoc, length-append, if_cases, take_cons, ◌&&◌,
}
use tcl_lsp_nvim.Scanner.{
  Kind, eof, newline, semicolon, comment, word, Token, is_blank, ends_bare, continues,
  command_start, round, lex, scan, emit, scan_word, scan_comment,
}
use tcl_lsp_nvim.Scanner.Advance.{round-le, round-pos, scan_word-pos, scan_comment-pos}

-- What separates tokens: blanks and line continuations.
pub data Gap : Bytes → Type 0 where
  nothing : Gap []
  blank : {c : ℕ} {s : Bytes} → is_blank c ≡ true → Gap s → Gap (c ∷ s)
  continuation : {s : Bytes} → Gap s → Gap (b'\\' ∷ b'\n' ∷ s)

-- The text that a token of each kind has. A word starts with a byte that separates nothing.
abbrev pub Fits : Kind → Bytes → Type 0
Fits eof s = s ≡ []
Fits newline s = s ≡ b'\n' ∷ []
Fits semicolon s = s ≡ b';' ∷ []
Fits comment s = (t : Bytes) × (s ≡ b'#' ∷ t)
Fits word s = (c : ℕ) × (t : Bytes) × (s ≡ c ∷ t) × (ends_bare c ≡ false)

-- `Tiles pos b src toks`: read from offset `pos`, at a command's start if `b`, the text `src` is
-- the texts of `toks` in order, with gaps in front of them; the ranges are the offsets, a comment
-- stands only at a command's start, and the list ends with the one token for the end of input.
pub data Tiles : ℕ → Bool → Bytes → List Token → Type 0 where
  stop :
      {pos : ℕ} {b : Bool} {gap : Bytes} {t : Token}
      → Gap gap
      → t ≡ record { kind = eof; text = []; start = pos + length gap; end = pos + length gap }
      → Tiles pos b gap (t ∷ [])
  token :
      {pos : ℕ} {b : Bool} {src gap rest : Bytes} {t : Token} {toks : List Token}
      → Gap gap
      → src ≡ gap ++ (t.text ++ rest)
      → t.start ≡ pos + length gap
      → t.end ≡ t.start + length t.text
      → Fits t.kind t.text
      → t.kind ≢ eof
      → (t.kind ≡ comment → b ≡ true)
      → Tiles t.end (command_start b (some t.kind)) rest toks
      → Tiles pos b src (t ∷ toks)

Gap-append : {g h : Bytes} → Gap g → Gap h → Gap (g ++ h)
Gap-append nothing k = k
Gap-append (blank e g) k = blank e (Gap-append g k)
Gap-append (continuation g) k = continuation (Gap-append g k)

Tiles-Gap :
    {pos : ℕ} {b : Bool} {src : Bytes} {toks : List Token} (g : Bytes)
    → Gap g
    → Tiles (pos + length g) b src toks
    → Tiles pos b (g ++ src) toks
Tiles-Gap {pos} g h (stop {gap} k e) = stop (Gap-append h k) (
    e
    ∙ ap (λ n. record { kind = eof; text = []; start = n; end = n })
        (omega (arith, length-append g gap)))
Tiles-Gap {pos} g h (token {gap} k e s t f ne cs r) =
    token (Gap-append h k) (rw e (sym (append_assoc g gap _)))
      (s ∙ omega (arith, length-append g gap)) t f ne cs r

-- What one turn of the loop takes from the front of `s`.
abbrev Takes : Bool → Bytes → Option Kind × ℕ → Type 0
Takes b s (none, n) = Gap (take n s)
Takes b s (some k, n) = Fits k (take n s) × (k ≢ eof) × (k ≡ comment → b ≡ true)

round-Takes : (b : Bool) (c : ℕ) (next : Bytes) → Takes b (c ∷ next) (round b c next)
unfolding round
round-Takes b c next =
    if_cases (Takes b (c ∷ next)) (is_blank c) _ _ (λ h. blank h nothing)
      λ not_blank.
        if_cases (Takes b (c ∷ next)) (continues c next) _ _ (takes_continuation next) λ _.
          if_cases (Takes b (c ∷ next)) (c == b'\n') _ _ (λ h. (ground arith, λ e. cc, λ e. cc))
            λ not_nl.
              if_cases (Takes b (c ∷ next)) (c == b';') _ _ (λ h. (ground arith, λ e. cc, λ e. cc))
                λ not_semi. if_cases (Takes b (c ∷ next)) (c == b'#' && b) _ _ takes_comment λ _. (
                  (
                    c,
                    take (scan_word (c ∷ next) - 1) next,
                    take_cons (scan_word (c ∷ next)) c next (scan_word-pos c next (ground arith)),
                    ground arith,
                  ),
                  λ e. cc,
                  λ e. cc,
                )
  where
    takes_continuation : (s : Bytes) → continues c s ≡ true → Gap (c ∷ take 1 s)
    takes_continuation [] h = cc
    takes_continuation (d ∷ s) h =
        let e : c ≡ b'\\' = ground arith in
        let e' : d ≡ b'\n' = ground arith in rw (e, e') (continuation nothing)

    takes_comment :
        (c == b'#' && b) ≡ true → Takes b (c ∷ next) (some comment, scan_comment (c ∷ next))
    takes_comment h =
        let e : c ≡ b'#' = ground arith in
        rw e (
          (
            take (scan_comment (b'#' ∷ next) - 1) next,
            take_cons (scan_comment (b'#' ∷ next)) b'#' next (scan_comment-pos next),
          ),
          (λ e. cc),
          λ _. ground arith,
        )

emit-Tiles :
    (pos : ℕ) (b : Bool) (s : Bytes) (k : Option Kind) (n : ℕ) (toks : List Token)
    → Takes b s (k, n)
    → n ≤ length s
    → Tiles (pos + n) (command_start b k) (drop n s) toks
    → Tiles pos b s (emit k pos n s toks)
emit-Tiles pos b s none n toks h le r =
    rw (← take-append-drop n s) (Tiles-Gap (take n s) h (rw (length-take n s le) r))
emit-Tiles pos b s (some k) n toks (fits, ne, cs) le r =
    token nothing (sym (take-append-drop n s)) (omega arith) (omega (arith, length-take n s le))
      fits ne cs r

lex-Tiles :
    (fuel pos : ℕ) (b : Bool) (s : Bytes) → length s ≤ fuel → Tiles pos b s (lex fuel pos b s)
unfolding lex
lex-Tiles fuel pos b [] h =
    stop nothing (ap (λ n. record { kind = eof; text = []; start = n; end = n }) (omega arith))
lex-Tiles zero pos b (c ∷ s) h = absurd (omega arith)
lex-Tiles (suc fuel) pos b (c ∷ s) h =
    let (k, n) = round b c s in
    emit-Tiles pos b (c ∷ s) k n _ (round-Takes b c s) (round-le b c s) (
      lex-Tiles fuel (pos + n) (command_start b k) (drop n (c ∷ s))
        (omega (arith, length-drop n (c ∷ s), round-pos b c s)))

-- The tokens of every text tile it from offset 0, at a command's start: no byte is lost or
-- counted twice, every range is where its text stands, and only gaps go without a token.
pub scan-Tiles : (src : Bytes) → Tiles 0 true src (scan src)
unfolding scan
scan-Tiles src = lex-Tiles (length src) 0 true src (omega arith)
