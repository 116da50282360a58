-- ===== src/Lsp/Frames/RoundTrip.antt =====
-- server/internal/lsp/jsonrpc.go: a message through `Write` and `Read`.
use mathlib.Core.Option
use tcl_lsp_nvim.Base.{
  ℕ, suc, ◌≤◌, ◌<◌, false, [], ◌∷◌, ◌++◌, ◌≡◌, refl, ap, ◌∙◌, some, ltb, ◌==◌, if◌then◌else◌, Bytes,
  codes, length, drop, has_prefix, All, All-append, arith, if_off, ◌&&◌, length-append, take-append,
  drop-append, append_assoc,
}
use tcl_lsp_nvim.Lsp.Frames.{
  Number, negative, natural, Codec, Received, received, max_message_size, read_line, is_line_end,
  trim_line, field_name, read_body, read_field, read_fields, read_message, framed, write_message,
  with_length, unmarshalled,
}

abbrev IsLine : Bytes → Type 0
IsLine = All (λ c. is_line_end c ≡ false)

read_line-append :
    (s r : Bytes) → IsLine s → read_line (s ++ 13 ∷ 10 ∷ r) ≡ some (s ++ 13 ∷ 10 ∷ [], r)
unfolding read_line Option.bind
read_line-append [] r h = refl
read_line-append (c ∷ s) r h =
    let other : (c == 10) ≡ false = (let first = h.0 in ground arith) in
    if_off _ _ _ other
    ∙ ap (Option.map {A = Bytes × Bytes} {B = Bytes × Bytes} (λ x. (c ∷ x.0, x.1)))
        (read_line-append s r h.1)

trim_line-append : (s : Bytes) → IsLine s → trim_line (s ++ 13 ∷ 10 ∷ []) ≡ s
unfolding trim_line
trim_line-append [] h = refl
trim_line-append (c ∷ s) h =
    ap
      (λ b.
        if b && length (trim_line (s ++ 13 ∷ 10 ∷ [])) == 0
        then []
        else c ∷ trim_line (s ++ 13 ∷ 10 ∷ []))
      h.0
    ∙ ap (◌∷◌ c) (trim_line-append s h.1)

header-IsLine : (digits : Bytes) → IsLine digits → IsLine (codes "Content-Length: " ++ digits)
header-IsLine digits h =
    All-append _ (codes "Content-Length: ") digits
      (
        refl,
        (
          refl,
          (
            refl,
            (
              refl,
              (
                refl,
                (
                  refl,
                  (
                    refl,
                    (refl, (refl, (refl, (refl, (refl, (refl, (refl, (refl, (refl, tt))))))))),
                  ),
                ),
              ),
            ),
          ),
        ),
      )
      h

module _ {A : Type 0} (codec : Codec A) where
  -- What `strconv` and `strings` promise for the digits of a number.
  abbrev pub IsNumeral : ℕ → Type 0
  IsNumeral n =
      IsLine (codec.itoa n)
      × (codec.trim_space (codes " " ++ codec.itoa n) ≡ codec.itoa n)
      × (codec.atoi (codec.itoa n) ≡ some (natural n))

  -- A turn of the loop at the line with the length.
  read_field-length :
      (rec : Bytes → Number → Received A) (n : ℕ) (rest : Bytes)
      → IsNumeral n
      → read_field codec rec negative
          (read_line ((codes "Content-Length: " ++ codec.itoa n) ++ 13 ∷ 10 ∷ rest))
        ≡ rec rest (natural n)
  unfolding has_prefix
  read_field-length rec n rest (line, trimmed, parsed) =
      let whole = header-IsLine (codec.itoa n) line in
      let filled : (length (codes "Content-Length: " ++ codec.itoa n) == 0) ≡ false =
        ground (arith, length-append (codes "Content-Length: ") (codec.itoa n)) in
      ap (read_field codec rec negative)
        (read_line-append (codes "Content-Length: " ++ codec.itoa n) rest whole)
      ∙ ap
          (λ t.
            if length t == 0
            then read_body codec negative rest
            else if has_prefix t field_name
            then with_length codec rec rest (codec.atoi (codec.trim_space (drop 15 t)))
            else rec rest negative)
          (trim_line-append (codes "Content-Length: " ++ codec.itoa n) whole)
      ∙ if_off _ _ _ filled
      ∙ ap (with_length codec rec rest) (ap codec.atoi trimmed ∙ parsed)

  -- A turn of the loop at a blank line.
  read_fields-blank :
      (fuel : ℕ) (n : Number) (s : Bytes)
      → read_fields codec (suc fuel) (13 ∷ 10 ∷ s) n ≡ read_body codec n s
  unfolding read_fields read_line trim_line Option.bind
  read_fields-blank fuel n s = refl

  -- A body whose length is in bounds is taken as it is.
  read_body-append :
      (body rest : Bytes) (m : A)
      → 0 < length body
      → length body ≤ max_message_size
      → codec.unmarshal body ≡ some m
      → read_body codec (natural (length body)) (body ++ rest) ≡ received m rest
  read_body-append body rest m p q e =
      let some_bytes : (length body == 0) ≡ false = ground arith in
      let bounded : ltb max_message_size (length body) ≡ false = ground arith in
      let enough : ltb (length (body ++ rest)) (length body) ≡ false =
        ground (arith, length-append body rest) in
      if_off _ _ _ some_bytes
      ∙ if_off _ _ _ bounded
      ∙ if_off _ _ _ enough
      ∙ ap (λ b. unmarshalled codec (drop (length body) (body ++ rest)) (codec.unmarshal b))
          (take-append body rest)
      ∙ ap (λ s. unmarshalled codec s (codec.unmarshal body)) (drop-append body rest)
      ∙ ap (unmarshalled codec rest) e

  read_message-framed :
      (m : A) (body rest : Bytes)
      → codec.unmarshal body ≡ some m
      → 0 < length body
      → length body ≤ max_message_size
      → IsNumeral (length body)
      → read_message codec (framed codec body ++ rest) ≡ received m rest
  unfolding read_message read_fields
  read_message-framed m body rest e p q numeral =
      let n = length body in
      let header = codes "Content-Length: " ++ codec.itoa n in
      let behind = 13 ∷ 10 ∷ body in
      ap
        (λ s.
          read_field codec (read_fields codec (length (framed codec body ++ rest))) negative
            (read_line s))
        (append_assoc header (13 ∷ 10 ∷ behind) rest)
      ∙ read_field-length (read_fields codec (length (framed codec body ++ rest))) n
          (behind ++ rest) numeral
      ∙ read_fields-blank (length (drop 1 (framed codec body ++ rest))) (natural n) (body ++ rest)
      ∙ read_body-append body rest m p q e

  -- If a message is marshalled as a body that is read back as the message, the body is neither empty nor above the
  -- bound, and the numeral of its length is read back and has no line end, then Write succeeds, and Read gives the message
  -- back from what Write wrote and leaves whatever follows it on the stream.
  pub read_message-write_message :
      (m : A) (body rest : Bytes)
      → codec.marshal m ≡ some body
      → codec.unmarshal body ≡ some m
      → 0 < length body
      → length body ≤ max_message_size
      → IsNumeral (length body)
      → Option.map (λ w. read_message codec (w ++ rest)) (write_message codec m)
        ≡ some (received m rest)
  unfolding Option.bind
  read_message-write_message m body rest d e p q numeral =
      ap (λ o. Option.map (λ w. read_message codec (w ++ rest)) (Option.map (framed codec) o)) d
      ∙ ap some (read_message-framed m body rest e p q numeral)
