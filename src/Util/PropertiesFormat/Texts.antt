-- ===== src/Util/PropertiesFormat/Texts.antt =====
-- What is written for a key or a value is read back.
use netspeak4_application_ng.Prelude.{
  ℕ, ◌+◌, ◌≤◌, ◌<◌, ◌≡◌, refl, sym, ap, ap₂, ◌∙◌, false, Bool-cases, inl, inr, List, [], ◌∷◌, ◌++◌,
  append-nil, append_assoc, arith, length, length-append, ◌==◌, Text, Result, ok, Returns,
  Returns-bind, Returns-both, ◌>>=◌, All, if◌then◌else◌,
}
use netspeak4_application_ng.Util.PropertiesFormat.{
  backslash, line_feed, equals_sign, consume_spaces, consume_before_key, read_key_from,
  read_value_from, write_key_char, write_value_char, write_all, write_key, write_value,
}
use netspeak4_application_ng.Util.PropertiesFormat.Blocks.{
  IsBlock, write_key_char-IsBlock, write_value_char-IsBlock, space-IsBlock, write_key_char-start,
  write_value_char-start, no_spaces,
}

-- Every byte is an ASCII character.
abbrev pub IsAscii : Text → Type 0
IsAscii = All (λ c. c < 128)

-- The output for a text takes one round of the loop for each byte, and the text is read.
abbrev pub IsRead : (ℕ → List ℕ → Text → Result (List ℕ × Text)) → Text → List ℕ → Type 0
IsRead loop text out =
    (length text ≤ length out)
    × ((f : ℕ) (tail : List ℕ) (before : Text)
        → loop (length text + f) (out ++ tail) before ≡ loop f tail (before ++ text))

module _ (loop : ℕ → List ℕ → Text → Result (List ℕ × Text)) where
  nil-IsRead : IsRead loop [] []
  nil-IsRead = (
    omega arith,
    λ f tail before. ap₂ (λ k b. loop k tail b) (omega arith) (sym (append-nil before)),
  )

  cons-IsRead :
      (c : ℕ) (text : Text) (block out : List ℕ)
      → IsBlock loop c block
      → IsRead loop text out
      → IsRead loop (c ∷ text) (block ++ out)
  cons-IsRead c text block out (some_byte, h) (long, k) = (
    omega (arith, length-append block out),
    λ f tail before.
        ap₂ (λ i l. loop i l before) (omega arith) (append_assoc block out tail)
        ∙ h (length text + f) (out ++ tail) before
        ∙ k f tail (before ++ c ∷ [])
        ∙ ap (λ b. loop f tail b) (append_assoc before (c ∷ []) text),
  )

  write_all-IsRead :
      (write : ℕ → Result (List ℕ))
      → ((c : ℕ) → c < 128 → Returns (IsBlock loop c) (write c))
      → (text : Text) → IsAscii text
      → Returns (IsRead loop text) (write_all write text)
  unfolding write_all
  write_all-IsRead write h [] a = nil-IsRead
  write_all-IsRead write h (c ∷ text) (a, as') =
      Returns-bind (IsBlock loop c) (IsRead loop (c ∷ text)) (write c)
        (λ block. write_all write text >>= λ rest. ok (block ++ rest)) (h c a)
        λ block k.
          Returns-bind (IsRead loop text) (IsRead loop (c ∷ text)) (write_all write text)
            (λ rest. ok (block ++ rest)) (write_all-IsRead write h text as')
            (λ rest r. cons-IsRead c text block rest k r)

-- Written keys and values, with what is around them.
abbrev pub IsKey : Text → List ℕ → Type 0
IsKey key out =
    IsRead read_key_from key out
    × ((tail : List ℕ)
        → consume_before_key false (out ++ equals_sign ∷ tail) ≡ out ++ equals_sign ∷ tail)

abbrev pub IsValue : Text → List ℕ → Type 0
IsValue value out =
    IsRead read_value_from value out
    × ((tail : List ℕ) → consume_spaces (out ++ line_feed ∷ tail) ≡ out ++ line_feed ∷ tail)

delimiter_start :
    (tail : List ℕ) → consume_before_key false (equals_sign ∷ tail) ≡ equals_sign ∷ tail
unfolding consume_before_key
delimiter_start tail = refl

line_feed_start : (tail : List ℕ) → consume_spaces (line_feed ∷ tail) ≡ line_feed ∷ tail
unfolding consume_spaces
line_feed_start tail = refl

pub write_key-IsKey : (key : Text) → IsAscii key → Returns (IsKey key) (write_key key)
unfolding write_key write_all
write_key-IsKey [] a = (nil-IsRead read_key_from, delimiter_start)
write_key-IsKey (c ∷ key) (a, as') =
    let IsStart : List ℕ → Type 0 =
      λ block. (tail : List ℕ) → consume_before_key false (block ++ tail) ≡ block ++ tail in
    Returns-bind (λ block. IsBlock read_key_from c block × IsStart block) (IsKey (c ∷ key))
      (write_key_char c) (λ block. write_all write_key_char key >>= λ rest. ok (block ++ rest))
      (Returns-both (IsBlock read_key_from c) IsStart (write_key_char c)
        (write_key_char-IsBlock c a) (write_key_char-start c a))
      λ block (k, start).
        Returns-bind (IsRead read_key_from key) (IsKey (c ∷ key)) (write_all write_key_char key)
          (λ rest. ok (block ++ rest))
          (write_all-IsRead read_key_from write_key_char write_key_char-IsBlock key as')
          λ rest r. (
            cons-IsRead read_key_from c key block rest k r,
            λ tail.
                ap (λ l. consume_before_key false l) (append_assoc block rest (equals_sign ∷ tail))
                ∙ start (rest ++ equals_sign ∷ tail)
                ∙ sym (append_assoc block rest (equals_sign ∷ tail)),
          )

IsFront : ℕ → List ℕ → Type 0
IsFront c block =
    IsBlock read_value_from c block
    × ((tail : List ℕ) → consume_spaces (block ++ tail) ≡ block ++ tail)

escaped_space-IsFront :
    (c : ℕ)
    → c < 128
    → Returns (IsFront c) (if c == 32 then ok (backslash ∷ c ∷ []) else write_value_char c)
unfolding IsFront
escaped_space-IsFront c a = elim (Bool-cases (c == 32)) [
  | inl e ↦ rw e (space-IsBlock c e, λ tail. no_spaces backslash (c ∷ tail) (omega arith))
  | inr e ↦ rw e (
      Returns-both (IsBlock read_value_from c)
        (λ block. (tail : List ℕ) → consume_spaces (block ++ tail) ≡ block ++ tail)
        (write_value_char c) (write_value_char-IsBlock c a) (write_value_char-start c a e))
]

pub write_value-IsValue :
    (value : Text) → IsAscii value → Returns (IsValue value) (write_value value)
unfolding write_value IsFront
write_value-IsValue [] a = (nil-IsRead read_value_from, line_feed_start)
write_value-IsValue (c ∷ value) (a, as') =
    Returns-bind (IsFront c) (IsValue (c ∷ value))
      (if c == 32 then ok (backslash ∷ c ∷ []) else write_value_char c)
      (λ block. write_all write_value_char value >>= λ rest. ok (block ++ rest))
      (escaped_space-IsFront c a)
      λ block (k, start).
        Returns-bind (IsRead read_value_from value) (IsValue (c ∷ value))
          (write_all write_value_char value) (λ rest. ok (block ++ rest))
          (write_all-IsRead read_value_from write_value_char write_value_char-IsBlock value as')
          λ rest r. (
            cons-IsRead read_value_from c value block rest k r,
            λ tail.
                ap consume_spaces (append_assoc block rest (line_feed ∷ tail))
                ∙ start (rest ++ line_feed ∷ tail)
                ∙ sym (append_assoc block rest (line_feed ∷ tail)),
          )
