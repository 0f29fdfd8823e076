-- ===== src/Util/PropertiesFormat/RoundTrip.antt =====
-- `write_properties` and `read_properties` back and forth.
use netspeak4_application_ng.Prelude.{
  ℕ, zero, suc, ◌+◌, ◌-◌, ◌≤◌, ◌<◌, ◌≡◌, refl, ap, ◌∙◌, false, List, [], ◌∷◌, ◌++◌, arith, length,
  length-append, Text, Result, ok, throw, Returns, Returns-bind, ◌>>=◌, All,
}
use netspeak4_application_ng.Util.PropertiesFormat.{
  line_feed, equals_sign, consume_spaces, consume_before_key, consume_delimiter, read_key_from,
  read_key, read_value_from, read_value, read_entry, read_next, read_entries, read_properties,
  write_key, write_value, write_properties,
}
use netspeak4_application_ng.Util.PropertiesFormat.Texts.{
  IsAscii, IsKey, IsValue, write_key-IsKey, write_value-IsValue,
}

key_end :
    (f : ℕ) (tail : List ℕ) (key : Text)
    → read_key_from (suc f) (equals_sign ∷ tail) key ≡ ok (equals_sign ∷ tail, key)
unfolding read_key_from
key_end f tail key = refl

value_end :
    (f : ℕ) (tail : List ℕ) (value : Text)
    → read_value_from (suc f) (line_feed ∷ tail) value ≡ ok (line_feed ∷ tail, value)
unfolding read_value_from
value_end f tail value = refl

read_key-written :
    (key : Text) (out tail : List ℕ)
    → IsKey key out
    → read_key (out ++ equals_sign ∷ tail) ≡ ok (equals_sign ∷ tail, key)
unfolding read_key
read_key-written key out tail ((long, h), start) =
    let stream = out ++ equals_sign ∷ tail in
    let spare = length stream - length key in
    let enough : suc (length stream) ≡ length key + suc spare =
      omega (arith, length-append out (equals_sign ∷ tail)) in
    ap (λ i. read_key_from i stream []) enough
    ∙ h (suc spare) (equals_sign ∷ tail) []
    ∙ key_end spare tail key

read_value-written :
    (value : Text) (out tail : List ℕ)
    → IsValue value out
    → read_value (out ++ line_feed ∷ tail) ≡ ok (line_feed ∷ tail, value)
unfolding read_value
read_value-written value out tail ((long, h), start) =
    let stream = out ++ line_feed ∷ tail in
    let spare = length stream - length value in
    let enough : suc (length stream) ≡ length value + suc spare =
      omega (arith, length-append out (line_feed ∷ tail)) in
    ap (λ i. read_value_from i stream []) enough
    ∙ h (suc spare) (line_feed ∷ tail) []
    ∙ value_end spare tail value

consume_delimiter-equals :
    (rest : List ℕ) → consume_delimiter (equals_sign ∷ rest) ≡ ok (consume_spaces rest)
unfolding consume_delimiter
consume_delimiter-equals rest = refl

abbrev line : List ℕ → List ℕ → List ℕ → List ℕ
line key_out value_out rest = key_out ++ equals_sign ∷ (value_out ++ line_feed ∷ rest)

read_entry-line :
    (key value : Text) (key_out value_out rest : List ℕ)
    → IsKey key key_out
    → IsValue value value_out
    → read_entry (line key_out value_out rest) ≡ ok (line_feed ∷ rest, (key, value))
unfolding read_entry
read_entry-line key value key_out value_out rest k v =
    rw (read_key-written key key_out (value_out ++ line_feed ∷ rest) k) (
      rw (consume_delimiter-equals (value_out ++ line_feed ∷ rest))
        (rw (v.1 rest) (rw (read_value-written value value_out rest v) refl)))

-- One round of the loop, where something is left behind the skipped part.
read_entries-round :
    (f : ℕ) (stream left : List ℕ)
    → consume_before_key false stream ≡ left
    → 0 < length left
    → read_entries (suc f) stream ≡ (
        read_entry left >>= λ (rest, entry).
        read_entries f rest >>= λ entries. ok (entry ∷ entries))
unfolding read_entries read_next
read_entries-round f stream [] e h = absurd (omega arith)
read_entries-round f stream (c ∷ left) e h = ap (read_next (read_entries f)) e

read_entries-end :
    (f : ℕ) (stream : List ℕ)
    → consume_before_key false stream ≡ []
    → read_entries (suc f) stream ≡ ok []
unfolding read_entries read_next
read_entries-end f stream e = ap (read_next (read_entries f)) e

skip_line_end :
    (rest : List ℕ) → consume_before_key false (line_feed ∷ rest) ≡ consume_before_key false rest
unfolding consume_before_key
skip_line_end rest = refl

-- The stream from which the loop reads the entries, if it has fuel for each of them.
IsWritten : List (Text × Text) → List ℕ → Type 0
IsWritten entries out =
    (length entries ≤ length out)
    × ((f : ℕ) (stream : List ℕ)
        → length entries < f
        → consume_before_key false stream ≡ consume_before_key false out
        → read_entries f stream ≡ ok entries)

no_entries :
    (f : ℕ) (stream : List ℕ)
    → 0 < f
    → consume_before_key false stream ≡ []
    → read_entries f stream ≡ ok []
no_entries zero stream h e = absurd (omega arith)
no_entries (suc f) stream h e = read_entries-end f stream e

nil-IsWritten : IsWritten [] []
unfolding IsWritten consume_before_key
nil-IsWritten = (omega arith, λ f stream h e. no_entries f stream h e)

line-IsWritten :
    (key value : Text) (entries : List (Text × Text)) (key_out value_out rest : List ℕ)
    → IsKey key key_out
    → IsValue value value_out
    → IsWritten entries rest
    → IsWritten ((key, value) ∷ entries) (line key_out value_out rest)
unfolding IsWritten
line-IsWritten key value entries key_out value_out rest k v (long, h) = (
  omega (arith, longer),
  λ f stream fuel e. one_more f stream fuel (e ∙ k.1 (value_out ++ line_feed ∷ rest)),
)
  where
    longer : suc (length rest) ≤ length (line key_out value_out rest)
    longer = omega (
      arith,
      length-append key_out (equals_sign ∷ (value_out ++ line_feed ∷ rest)),
      length-append value_out (line_feed ∷ rest),
    )

    one_more :
        (f : ℕ) (stream : List ℕ)
        → suc (length entries) < f
        → consume_before_key false stream ≡ line key_out value_out rest
        → read_entries f stream ≡ ok ((key, value) ∷ entries)
    one_more zero stream fuel e = absurd (omega arith)
    one_more (suc f) stream fuel e =
        read_entries-round f stream (line key_out value_out rest) e (omega (arith, longer))
        ∙ rw (read_entry-line key value key_out value_out rest k v)
            (rw (h f (line_feed ∷ rest) (omega arith) (skip_line_end rest)) refl)

write_properties-IsWritten :
    (entries : List (Text × Text))
    → All (λ (key, value). IsAscii key × IsAscii value) entries
    → Returns (IsWritten entries) (write_properties entries)
unfolding write_properties
write_properties-IsWritten [] a = nil-IsWritten
write_properties-IsWritten ((key, value) ∷ entries) ((a, b), as') =
    Returns-bind (IsKey key) (IsWritten ((key, value) ∷ entries)) (write_key key)
      (λ key_out. write_value value >>= λ value_out.
        write_properties entries >>= λ rest. ok (line key_out value_out rest))
      (write_key-IsKey key a)
      λ key_out k.
        Returns-bind (IsValue value) (IsWritten ((key, value) ∷ entries)) (write_value value)
          (λ value_out. write_properties entries >>= λ rest. ok (line key_out value_out rest))
          (write_value-IsValue value b)
          λ value_out v.
            Returns-bind (IsWritten entries) (IsWritten ((key, value) ∷ entries))
              (write_properties entries) (λ rest. ok (line key_out value_out rest))
              (write_properties-IsWritten entries as')
              (λ rest w. line-IsWritten key value entries key_out value_out rest k v w)

read_back :
    (entries : List (Text × Text)) (m : Result (List ℕ))
    → Returns (IsWritten entries) m
    → (m >>= read_properties) ≡ ok entries
unfolding read_properties IsWritten
read_back entries (ok out) (long, h) = h (suc (length out)) out (omega arith) refl
read_back entries (throw e) h = absurd h

-- Reading the properties that were written gives them back, for keys and values of ASCII characters.
pub write_properties-read_properties :
    (entries : List (Text × Text))
    → All (λ (key, value). IsAscii key × IsAscii value) entries
    → (write_properties entries >>= read_properties) ≡ ok entries
write_properties-read_properties entries a =
    read_back entries (write_properties entries) (write_properties-IsWritten entries a)
