-- ===== src/Util/PropertiesFormat/Progress.antt =====
-- Reading a property file ends, whatever is in it: the loops do not run out of fuel.
use netspeak4_application_ng.Prelude.{
  ℕ, zero, suc, ◌-◌, ◌≤◌, ◌<◌, ◌≡◌, refl, false, Bool-cases, inl, inr, List, [], ◌∷◌, ◌++◌, arith,
  length, ◌==◌, Text, Result, ok, throw, ◌>>=◌, ◌||◌, format_properties_error,
}
use netspeak4_application_ng.Util.PropertiesFormat.{
  backslash, is_space, is_line_break, is_delimiter, consume_spaces, consume_before_key,
  consume_delimiter, read_escaped, read_key_from, read_key, read_value_from, read_value, read_entry,
  read_next, read_entries, read_properties,
}
use netspeak4_application_ng.Util.PropertiesFormat.Escapes.{
  Leaves, Leaves-bind, Leaves-mono, rest_of, length-consume_spaces, length-consume_before_key,
  length-optional_delimiter, read_escaped-Leaves,
}

read_key_from-Leaves :
    (f : ℕ) (rest : List ℕ) (key : Text)
    → length rest < f
    → Leaves rest_of (length rest) (read_key_from f rest key)
unfolding read_key_from
read_key_from-Leaves zero rest key h = absurd (omega arith)
read_key_from-Leaves (suc f) [] key h = refl
read_key_from-Leaves (suc f) (c ∷ rest) key h = elim (Bool-cases (c == backslash)) [
  | inl e ↦ rw e (
      Leaves-bind rest_of rest_of (length rest) (suc (length rest)) (read_escaped rest key)
        (λ (rest', key'). read_key_from f rest' key') (read_escaped-Leaves rest key)
        λ (rest', key') k.
          Leaves-mono rest_of (length rest') (suc (length rest)) (read_key_from f rest' key')
            (omega arith) (read_key_from-Leaves f rest' key' (omega arith)))
  | inr e ↦ rw e (elim (Bool-cases (is_line_break c)) [
    | inl l ↦ rw l refl
    | inr l ↦ rw l (elim (Bool-cases (is_delimiter c || is_space c)) [
      | inl d ↦ rw d (omega arith)
      | inr d ↦ rw d (
          Leaves-mono rest_of (length rest) (suc (length rest))
            (read_key_from f rest (key ++ c ∷ [])) (omega arith)
            (read_key_from-Leaves f rest (key ++ c ∷ []) (omega arith)))
    ])
  ])
]

read_value_from-Leaves :
    (f : ℕ) (rest : List ℕ) (value : Text)
    → length rest < f
    → Leaves rest_of (length rest) (read_value_from f rest value)
unfolding read_value_from
read_value_from-Leaves zero rest value h = absurd (omega arith)
read_value_from-Leaves (suc f) [] value h = omega arith
read_value_from-Leaves (suc f) (c ∷ rest) value h = elim (Bool-cases (is_line_break c)) [
  | inl l ↦ rw l (omega arith)
  | inr l ↦ rw l (elim (Bool-cases (c == backslash)) [
    | inl e ↦ rw e (
        Leaves-bind rest_of rest_of (length rest) (suc (length rest)) (read_escaped rest value)
          (λ (rest', value'). read_value_from f rest' value') (read_escaped-Leaves rest value)
          λ (rest', value') k.
            Leaves-mono rest_of (length rest') (suc (length rest)) (read_value_from f rest' value')
              (omega arith) (read_value_from-Leaves f rest' value' (omega arith)))
    | inr e ↦ rw e (
        Leaves-mono rest_of (length rest) (suc (length rest))
          (read_value_from f rest (value ++ c ∷ [])) (omega arith)
          (read_value_from-Leaves f rest (value ++ c ∷ []) (omega arith)))
  ])
]

-- The delimiter takes a byte at least.
consume_delimiter-Leaves :
    (rest : List ℕ) → Leaves (λ left. left) (length rest - 1) (consume_delimiter rest)
unfolding consume_delimiter
consume_delimiter-Leaves [] = refl
consume_delimiter-Leaves (c ∷ rest) = elim (Bool-cases (is_delimiter c)) [
  | inl d ↦ rw d (omega (arith, length-consume_spaces rest))
  | inr d ↦ rw d (elim (Bool-cases (is_space c)) [
    | inl s ↦
        rw s (
          omega
            (arith, length-optional_delimiter (consume_spaces rest), length-consume_spaces rest))
    | inr s ↦ rw s refl
  ])
]

read_entry-Leaves : (rest : List ℕ) → Leaves rest_of (length rest - 1) (read_entry rest)
unfolding read_entry read_key read_value
read_entry-Leaves rest =
    Leaves-bind rest_of rest_of (length rest) (length rest - 1) (read_key rest)
      (λ (rest', key). consume_delimiter rest' >>= λ rest''.
        read_value rest'' >>= λ (left, value). ok (left, (key, value)))
      (read_key_from-Leaves (suc (length rest)) rest [] (omega arith))
      λ (rest', key) h.
        Leaves-bind (λ left. left) rest_of (length rest' - 1) (length rest - 1)
          (consume_delimiter rest')
          (λ rest''. read_value rest'' >>= λ (left, value). ok (left, (key, value)))
          (consume_delimiter-Leaves rest')
          λ rest'' k.
            Leaves-bind rest_of rest_of (length rest'') (length rest - 1) (read_value rest'')
              (λ (left, value). ok (left, (key, value)))
              (read_value_from-Leaves (suc (length rest'')) rest'' [] (omega arith))
              (λ (left, value) l. omega arith)

-- The call ends with the entries, or with an error on the format.
abbrev pub IsDecided {ℓ} : {A : Type ℓ} → Result A → Type 0
IsDecided (ok _) = Unit
IsDecided (throw e) = e ≡ format_properties_error

IsDecided-bind {ℓ κ} :
    {A : Type ℓ} {B : Type κ} (m : Result A) (f : A → B)
    → IsDecided m
    → IsDecided (m >>= λ a. ok (f a))
IsDecided-bind (ok a) f h = tt
IsDecided-bind (throw e) f h = h

after_entry :
    (further : List ℕ → Result (List (Text × Text))) (n : ℕ) (m : Result (List ℕ × (Text × Text)))
    → Leaves rest_of n m
    → ((rest : List ℕ) → length rest ≤ n → IsDecided (further rest))
    → IsDecided (m >>= λ (rest, entry). further rest >>= λ entries. ok (entry ∷ entries))
after_entry further n (ok (rest, entry)) h k =
    IsDecided-bind (further rest) (λ entries. entry ∷ entries) (k rest h)
after_entry further n (throw e) h k = h

read_next-IsDecided :
    (further : List ℕ → Result (List (Text × Text))) (stream : List ℕ)
    → ((rest : List ℕ) → suc (length rest) ≤ length stream → IsDecided (further rest))
    → IsDecided (read_next further stream)
unfolding read_next
read_next-IsDecided further [] k = tt
read_next-IsDecided further (c ∷ stream) k =
    after_entry further (length (c ∷ stream) - 1) (read_entry (c ∷ stream))
      (read_entry-Leaves (c ∷ stream)) (λ rest h. k rest (omega arith))

read_entries-IsDecided :
    (f : ℕ) (stream : List ℕ) → length stream < f → IsDecided (read_entries f stream)
unfolding read_entries
read_entries-IsDecided zero stream h = absurd (omega arith)
read_entries-IsDecided (suc f) stream h =
    read_next-IsDecided (read_entries f) (consume_before_key false stream) (λ rest k.
      read_entries-IsDecided f rest (omega (arith, length-consume_before_key false stream)))

-- Reading any stream ends, with its entries or with `format_properties_error`.
pub read_properties-IsDecided : (rest : List ℕ) → IsDecided (read_properties rest)
unfolding read_properties
read_properties-IsDecided rest = read_entries-IsDecided (suc (length rest)) rest (omega arith)
