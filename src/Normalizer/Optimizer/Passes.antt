-- ===== src/Normalizer/Optimizer/Passes.antt =====
-- The two passes of `concat_star_optimization`, index by index, against one walk over the list.
use netspeak4_application_ng.Prelude.{
  ℕ, suc, ◌+◌, ◌-◌, ◌<◌, ◌≡◌, refl, sym, ap, ap₂, ◌∙◌, Bool, true, false, List, [], ◌∷◌, ◌++◌,
  reverse, arith, length, length-append, ◌==◌, All, append-nil, append_assoc, Bool-cases, inl, inr,
}
use mathlib.Core.List.{reverse-append, reverse-reverse}
use netspeak4_application_ng.Model.SimpleQuery.{qmark_tag, star_tag}
use netspeak4_application_ng.Normalizer.Optimizer.{
  Item, has_tag, sort_desc, erase_item, erase_items, remove, first_pass, second_pass,
}
use netspeak4_application_ng.Normalizer.Optimizer.Marks.{
  absorb, marks, pass-marks, All-sort_desc, insert_desc-least, insert_desc-greatest,
  erase_items-snoc, erase_item-middle, marks-above, marks-below,
}

append-snoc :
    (before : List Item) (x : Item) (after : List Item)
    → (before ++ x ∷ []) ++ after ≡ before ++ x ∷ after
append-snoc before x after = append_assoc before (x ∷ []) after

-- Going forward, an item is passed over: it joins those before the walk.
forward-keep :
    (active : Bool) (before : List Item) (x : Item) (items : List Item)
    → remove ((before ++ x ∷ []) ++ items) (marks true active (length (before ++ x ∷ [])) items)
      ≡ (before ++ x ∷ []) ++ absorb active items
    → remove (before ++ x ∷ items) (marks true active (length before + 1) items)
      ≡ before ++ x ∷ absorb active items
forward-keep active before x items ih =
    ap₂ (λ l i. remove l (marks true active i items)) (sym (append-snoc before x items))
      (omega (arith, length-append before (x ∷ [])))
    ∙ ih
    ∙ append-snoc before x (absorb active items)

remove-least :
    (items : List Item) (i : ℕ) (js : List ℕ)
    → All (λ j. i < j) js
    → remove items (i ∷ js) ≡ erase_item (remove items js) i
unfolding remove sort_desc
remove-least items i js h =
    rw (insert_desc-least i (sort_desc js) (All-sort_desc (λ j. i < j) js h))
      (erase_items-snoc items (sort_desc js) i)

remove-greatest :
    (items : List Item) (i : ℕ) (js : List ℕ)
    → All (λ j. j < i) js
    → remove items (i ∷ js) ≡ remove (erase_item items i) js
unfolding remove sort_desc erase_items
remove-greatest items i js h =
    rw (insert_desc-greatest i (sort_desc js) (All-sort_desc (λ j. j < i) js h)) refl

forward-drop :
    (before : List Item) (x : Item) (items : List Item)
    → remove (before ++ x ∷ items) (marks true true (length before + 1) items)
      ≡ before ++ x ∷ absorb true items
    → remove (before ++ x ∷ items) (length before ∷ marks true true (length before + 1) items)
      ≡ before ++ absorb true items
forward-drop before x items ih =
    remove-least (before ++ x ∷ items) (length before) (marks true true (length before + 1) items)
      (marks-above (suc (length before)) true (length before + 1) items (omega arith))
    ∙ ap (λ l. erase_item l (length before)) ih
    ∙ erase_item-middle before x (absorb true items)

remove-none : (items : List Item) → remove items [] ≡ items
unfolding remove sort_desc erase_items
remove-none items = refl

forward-absorb :
    (active : Bool) (before items : List Item)
    → remove (before ++ items) (marks true active (length before) items)
      ≡ before ++ absorb active items
unfolding marks absorb
forward-absorb active before [] = remove-none (before ++ [])
forward-absorb true before ((u, m) ∷ items) = elim (Bool-cases (has_tag qmark_tag u)) [
  | inl q ↦
      rw q
        (forward-keep true before (u, m) items (forward-absorb true (before ++ (u, m) ∷ []) items))
  | inr q ↦ rw q (elim (Bool-cases (m == 0)) [
    | inl z ↦ rw z (
        forward-drop before (u, m) items
          (forward-keep true before (u, m) items
            (forward-absorb true (before ++ (u, m) ∷ []) items)))
    | inr z ↦ rw z (
        forward-keep false before (u, m) items (forward-absorb false (before ++ (u, m) ∷ []) items))
  ])
]
forward-absorb false before ((u, m) ∷ items) =
    forward-keep (has_tag star_tag u) before (u, m) items
      (forward-absorb (has_tag star_tag u) (before ++ (u, m) ∷ []) items)

-- Removing the marked indexes in the first pass leaves what one walk from the front keeps.
pub first_pass_lem : (items : List Item) → first_pass items ≡ absorb false items
unfolding first_pass
first_pass_lem items =
    rw (pass-marks (length items) true 0 items (omega arith)) (forward-absorb false [] items)

-- Going backward, an item that is passed over joins those behind the walk.
reverse-cons :
    (x : Item) (items after : List Item) → reverse (x ∷ items) ++ after ≡ reverse items ++ x ∷ after
reverse-cons x items after =
    ap (λ l. l ++ after) (reverse-append (x ∷ []) items)
    ∙ append_assoc (reverse items) (x ∷ []) after

backward-keep :
    (x : Item) (items after kept : List Item) (js : List ℕ)
    → remove (reverse items ++ x ∷ after) js ≡ reverse kept ++ x ∷ after
    → remove (reverse (x ∷ items) ++ after) js ≡ reverse (x ∷ kept) ++ after
backward-keep x items after kept js ih =
    ap (λ l. remove l js) (reverse-cons x items after) ∙ ih ∙ sym (reverse-cons x kept after)

length-reverse : (items : List Item) → length (reverse items) ≡ length items
length-reverse [] = refl
length-reverse (x ∷ items) =
    ap length (reverse-append (x ∷ []) items)
    ∙ length-append (reverse items) (x ∷ [])
    ∙ omega (arith, length-reverse items)

marks_below_length :
    (active : Bool) (i : ℕ) (items : List Item)
    → i ≡ length items - 1
    → All (λ j. j < length items) (marks false active i items)
unfolding marks
marks_below_length active i [] e = tt
marks_below_length active i (x ∷ items) e =
    marks-below (length (x ∷ items)) active i (x ∷ items) (omega arith)

backward-drop :
    (x : Item) (items after kept : List Item) (i : ℕ) (js : List ℕ)
    → i ≡ length items
    → All (λ j. j < length items) js
    → remove (reverse items ++ after) js ≡ reverse kept ++ after
    → remove (reverse (x ∷ items) ++ after) (i ∷ js) ≡ reverse kept ++ after
backward-drop x items after kept i js e below ih =
    ap (λ k. remove (reverse (x ∷ items) ++ after) (k ∷ js)) e
    ∙ remove-greatest (reverse (x ∷ items) ++ after) (length items) js below
    ∙ ap (λ l. remove l js)
        (ap₂ erase_item (reverse-cons x items after) (sym (length-reverse items))
          ∙ erase_item-middle (reverse items) x after)
    ∙ ih

backward-absorb :
    (active : Bool) (i : ℕ) (items after : List Item)
    → i ≡ length items - 1
    → remove (reverse items ++ after) (marks false active i items)
      ≡ reverse (absorb active items) ++ after
unfolding marks absorb
backward-absorb active i [] after e = remove-none after
backward-absorb true i ((u, m) ∷ items) after e = elim (Bool-cases (has_tag qmark_tag u)) [
  | inl q ↦ rw q (
      backward-keep (u, m) items after (absorb true items) (marks false true (i - 1) items)
        (backward-absorb true (i - 1) items ((u, m) ∷ after) (omega arith)))
  | inr q ↦ rw q (elim (Bool-cases (m == 0)) [
    | inl z ↦ rw z (
        backward-drop (u, m) items after (absorb true items) i (marks false true (i - 1) items)
          (omega arith) (marks_below_length true (i - 1) items (omega arith))
          (backward-absorb true (i - 1) items after (omega arith)))
    | inr z ↦ rw z (
        backward-keep (u, m) items after (absorb false items) (marks false false (i - 1) items)
          (backward-absorb false (i - 1) items ((u, m) ∷ after) (omega arith)))
  ])
]
backward-absorb false i ((u, m) ∷ items) after e =
    backward-keep (u, m) items after (absorb (has_tag star_tag u) items)
      (marks false (has_tag star_tag u) (i - 1) items)
      (backward-absorb (has_tag star_tag u) (i - 1) items ((u, m) ∷ after) (omega arith))

-- Removing the marked indexes in the second pass leaves what one walk from the back keeps.
pub second_pass_lem :
    (items : List Item) → second_pass items ≡ reverse (absorb false (reverse items))
unfolding second_pass
second_pass_lem items =
    let back = reverse items in
    let i = length items - 1 in
    let n : length back ≡ length items = length-reverse items in
    ap (λ js. remove items js) (pass-marks (length items) false i back (omega arith))
    ∙ ap (λ l. remove l (marks false false i back))
        (sym (append-nil (reverse back) ∙ reverse-reverse items))
    ∙ backward-absorb false i back [] (omega arith)
    ∙ append-nil (reverse (absorb false back))
