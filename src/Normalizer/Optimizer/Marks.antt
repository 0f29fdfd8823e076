-- ===== src/Normalizer/Optimizer/Marks.antt =====
-- The indexes that a pass of `concat_star_optimization` marks, and the walk that drops them.
use netspeak4_application_ng.Prelude.{
  ℕ, zero, suc, ◌+◌, ◌-◌, ◌≤◌, ◌<◌, ◌≡◌, refl, ap, Bool, true, false, List, [], ◌∷◌, ◌++◌, arith,
  if◌then◌else◌, length, ltb, ◌==◌, drop, All, Bool-cases, inl, inr, lt→ltb, le→ltb-false,
}
use netspeak4_application_ng.Model.SimpleQuery.{qmark_tag, star_tag}
use netspeak4_application_ng.Normalizer.Optimizer.{
  Item, has_tag, move_next, move_on, mark_for_removal, pass, insert_desc, sort_desc, erase_item,
  erase_items,
}

-- The walk: behind a star, question marks are passed over, and units that may be empty are dropped.
unfoldable pub absorb : Bool → List Item → List Item
absorb active [] = []
absorb true ((u, m) ∷ items) =
    let kept = (u, m) ∷ absorb true items in
    let dropped = absorb true items in
    let stopped = (u, m) ∷ absorb false items in
    if has_tag qmark_tag u then kept else if m == 0 then dropped else stopped
absorb false ((u, m) ∷ items) = (u, m) ∷ absorb (has_tag star_tag u) items

-- The indexes that the walk drops.
unfoldable pub marks : Bool → Bool → ℕ → List Item → List ℕ
marks forward active i [] = []
marks forward true i ((u, m) ∷ items) =
    let kept = marks forward true (move_next forward i) items in
    let dropped = i ∷ marks forward true (move_next forward i) items in
    let stopped = marks forward false (move_next forward i) items in
    if has_tag qmark_tag u then kept else if m == 0 then dropped else stopped
marks forward false i ((u, m) ∷ items) =
    marks forward (has_tag star_tag u) (move_next forward i) items

pub mark-marks :
    (f : ℕ) (forward : Bool)
    → ((i : ℕ) (items : List Item)
        → length items ≤ f
        → pass f forward i items ≡ marks forward false i items)
    → (i : ℕ) (ahead : List Item) → length ahead ≤ f
    → (mark_for_removal forward i ahead).0
        ++ pass f forward
            (move_on forward (mark_for_removal forward i ahead).1 i)
            (drop (mark_for_removal forward i ahead).1 ahead)
      ≡ marks forward true i ahead
unfolding mark_for_removal move_on marks
mark-marks f forward ih i [] h = ih i [] h
mark-marks f forward ih i ((u, m) ∷ ahead) h = elim (Bool-cases (has_tag qmark_tag u)) [
  | inl q ↦ rw q (mark-marks f forward ih (move_next forward i) ahead (omega arith))
  | inr q ↦ rw q (elim (Bool-cases (m == 0)) [
    | inl z ↦
        rw z (ap (λ l. i ∷ l) (mark-marks f forward ih (move_next forward i) ahead (omega arith)))
    | inr z ↦ rw z (ih (move_next forward i) ahead (omega arith))
  ])
]

pub pass-marks :
    (f : ℕ) (forward : Bool) (i : ℕ) (items : List Item)
    → length items ≤ f
    → pass f forward i items ≡ marks forward false i items
unfolding pass marks move_on
pass-marks zero forward i [] h = refl
pass-marks zero forward i (x ∷ items) h = absurd (omega arith)
pass-marks (suc f) forward i [] h = refl
pass-marks (suc f) forward i ((u, m) ∷ ahead) h = elim (Bool-cases (has_tag star_tag u)) [
  | inl s ↦
      rw s (mark-marks f forward (pass-marks f forward) (move_next forward i) ahead (omega arith))
  | inr s ↦ rw s (pass-marks f forward (move_next forward i) ahead (omega arith))
]

-- Sorting a list of indexes whose first one is the least, or the greatest.
pub All-insert_desc :
    (P : ℕ → Type 0) (i : ℕ) (js : List ℕ) → P i → All P js → All P (insert_desc i js)
unfolding insert_desc
All-insert_desc P i [] h k = (h, tt)
All-insert_desc P i (j ∷ js) h (k, ks) = elim (Bool-cases (ltb i j)) [
  | inl e ↦ rw e (k, All-insert_desc P i js h ks)
  | inr e ↦ rw e (h, (k, ks))
]

pub All-sort_desc : (P : ℕ → Type 0) (js : List ℕ) → All P js → All P (sort_desc js)
unfolding sort_desc
All-sort_desc P [] h = tt
All-sort_desc P (j ∷ js) (h, hs) = All-insert_desc P j (sort_desc js) h (All-sort_desc P js hs)

pub insert_desc-least :
    (i : ℕ) (js : List ℕ) → All (λ j. i < j) js → insert_desc i js ≡ js ++ i ∷ []
unfolding insert_desc
insert_desc-least i [] h = refl
insert_desc-least i (j ∷ js) (h, hs) =
    rw (lt→ltb i j h) (ap (λ l. j ∷ l) (insert_desc-least i js hs))

pub insert_desc-greatest : (i : ℕ) (js : List ℕ) → All (λ j. j < i) js → insert_desc i js ≡ i ∷ js
unfolding insert_desc
insert_desc-greatest i [] h = refl
insert_desc-greatest i (j ∷ js) (h, hs) = rw (le→ltb-false i j (omega arith)) refl

pub erase_items-snoc :
    (items : List Item) (js : List ℕ) (i : ℕ)
    → erase_items items (js ++ i ∷ []) ≡ erase_item (erase_items items js) i
unfolding erase_items
erase_items-snoc items [] i = refl
erase_items-snoc items (j ∷ js) i = erase_items-snoc (erase_item items j) js i

pub erase_item-middle :
    (before : List Item) (x : Item) (after : List Item)
    → erase_item (before ++ x ∷ after) (length before) ≡ before ++ after
unfolding erase_item
erase_item-middle [] x after = refl
erase_item-middle (y ∷ before) x after = ap (λ l. y ∷ l) (erase_item-middle before x after)

pub marks-above :
    (low : ℕ) (active : Bool) (i : ℕ) (items : List Item)
    → low ≤ i
    → All (λ j. low ≤ j) (marks true active i items)
unfolding marks
marks-above low active i [] h = tt
marks-above low true i ((u, m) ∷ items) h = elim (Bool-cases (has_tag qmark_tag u)) [
  | inl q ↦ rw q (marks-above low true (i + 1) items (omega arith))
  | inr q ↦ rw q (elim (Bool-cases (m == 0)) [
    | inl z ↦ rw z (h, marks-above low true (i + 1) items (omega arith))
    | inr z ↦ rw z (marks-above low false (i + 1) items (omega arith))
  ])
]
marks-above low false i ((u, m) ∷ items) h =
    marks-above low (has_tag star_tag u) (i + 1) items (omega arith)

pub marks-below :
    (high : ℕ) (active : Bool) (i : ℕ) (items : List Item)
    → i < high
    → All (λ j. j < high) (marks false active i items)
unfolding marks
marks-below high active i [] h = tt
marks-below high true i ((u, m) ∷ items) h = elim (Bool-cases (has_tag qmark_tag u)) [
  | inl q ↦ rw q (marks-below high true (i - 1) items (omega arith))
  | inr q ↦ rw q (elim (Bool-cases (m == 0)) [
    | inl z ↦ rw z (h, marks-below high true (i - 1) items (omega arith))
    | inr z ↦ rw z (marks-below high false (i - 1) items (omega arith))
  ])
]
marks-below high false i ((u, m) ∷ items) h =
    marks-below high (has_tag star_tag u) (i - 1) items (omega arith)
