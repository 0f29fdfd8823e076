-- ===== src/Model/SimpleQuery/Edit.antt =====
-- Adding and removing the children of a unit.
use netspeak4_application_ng.Prelude.{
  ℕ, zero, suc, ◌≡◌, refl, ap, ◌++◌, ◌∷◌, [], List, ok, throw, ◌>>=◌, length, arith, ◌≤◌,
  tracable_logic_error,
}
use netspeak4_application_ng.Model.NormQuery.{Source}
use netspeak4_application_ng.Model.SimpleQuery.{
  SimpleQueryUnit, Children, word, qmark, star, regex, concat, alternation, nil, cons, push_back,
  add_child, take_last, pop_children, pop_back, take_child, remove_child, from_list, child_list,
  with_children,
}

take_last-push_back :
    (v : SimpleQueryUnit) (us : Children) (u : SimpleQueryUnit)
    → take_last v (push_back us u) ≡ (cons v us, u)
unfolding take_last push_back
take_last-push_back v nil u = refl
take_last-push_back v (cons w us) u = rw (take_last-push_back w us u) refl

pop_children-push_back :
    (us : Children) (u : SimpleQueryUnit) → pop_children (push_back us u) ≡ ok (us, u)
unfolding pop_children push_back
pop_children-push_back nil u = refl
pop_children-push_back (cons v us) u = ap ok (take_last-push_back v us u)

-- Adding a child and popping the last one gives the unit and the child back; for a terminal, adding
-- the child is the error already.
pub add_child-pop_back :
    (unit u : SimpleQueryUnit)
    → (add_child unit u >>= pop_back) ≡ (add_child unit u >>= λ _. ok (unit, u))
unfolding add_child pop_back child_list with_children
add_child-pop_back (concat s us) u = rw (pop_children-push_back us u) refl
add_child-pop_back (alternation s us) u = rw (pop_children-push_back us u) refl
add_child-pop_back (word t s) u = refl
add_child-pop_back (qmark s) u = refl
add_child-pop_back (star s) u = refl
add_child-pop_back (regex t s) u = refl

take_child-at :
    (before : List SimpleQueryUnit) (u : SimpleQueryUnit) (after : List SimpleQueryUnit)
    → take_child (from_list (before ++ u ∷ after)) (length before)
      ≡ ok (from_list (before ++ after), u)
unfolding take_child from_list
take_child-at [] u after = refl
take_child-at (v ∷ before) u after = rw (take_child-at before u after) refl

take_child-out_of_range :
    (us : List SimpleQueryUnit) (i : ℕ)
    → length us ≤ i
    → take_child (from_list us) i ≡ throw tracable_logic_error
unfolding take_child from_list
take_child-out_of_range [] i h = refl
take_child-out_of_range (u ∷ us) zero h = absurd (omega arith)
take_child-out_of_range (u ∷ us) (suc i) h = rw (take_child-out_of_range us i (omega arith)) refl

-- Of a concatenation, removing the child at an index leaves the children before and after it and
-- gives the child, and removing at an index past the last child throws `tracable_logic_error`.
pub remove_child_lem :
    (s : Source) (before : List SimpleQueryUnit) (u : SimpleQueryUnit)
    (after : List SimpleQueryUnit) (i : ℕ)
    → length before ≤ i
    → (remove_child (concat s (from_list (before ++ u ∷ after))) (length before)
        ≡ ok (concat s (from_list (before ++ after)), u))
      × (remove_child (concat s (from_list before)) i ≡ throw tracable_logic_error)
unfolding remove_child child_list with_children
remove_child_lem s before u after i h =
    (rw (take_child-at before u after) refl, rw (take_child-out_of_range before i h) refl)
