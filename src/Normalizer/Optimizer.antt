-- ===== src/Normalizer/Optimizer.antt =====
-- `SimpleQueryOptimizer` of netspeak/QueryNormalizer.cpp: fewer units that accept the same phrases.
pub mod Marks
pub mod Passes
pub mod Absorb
pub mod Meaning
pub mod Weight
pub mod Correct
use netspeak4_application_ng.Prelude.{
  ℕ, zero, suc, ◌+◌, ◌-◌, Bool, true, false, ◌||◌, List, [], ◌∷◌, ◌++◌, map, reverse, if◌then◌else◌,
  length, ltb, ◌==◌, Option, none, some, drop,
}
use netspeak4_application_ng.Model.NormQuery.{Source}
use netspeak4_application_ng.Model.SimpleQuery.{
  SimpleQueryUnit, Children, word, qmark, star, regex, concat, alternation, nil, cons, Tag,
  word_tag, qmark_tag, star_tag, regex_tag, concat_tag, alternation_tag, tag, children, to_list,
  from_list, min_length,
}

-- The test `child.tag() == tag`.
unfoldable pub has_tag : Tag → SimpleQueryUnit → Bool
has_tag word_tag (word _ _) = true
has_tag qmark_tag (qmark _) = true
has_tag star_tag (star _) = true
has_tag regex_tag (regex _ _) = true
has_tag concat_tag (concat _ _) = true
has_tag alternation_tag (alternation _ _) = true
has_tag _ _ = false

pub contains_child : List SimpleQueryUnit → Tag → Bool
unfolding has_tag
contains_child [] t = false
contains_child (u ∷ us) t = has_tag t u || contains_child us t

-- The loop of `inline_nested`.
pub inline_children : List SimpleQueryUnit → Tag → List SimpleQueryUnit
unfolding has_tag children
inline_children [] t = []
inline_children (u ∷ us) t =
    let rest = inline_children us t in if has_tag t u then children u ++ rest else u ∷ rest

pub inline_nested : List SimpleQueryUnit → Tag → List SimpleQueryUnit
unfolding contains_child inline_children
inline_nested us t = if contains_child us t then inline_children us t else us

-- A child with its least length, as it was cached.
abbrev pub Item : Type 0
Item = SimpleQueryUnit × ℕ

-- The index next to `i`, in the direction of the pass.
abbrev pub move_next : Bool → ℕ → ℕ
move_next true i = i + 1
move_next false i = i - 1

-- `mark_for_removal`, over the items that lie ahead of the star in the direction of the pass, of
-- which the first one has the index `i`: the indexes to remove, and how many items were processed.
pub mark_for_removal : Bool → ℕ → List Item → List ℕ × ℕ
unfolding has_tag
mark_for_removal forward i [] = ([], 0)
mark_for_removal forward i ((u, m) ∷ ahead) =
    let (to_remove, processed) = mark_for_removal forward (move_next forward i) ahead in
    if has_tag qmark_tag u
    then (to_remove, suc processed)
    else if m == 0
    then (i ∷ to_remove, suc processed)
    else ([], 1)

pub move_on : Bool → ℕ → ℕ → ℕ
move_on forward zero i = i
move_on forward (suc n) i = move_on forward n (move_next forward i)

-- The loop of a pass, which skips what a star has processed. It has fuel for every item.
pub pass : ℕ → Bool → ℕ → List Item → List ℕ
unfolding mark_for_removal move_on has_tag
pass zero forward i items = []
pass (suc f) forward i [] = []
pass (suc f) forward i ((u, m) ∷ ahead) =
    let (to_remove, processed) = mark_for_removal forward (move_next forward i) ahead in
    let skipped =
      to_remove ++ pass f forward (move_on forward (suc processed) i) (drop processed ahead) in
    let plain = pass f forward (move_next forward i) ahead in
    if has_tag star_tag u then skipped else plain

-- `std::sort` with `std::greater`.
pub insert_desc : ℕ → List ℕ → List ℕ
insert_desc i [] = i ∷ []
insert_desc i (j ∷ js) = let later = insert_desc i js in if ltb i j then j ∷ later else i ∷ j ∷ js

pub sort_desc : List ℕ → List ℕ
unfolding insert_desc
sort_desc [] = []
sort_desc (i ∷ is) = insert_desc i (sort_desc is)

-- `vector::erase` at an index.
pub erase_item : List Item → ℕ → List Item
erase_item [] i = []
erase_item (x ∷ items) zero = items
erase_item (x ∷ items) (suc i) = x ∷ erase_item items i

pub erase_items : List Item → List ℕ → List Item
unfolding erase_item
erase_items items [] = items
erase_items items (i ∷ is) = erase_items (erase_item items i) is

-- `remove`: from the greatest index down, in the children and in the cache alike.
pub remove : List Item → List ℕ → List Item
unfolding erase_items sort_desc
remove items to_remove = erase_items items (sort_desc to_remove)

pub with_min_length : SimpleQueryUnit → Item
with_min_length u = (u, min_length u)

pub unit_of : Item → SimpleQueryUnit
unit_of (u, m) = u

unfoldable pub first_pass : List Item → List Item
unfolding remove pass
first_pass items = remove items (pass (length items) true 0 items)

pub second_pass : List Item → List Item
unfolding remove pass
second_pass items = remove items (pass (length items) false (length items - 1) (reverse items))

pub concat_star_optimization : List SimpleQueryUnit → List SimpleQueryUnit
unfolding first_pass second_pass with_min_length unit_of
concat_star_optimization us = map unit_of (second_pass (first_pass (map with_min_length us)))

-- The source of the first empty alternation, the absorbing element of concatenation.
pub find_empty : List SimpleQueryUnit → Option Source
find_empty [] = none
find_empty (alternation s nil ∷ us) = some s
find_empty (alternation _ (cons _ _) ∷ us) = find_empty us
find_empty (word _ _ ∷ us) = find_empty us
find_empty (qmark _ ∷ us) = find_empty us
find_empty (star _ ∷ us) = find_empty us
find_empty (regex _ _ ∷ us) = find_empty us
find_empty (concat _ _ ∷ us) = find_empty us

-- What `optimize_simple_concat` does behind the inlining.
pub finish_concat : Source → List SimpleQueryUnit → Option Source → SimpleQueryUnit
unfolding contains_child concat_star_optimization from_list
finish_concat s us (some empty_source) = alternation empty_source nil
finish_concat s us none =
    if contains_child us star_tag
    then concat s (from_list (concat_star_optimization us))
    else concat s (from_list us)

-- `optimize_simple_concat` and `optimize_simple_alt`, for children that are optimized already.
unfoldable pub optimize_simple_concat : Source → List SimpleQueryUnit → SimpleQueryUnit
unfolding inline_nested find_empty finish_concat from_list concat_star_optimization contains_child
optimize_simple_concat s [] = concat s nil
optimize_simple_concat s (u ∷ []) = u
optimize_simple_concat s (u ∷ v ∷ us) =
    let inlined = inline_nested (u ∷ v ∷ us) concat_tag in
    finish_concat s inlined (find_empty inlined)

unfoldable pub optimize_simple_alt : Source → List SimpleQueryUnit → SimpleQueryUnit
unfolding inline_nested from_list
optimize_simple_alt s [] = alternation s nil
optimize_simple_alt s (u ∷ []) = u
optimize_simple_alt s (u ∷ v ∷ us) =
    alternation s (from_list (inline_nested (u ∷ v ∷ us) alternation_tag))

unfoldable mutual
  pub optimize_simple_unit : SimpleQueryUnit → SimpleQueryUnit
  optimize_simple_unit (concat s us) = optimize_simple_concat s (optimize_simple_children us)
  optimize_simple_unit (alternation s us) = optimize_simple_alt s (optimize_simple_children us)
  optimize_simple_unit (word t s) = word t s
  optimize_simple_unit (qmark s) = qmark s
  optimize_simple_unit (star s) = star s
  optimize_simple_unit (regex t s) = regex t s

  pub optimize_simple_children : Children → List SimpleQueryUnit
  optimize_simple_children nil = []
  optimize_simple_children (cons u us) = optimize_simple_unit u ∷ optimize_simple_children us

-- `optimize` works on the children of the root: the root itself stays.
unfoldable pub optimize : SimpleQueryUnit → SimpleQueryUnit
unfolding optimize_simple_children from_list
optimize (concat s us) = concat s (from_list (optimize_simple_children us))
optimize (alternation s us) = alternation s (from_list (optimize_simple_children us))
optimize (word t s) = word t s
optimize (qmark s) = qmark s
optimize (star s) = star s
optimize (regex t s) = regex t s
