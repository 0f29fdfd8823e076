-- ===== src/Normalizer/Optimizer/Meaning.antt =====
-- `concat_star_optimization` and the inlining of children against the phrases a query accepts.
use netspeak4_application_ng.Prelude.{
  ℕ, ◌<◌, ◌≡◌, refl, sym, ap, ◌∙◌, Bool, true, false, List, [], ◌∷◌, ◌++◌, map, reverse, arith, All,
  Bool-cases, inl, inr, Text, ◌==◌, uint32_max,
}
use mathlib.Core.List.{reverse-append, reverse-reverse}
use netspeak4_application_ng.Language.{
  ε, ◌⊙◌, Same, Same-refl, Same-sym, Same-trans, ⊙_cong, ⊙_assoc, ε_⊙, ⊙_ε,
}
use netspeak4_application_ng.Model.SimpleQuery.{
  SimpleQueryUnit, qmark_tag, star_tag, SimpleLang, ConcatLang, terminals, terminals_of, from_list,
}
use netspeak4_application_ng.Model.SimpleQuery.Empty.{min_length-zero}
use netspeak4_application_ng.Normalizer.Optimizer.{
  Item, has_tag, with_min_length, unit_of, first_pass, second_pass, concat_star_optimization,
}
use netspeak4_application_ng.Normalizer.Optimizer.Passes.{first_pass_lem, second_pass_lem}
use netspeak4_application_ng.Normalizer.Optimizer.Marks.{absorb}
use netspeak4_application_ng.Normalizer.Optimizer.Absorb.{
  forward, backward, WalkLang, IsCached, absorb_idle,
}

All-absorb :
    (P : Item → Type 0) (active : Bool) (items : List Item)
    → All P items
    → All P (absorb active items)
unfolding absorb
All-absorb P active [] h = tt
All-absorb P true ((u, m) ∷ items) (h, hs) = elim (Bool-cases (has_tag qmark_tag u)) [
  | inl q ↦ rw q (h, All-absorb P true items hs)
  | inr q ↦ rw q (elim (Bool-cases (m == 0)) [
    | inl z ↦ rw z (All-absorb P true items hs)
    | inr z ↦ rw z (h, All-absorb P false items hs)
  ])
]
All-absorb P false ((u, m) ∷ items) (h, hs) = (h, All-absorb P (has_tag star_tag u) items hs)

All-snoc :
    (P : Item → Type 0) (items : List Item) (x : Item) → All P items → P x → All P (items ++ x ∷ [])
All-snoc P [] x h k = (k, tt)
All-snoc P (y ∷ items) x (h, hs) k = (h, All-snoc P items x hs k)

All-reverse : (P : Item → Type 0) (items : List Item) → All P items → All P (reverse items)
All-reverse P [] h = tt
All-reverse P (x ∷ items) (h, hs) =
    rw (reverse-append (x ∷ []) items) (All-snoc P (reverse items) x (All-reverse P items hs) h)

pub unit_of-with_min_length :
    (us : List SimpleQueryUnit) → map unit_of (map with_min_length us) ≡ us
unfolding with_min_length unit_of
unit_of-with_min_length [] = refl
unit_of-with_min_length (u ∷ us) = ap (λ l. u ∷ l) (unit_of-with_min_length us)

module _ (matches : Text → Text → Type 0) (n : ℕ) where
  IsCached-with_min_length :
      (us : List SimpleQueryUnit)
      → terminals_of (from_list us) < uint32_max
      → IsCached matches (forward n) (map with_min_length us)
  unfolding with_min_length from_list terminals
  IsCached-with_min_length [] h = tt
  IsCached-with_min_length (u ∷ us) h =
      (min_length-zero matches u (omega arith), IsCached-with_min_length us (omega arith))

  -- A walk along the list has the language of the concatenation.
  WalkLang-forward :
      (items : List Item)
      → WalkLang matches (forward n) items ≡ ConcatLang matches (from_list (map unit_of items))
  unfolding unit_of from_list
  WalkLang-forward [] = refl
  WalkLang-forward ((u, m) ∷ items) = ap (λ L. SimpleLang matches u ⊙ L) (WalkLang-forward items)

  back-snoc :
      (items : List Item) (x : Item)
      → Same n
          (WalkLang matches (backward n) (items ++ x ∷ []))
          (SimpleLang matches x.0 ⊙ WalkLang matches (backward n) items)
  back-snoc [] (u, m) =
      Same-trans (ε_⊙ (SimpleLang matches u)) (Same-sym (⊙_ε (SimpleLang matches u)))
  back-snoc ((v, k) ∷ items) (u, m) =
      Same-trans (⊙_cong (back-snoc items (u, m)) (Same-refl (SimpleLang matches v))) (
        ⊙_assoc (SimpleLang matches u) (WalkLang matches (backward n) items) (SimpleLang matches v))

  back-reverse :
      (items : List Item)
      → Same n (WalkLang matches (backward n) (reverse items)) (WalkLang matches (forward n) items)
  back-reverse [] = Same-refl ε
  back-reverse ((u, m) ∷ items) = rw (reverse-append ((u, m) ∷ []) items) (
      Same-trans (back-snoc (reverse items) (u, m))
        (⊙_cong (Same-refl (SimpleLang matches u)) (back-reverse items)))

  module _ (items : List Item) (cached : IsCached matches (forward n) items) where
    -- Each pass keeps the language, and what it keeps is cached as before.
    first-Same :
        Same n
          (WalkLang matches (forward n) (first_pass items))
          (WalkLang matches (forward n) items)
    first-Same = rw (first_pass_lem items) (absorb_idle matches (forward n) items cached)

    first-IsCached : IsCached matches (backward n) (reverse (first_pass items))
    first-IsCached =
        All-reverse (λ (u, m). m ≡ 0 → SimpleLang matches u []) (first_pass items)
          (rw (first_pass_lem items)
            (All-absorb (λ (u, m). m ≡ 0 → SimpleLang matches u []) false items cached))

    second-Same :
        Same n
          (WalkLang matches (forward n) (second_pass (first_pass items)))
          (WalkLang matches (forward n) (first_pass items))
    second-Same =
        let walked = absorb false (reverse (first_pass items)) in
        rw (second_pass_lem (first_pass items)) (
          Same-trans (Same-sym (back-reverse (reverse walked))) (
            rw (reverse-reverse walked) (
              Same-trans
                (absorb_idle matches (backward n) (reverse (first_pass items)) first-IsCached)
                (back-reverse (first_pass items)))))

  -- `concat_star_optimization` keeps the set of phrases that a concatenation accepts, for children
  -- with fewer than 2^32 - 1 terminals.
  pub concat_star_optimization-Same :
      (us : List SimpleQueryUnit)
      → terminals_of (from_list us) < uint32_max
      → Same n
          (ConcatLang matches (from_list (concat_star_optimization us)))
          (ConcatLang matches (from_list us))
  unfolding concat_star_optimization
  concat_star_optimization-Same us few =
      let items = map with_min_length us in
      let cached = IsCached-with_min_length us few in
      let same = Same-trans (second-Same items cached) (first-Same items cached) in
      let before = WalkLang-forward (second_pass (first_pass items)) in
      let after =
        WalkLang-forward items
        ∙ ap (λ l. ConcatLang matches (from_list l)) (unit_of-with_min_length us) in
      rw (sym before) (rw (sym after) same)
