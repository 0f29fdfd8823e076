-- ===== src/Samples/Passes.antt =====
-- The theorems on the optimizer, at samples.
use netspeak4_application_ng.Prelude.{◌≡◌, refl, List, [], ◌∷◌, reverse, arith, false}
use netspeak4_application_ng.Language.{Same}
use netspeak4_application_ng.Model.SimpleQuery.{
  SimpleQueryUnit, word, qmark, star, SimpleLang, ConcatLang, terminals, from_list,
}
use netspeak4_application_ng.Normalizer.Optimizer.{
  Item, first_pass, second_pass, concat_star_optimization, optimize,
}
use netspeak4_application_ng.Normalizer.Optimizer.Marks.{absorb}
use netspeak4_application_ng.Normalizer.Optimizer.Passes.{first_pass_lem, second_pass_lem}
use netspeak4_application_ng.Normalizer.Optimizer.Meaning.{concat_star_optimization-Same}
use netspeak4_application_ng.Normalizer.Optimizer.Correct.{optimize-Same}
use netspeak4_application_ng.Samples.Data.{the, here, Exact, optional_star}

-- `the * ? *`, with the least lengths.
abbrev items : List Item
items = (word the here, 1) ∷ (star here, 0) ∷ (qmark here, 1) ∷ (star here, 0) ∷ []

first_pass_lem_example : first_pass items ≡ absorb false items
first_pass_lem_example = first_pass_lem items

second_pass_lem_example : second_pass items ≡ reverse (absorb false (reverse items))
second_pass_lem_example = second_pass_lem items

abbrev units : List SimpleQueryUnit
units = word the here ∷ star here ∷ qmark here ∷ star here ∷ []

concat_star_optimization-Same_example :
    Same 5
      (ConcatLang Exact (from_list (concat_star_optimization units)))
      (ConcatLang Exact (from_list units))
unfolding terminals from_list
concat_star_optimization-Same_example = concat_star_optimization-Same Exact 5 units (omega arith)

optimize-Same_example :
    Same 5 (SimpleLang Exact (optimize optional_star)) (SimpleLang Exact optional_star)
unfolding terminals
optimize-Same_example = optimize-Same Exact 5 optional_star (omega arith)

-- Tests.
first_pass_test : first_pass items ≡ (word the here, 1) ∷ (star here, 0) ∷ (qmark here, 1) ∷ []
unfolding first_pass
first_pass_test = refl
