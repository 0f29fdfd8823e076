-- ===== src/Normalizer/Simplifier.antt =====
-- `QuerySimplifier` of netspeak/QueryNormalizer.cpp: from queries to simple queries.
pub mod Meaning
pub mod Orders
pub mod Permuted
pub mod Units
pub mod Sound
pub mod Bounded
pub mod Lengths
use netspeak4_application_ng.Prelude.{
  ℕ, zero, suc, ◌+◌, ◌%◌, Bool, ◌||◌, List, [], ◌∷◌, ◌++◌, if◌then◌else◌, length, ltb, leb, ◌==◌,
  Text, text_eq, u32_mod, Option, none, some, Result, ok, throw, ◌>>=◌, invalid_query_error,
  get_elem?,
}
use netspeak4_application_ng.Model.LengthRange.{is_empty}
use netspeak4_application_ng.Model.NormQuery.{Source}
use netspeak4_application_ng.Model.Query.{QueryUnit, QueryChildren}
use netspeak4_application_ng.Model.SimpleQuery
use netspeak4_application_ng.Model.SimpleQuery.{SimpleQueryUnit, Children, Tag, from_list, children}
use netspeak4_application_ng.Normalizer.StarQuery.{Options}
use netspeak4_application_ng.Normalizer.Optimizer.{has_tag}
use netspeak4_application_ng.Util.Math.{factorial}
use netspeak4_application_ng.Util.Permutation.{next_permutation}

-- What the code takes from libraries: `UnicodeString::toLower` of ICU, on UTF-8, and `boost::split`
-- at each space.
pub record TextLibrary : Type 0 where
  pub to_lower : Text → Text
  pub split_spaces : Text → List Text

-- The members of the simplifier. The dictionary lists its entries in the order in which
-- `equal_range` goes through those of one key; `query` is the address of the query.
pub record QuerySimplifier : Type 0 where
  pub options : Options
  pub dictionary : Option (List (Text × Text))
  pub allow_regex : Bool
  pub lower_case : Bool
  pub query : ℕ

-- `add_to_concat` and `add_to_alternation`: children of the same kind are inlined.
unfoldable pub add_to_concat : List SimpleQueryUnit → SimpleQueryUnit → List SimpleQueryUnit
unfolding has_tag children
add_to_concat concat unit =
    if has_tag Tag.concat_tag unit then concat ++ children unit else concat ++ unit ∷ []

unfoldable pub add_to_alternation : List SimpleQueryUnit → SimpleQueryUnit → List SimpleQueryUnit
unfolding has_tag children
add_to_alternation alt unit =
    if has_tag Tag.alternation_tag unit then alt ++ children unit else alt ++ unit ∷ []

-- The permutations that `do { ... } while (std::next_permutation(...))` goes through.
pub all_permutations : ℕ → List ℕ → List (List ℕ)
all_permutations zero indexes = []
all_permutations (suc f) indexes =
    let (indexes', more) = next_permutation indexes in
    let rest = all_permutations f indexes' in indexes ∷ (if more then rest else [])

range_from : ℕ → ℕ → List ℕ
range_from i zero = []
range_from i (suc n) = i ∷ range_from (i + 1) n

-- The concatenation of the elements in the order of the indexes, all of which are in range.
permuted : List SimpleQueryUnit → List SimpleQueryUnit → List ℕ → List SimpleQueryUnit
permuted elements acc [] = acc
permuted elements acc (i ∷ indexes) = elim (get_elem? elements i) [
  | none ↦ acc
  | some u ↦ permuted elements (add_to_concat acc u) indexes
]

permuted_concats : Source → List SimpleQueryUnit → List (List ℕ) → List SimpleQueryUnit
permuted_concats s elements [] = []
permuted_concats s elements (indexes ∷ rest) =
    SimpleQuery.concat s (from_list (permuted elements [] indexes))
    ∷ permuted_concats s elements rest

words_of : Source → List Text → List SimpleQueryUnit
words_of s [] = []
words_of s (w ∷ ws) = SimpleQuery.word w s ∷ words_of s ws

-- One synonym: a word, or a phrase that is split into its words.
synonym : Source → List Text → SimpleQueryUnit
synonym s (w ∷ []) = SimpleQuery.word w s
synonym s ws = SimpleQuery.concat s (from_list (words_of s ws))

module _ (lib : TextLibrary) where
  -- The entries of `equal_range(text)`.
  pub equal_range : Text → List (Text × Text) → List Text
  equal_range text [] = []
  equal_range text ((key, syn) ∷ entries) =
      let rest = equal_range text entries in if text_eq key text then syn ∷ rest else rest

  synonyms : Source → Text → List Text → List SimpleQueryUnit
  unfolding synonym words_of from_list
  synonyms s text [] = []
  synonyms s text (syn ∷ range) =
      let rest = synonyms s text range in
      if text_eq syn text then rest else synonym s (lib.split_spaces syn) ∷ rest

  dict_choice : Source → Text → List Text → SimpleQueryUnit
  unfolding synonyms from_list
  dict_choice s text [] = SimpleQuery.word text s
  dict_choice s text (syn ∷ range) =
      SimpleQuery.alternation s
        (from_list (SimpleQuery.word text s ∷ synonyms s text (syn ∷ range)))

  pub dict_lookup : Source → Text → Option (List (Text × Text)) → SimpleQueryUnit
  unfolding dict_choice equal_range
  dict_lookup s text none = SimpleQuery.word text s
  dict_lookup s text (some entries) = dict_choice s text (equal_range text entries)

  module _ (c : QuerySimplifier) where
    to_source : ℕ → Source
    to_source unit = record { query = c.query; unit = unit }

    unfoldable pub get_text : Text → Text
    get_text text = if c.lower_case then lib.to_lower text else text

    unfoldable pub plus_to_simple : ℕ → SimpleQueryUnit
    unfolding to_source from_list
    plus_to_simple a =
        let s = to_source a in
        SimpleQuery.concat s (from_list (SimpleQuery.qmark s ∷ SimpleQuery.star s ∷ []))

    unfoldable pub regex_to_simple : Text → ℕ → SimpleQueryUnit
    unfolding to_source get_text
    regex_to_simple t a =
        let s = to_source a in
        if c.allow_regex
        then SimpleQuery.regex (get_text t) s
        else SimpleQuery.alternation s SimpleQuery.nil

    unfoldable pub dict_to_simple : Text → ℕ → SimpleQueryUnit
    unfolding to_source get_text dict_lookup
    dict_to_simple t a = dict_lookup (to_source a) (get_text t) c.dictionary

    -- The end of `order_to_simple`, behind its two checks.
    unfoldable pub order_elements : Source → List SimpleQueryUnit → SimpleQueryUnit
    unfolding from_list permuted_concats permuted all_permutations range_from factorial
    order_elements s [] = SimpleQuery.concat s SimpleQuery.nil
    order_elements s (u ∷ []) = u
    order_elements s (u ∷ v ∷ us) =
        let elements = u ∷ v ∷ us in
        let n = length elements in
        SimpleQuery.alternation s (
          from_list (permuted_concats s elements (all_permutations (factorial n) (range_from 0 n))))

    -- The checks on the elements of an order set, and on their least length.
    order_checked : Source → Option (List SimpleQueryUnit × ℕ) → Result SimpleQueryUnit
    unfolding order_elements factorial
    order_checked s none = ok (SimpleQuery.alternation s SimpleQuery.nil)
    order_checked s (some (elements, elements_min_length)) =
        if ltb c.options.max_length elements_min_length
        then ok (SimpleQuery.alternation s SimpleQuery.nil)
        else if leb 7 (length elements)
            || ltb c.options.max_norm_queries (factorial (length elements))
        then throw invalid_query_error
        else ok (order_elements s elements)

    pub optional : Source → QueryChildren → List SimpleQueryUnit
    optional s QueryChildren.nil = SimpleQuery.concat s SimpleQuery.nil ∷ []
    optional s (QueryChildren.cons _ QueryChildren.nil) = SimpleQuery.concat s SimpleQuery.nil ∷ []
    optional s (QueryChildren.cons _ (QueryChildren.cons _ _)) = []

    -- What the loop of `order_to_simple` does with one child: `none` if the set accepts nothing.
    unfoldable pub add_element :
        List SimpleQueryUnit → ℕ → SimpleQueryUnit → Option (List SimpleQueryUnit × ℕ)
    unfolding is_empty
    add_element elements sum child =
        let range = SimpleQuery.length_range child in
        let sum' = (sum + range.min) % u32_mod in
        if is_empty range
        then none
        else if range.max == 0
        then some (elements, sum')
        else some (elements ++ child ∷ [], sum')

    -- `unit_to_simple`, with the loops of `option_to_simple`, `alt_to_simple`, `concat_to_simple`
    -- and `order_to_simple` over the children.
    unfoldable mutual
      unfolding plus_to_simple regex_to_simple dict_to_simple to_source get_text optional
          order_checked add_to_alternation add_to_concat from_list

      pub unit_to_simple : QueryUnit → Result SimpleQueryUnit
      unit_to_simple (QueryUnit.word t a) = ok (SimpleQuery.word (get_text t) (to_source a))
      unit_to_simple (QueryUnit.qmark a) = ok (SimpleQuery.qmark (to_source a))
      unit_to_simple (QueryUnit.star a) = ok (SimpleQuery.star (to_source a))
      unit_to_simple (QueryUnit.plus a) = ok (plus_to_simple a)
      unit_to_simple (QueryUnit.regex t a) = ok (regex_to_simple t a)
      unit_to_simple (QueryUnit.dictset t a) = ok (dict_to_simple t a)
      unit_to_simple (QueryUnit.optionset a us) = do
        alt ← add_alternatives (optional (to_source a) us) us
        ok (SimpleQuery.alternation (to_source a) (from_list alt))
      unit_to_simple (QueryUnit.orderset a us) = do
        elements ← collect_elements [] 0 us
        order_checked (to_source a) elements
      unit_to_simple (QueryUnit.alternation a us) = do
        alt ← add_alternatives [] us
        ok (SimpleQuery.alternation (to_source a) (from_list alt))
      unit_to_simple (QueryUnit.concat a us) = do
        concat ← add_concatenated [] us
        ok (SimpleQuery.concat (to_source a) (from_list concat))

      pub add_alternatives : List SimpleQueryUnit → QueryChildren → Result (List SimpleQueryUnit)
      add_alternatives alt QueryChildren.nil = ok alt
      add_alternatives alt (QueryChildren.cons u us) = do
        unit ← unit_to_simple u
        add_alternatives (add_to_alternation alt unit) us

      pub add_concatenated : List SimpleQueryUnit → QueryChildren → Result (List SimpleQueryUnit)
      add_concatenated concat QueryChildren.nil = ok concat
      add_concatenated concat (QueryChildren.cons u us) = do
        unit ← unit_to_simple u
        add_concatenated (add_to_concat concat unit) us

      pub collect_elements :
          List SimpleQueryUnit → ℕ → QueryChildren → Result (Option (List SimpleQueryUnit × ℕ))
      collect_elements elements sum QueryChildren.nil = ok (some (elements, sum))
      collect_elements elements sum (QueryChildren.cons u us) = do
        child ← unit_to_simple u
        elim (add_element elements sum child) [
          | none ↦ ok none
          | some (elements', sum') ↦ collect_elements elements' sum' us
        ]

    unfoldable pub to_simple : QueryUnit → Result SimpleQueryUnit
    unfolding unit_to_simple
    to_simple alternatives = unit_to_simple alternatives
