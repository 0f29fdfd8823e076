-- ===== src/Lib.antt =====
-- Netspeak 4: the normalization of queries, regular expressions and the index that matches them, a
-- cache, and the format of property files.
--
-- A Netspeak query is parsed into a tree of units (src/netspeak/model/Query.hpp). Before it is
-- answered, QueryNormalizer::normalize (src/netspeak/QueryNormalizer.cpp) turns it into norm
-- queries, which are sequences of words and question marks of a bounded length:
--
--   query --QuerySimplifier--> simple query --SimpleQueryOptimizer--> simple query
--         --normalize_regexes (with NormQueryCounter)--> simple query without regexes
--         --StarQueryConverter--> star queries --SimpleQueryNormalizer--> norm queries
--
-- Modules and code:
--   Model/LengthRange    src/netspeak/model/LengthRange.hpp, .cpp: the struct and its operators
--   Model/NormQuery      src/netspeak/model/NormQuery.hpp, .cpp: units, counts, operator==
--   Model/Query          src/netspeak/model/Query.hpp, .cpp: units, length_range
--   Model/SimpleQuery    src/netspeak/model/SimpleQuery.hpp, .cpp: units, lengths, children
--   Util/Math            src/netspeak/util/Math.hpp: binomial, factorial
--   Util/Permutation     std::next_permutation
--   Util/ChainCutter     src/netspeak/util/ChainCutter.hpp
--   Util/Vec             src/netspeak/util/Vec.hpp: vec_sorted_filter_dups
--   Util/LfuCache        src/netspeak/util/LfuCache.hpp
--   Util/PropertiesFormat  src/netspeak/util/PropertiesFormat.hpp, .cpp: reading and writing
--   Normalizer/...       src/netspeak/QueryNormalizer.cpp: Simplifier (QuerySimplifier), Optimizer
--                        (SimpleQueryOptimizer), Counter (NormQueryCounter), Regexes (find_regexes,
--                        binary_search, normalize_regexes), StarQuery (StarQuery), StarConverter
--                        (StarQueryConverter), Expansion (SimpleQueryNormalizer), Normalize
--                        (QueryNormalizer::normalize)
--   Regex/Query          src/netspeak/regex/RegexQuery.hpp, .cpp: RegexUnit, RegexQuery and its counts
--   Regex/Builder        src/netspeak/regex/RegexQuery.cpp: RegexQueryBuilder
--   Regex/Parser         src/netspeak/regex/parsers.cpp: parse_netspeak_regex_query
--   Regex/Index          src/netspeak/regex/DefaultRegexIndex.hpp, .cpp: the vocabulary and its hash
--                        table; Index/Matching its strategies to match a query and the
--                        pattern it writes; Index/Perl the syntax and the meaning of regular
--                        expressions of boost, byte by byte
--   Regex/Utf8           UTF-8 of code points, as std::codecvt writes it, and where in an encoding
--                        characters begin
--   Regex/Lang           which words a regex query accepts
--   Language             sets of phrases, up to a bound on the length
--   Prelude              shared names, tests on numbers, lists, results of code that may throw
--   Samples              concrete inputs
--
-- State and operations. Trees of units are data types with a constructor for each tag; vectors are
-- lists; a text is the list of its bytes. The objects that the code passes by reference and changes
-- are arguments and results: the list of norm queries of to_norm_queries, the star queries of
-- StarQueryConverter, the state and the output of a ChainCutter. A shared pointer to a query or a
-- unit is its address, since only its identity is used, as the source of what is made of it.
-- Exceptions are the errors of Result. The functions keep the names of the code; what is the body
-- of a loop there has a name of its own here.
--
-- Numbers are natural numbers with the wrap-around of uint32_t and uint64_t (size_t) written out
-- where the code computes. Sizes of vectors are not bounded.
--
-- The meaning of a simple query, a star query and a norm query is the set of phrases it accepts
-- (SimpleLang, StarLang, NormQueryLang); that of a query as the user wrote it is QueryLang, under the
-- settings of the simplifier: what lower-casing makes of the words, and the synonyms of the
-- dictionary. Statements on it take which words a regular expression matches as a parameter. Same n L
-- K says that L and K hold the same phrases of at most n words.
--
-- Loops and fuel. The loops over children and lists are recursion on them. The loop over a chain
-- cutter has fuel 2 ^ (n + k) for n units and k cuts, and all_segments_lem shows that it ends before
-- the fuel does. binary_search has fuel for the width of the range, which shrinks in every round; a
-- pass of concat_star_optimization has fuel for every item; the loop over permutations of an order
-- set has fuel for their number.
--
-- The loops over a stream in PropertiesFormat have fuel for its length, since each round takes a byte.
--
-- A regular expression in a query is a word with special characters. The default index parses it into
-- a RegexQuery, whose builder keeps its units in a normal form, and looks the accepted words up in a
-- hash table where they are few, or walks through the vocabulary. Code points and bytes are natural
-- numbers; a `char` of the vocabulary is signed where the hash of a word is computed. The vector of
-- units of the builder is kept from its last to its first. `hash & mask` is a remainder, since the
-- table has a power of two of slots. Reading behind a table is the error undefined_behaviour of
-- Result. The loop that fills the table has fuel for its slots, which all come up in so many rounds
-- where the table has a power of two of them; find_word walks through the slots behind its start.
--
-- A cache keeps the keys of its heap without their order: the key of least priority is found by a
-- search, the first of several. A priority that map and heap share by a pointer stands in the model
-- once, under its key.
--
-- Parameters: UnicodeString::toLower of ICU and boost::split in Simplifier (TextLibrary), and the
-- regex index, a virtual interface, in Regexes (RegexIndex); it takes the text of a regular
-- expression, so that the call of parse_netspeak_regex_query before it is part of the parameter.
-- boost::regex_match and the clock in Regex/Index/Matching (Environment), where the characters of the
-- vocabulary are an argument too. Of boost::regex_match a statement assumes at most, at one
-- expression, that a text it matches is one of those that the expression stands for (FollowsSyntax).
--
-- Not modelled: the parser, which ANTLR generates; printing; Query's add_child with its parent
-- pointers; the conversion from UTF-8; the containers on disk, retrieval, the service, the command
-- line and the bindings. They are I/O, generated, or a later extension.
pub mod Prelude
pub mod Language
pub mod Model
pub mod Util
pub mod Normalizer
pub mod Regex
pub mod Samples
