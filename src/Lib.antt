-- ===== src/Lib.antt =====
-- Verification of parts of morcus-net, a website with tools for reading Latin.
--
-- The parts and how they interact:
-- * Packing models src/common/bytedata/packing.ts. `Packing/Buffers` has `pack` and the byte format,
--   `Packing/Stream` has `unpackStreamed` and `readMetadata`, `Packing/Numbers` has `packSortedNats`,
--   `unpackIntegers` and the namespace `PackedNumbers`, which the corpus index and the dictionaries
--   store their lists of numbers with. A byte array is a list of numbers below 256. The async
--   generator is a run over the list of its input chunks: what it yields is a list, and its end is a
--   value (`Ending`). Numbers are naturals; where the source has `a | b` for a bit that may be set, the
--   model has `set_bit`.
-- * Inflection models src/morceus/types.ts and src/morceus/inflection_data_utils.ts, the grammatical
--   data that the analyzer, the dictionaries and the corpus exchange: the enums with their numbers
--   (`Types`), the operations on one field (`Fields`), `compareGrammaticalData` (`Compare`),
--   `mergeInflectionData` (`Merge`), `toInflectionData` (`Tags`), the writers of tags (`Words`),
--   `convertUpos` (`Upos`), and `packWordInflectionData` with its inverse (`Packed`), whose bits are
--   those of `Packing/Numbers`. A field is absent, one value or an array (`DataField`). Exceptions are
--   errors of a `Result`.
-- * Query models src/web/client/pages/corpus/autocomplete, the search box of the corpus:
--   token_types.ts and input_tokenizer.ts (`Tokens`), whose tokens go to the state machine of
--   state_transitions.ts (`Transitions`). The loop variables are the record `Machine`, a round is
--   `feed_token`, and the messages are a data type.
-- * Structures models two small parts that others call: src/morceus/numerals/roman_numerals.ts
--   (`Roman`, with `String.toUpperCase` as a parameter) and src/common/data_structures/trie.ts
--   (`Trie`, whose nodes have their maps as lists of entries in the order of insertion).
-- * Xml models src/common/xml: the trees of xml_node.ts (`Nodes`) and xml_node_serialization.ts
--   (`Serialization`). A tree is read with as much fuel as its text is long, which is enough since each
--   call is for a shorter text.
-- * Routing models what the client puts into URLs: the path templates of src/web/client/router/paths.ts
--   (`Paths`, on objects as association lists in `Records`) and the page data of
--   src/web/client/pages/corpus/corpus_router.ts with `safeParseInt` of src/common/misc_utils.ts
--   (`PageData`).
-- * Crunch models src/morceus/crunch.ts, which analyses a word form with tables of stems and endings:
--   the data (`Types`, of cruncher_types.ts and stem_parsing.ts), whether a stem and an ending fit
--   (`Endings`, with `expandSingleEnding` of tables/template_utils_no_fs.ts, on the merge of Inflection),
--   the match of one spelling (`Exact`), the other spellings with consonantal i and u (`Spellings`, with
--   the vowels of src/common/character_utils.ts), the consolidation of results that include each other
--   (`Clusters`, on the comparison of Inflection), and what `crunchWord` makes of these (`Words`). The
--   tables are functions from their keys; an assertion that fails is an error. The loops of the
--   spellings and of the consolidation have fuel for each set of places and for each result.
--   `toLowerCase`, `toUpperCase`, `normalize` and the sorting of strings are parameters.
--   `Crunch/Lengths` compares the vowel lengths of two words (src/common/character_utils.ts), and
--   `Crunch/Decompose` models src/morceus/decompose_token.ts.
-- * Structures/ArrayMap models src/common/data_structures/collect_map.ts, with which Crunch groups its
--   results.
-- * Cleaning models the cutting of texts into words, src/common/text_cleaning.ts.
-- Prelude has the tests on the native numbers, lists measured by them, results, and texts as lists of
-- UTF-16 code units with the string methods that the sources call. Numbers are naturals; the one result
-- that can be negative, the count that a header gives, is an integer (`ℤ`).
--
-- Bounds and fuel: `unpackStreamed` has fuel for each byte, each chunk and each piece of the input
-- (`rounds`): a round takes at least one of them. `unpackIntegers` and the binary search have fuel for
-- each bit and each number: a round uses up one at least. The ceiling of the binary logarithm is a search with fuel for each number below.
-- Lengths are below 2 ^ 32 and packed numbers below 2 ^ 31, as the assertions of the source ask.
--
-- Not modelled: the floating-point logarithm is taken to be exact; the order of yields and reads of the
-- generator in time; the wording of error messages; how the tables of stems are built, the dictionaries, the
-- library, the macronizer, the web server and the user interface, which are conversions of data sets,
-- I/O, or not treated yet.
pub mod Prelude
pub mod Packing
pub mod Inflection
pub mod Query
pub mod Structures
pub mod Xml
pub mod Routing
pub mod Crunch
pub mod Cleaning
