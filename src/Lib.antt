-- ===== src/Lib.antt =====
-- The filter engine of wirefilter, under engine/src: filters are parsed against a scheme of typed
-- fields, compiled to closures, and run on a context that holds the values of the fields. This library
-- models the parts below, each in the module of its name, with the names of the source.
--
-- RangeSet models engine/src/range_set.rs, the sets that `in {...}` compiles to. The binary search of the
-- standard library's slices is a bisection here, with a round for each element and so enough rounds.
--
-- Types models `Type` and the packed `CompoundType` of engine/src/types.rs; Value models `LhsValue`, arrays
-- and maps (engine/src/types.rs, engine/src/lhs_types) as their contents, with nested access.
--
-- Lex models engine/src/lex.rs, and Lex.Run the results of the lexers that call themselves: a result, an
-- error, a panic or the end of the fuel. Rhs models the literals of engine/src/rhs_types: Int, Bytes, Utf8
-- (String::from_utf8), Ip, ListName and Patterns (regular expressions and wildcards). A text is the list of
-- its code points. The loops of the string lexers run on fuel, one unit for each character of the input and
-- one more; each round drops a character. Rhs.External is the record of the outside operations that these
-- lexers call: address parsing of the standard library, the crates cidr, regex and wildcard, and searching.
--
-- Index models the iterator over [*] accesses in engine/src/ast/index_expr.rs, and Index.Compile the
-- three ways to run an indexed comparison. The iterator runs on fuel; the theorems give the rounds
-- that are enough. The value of the identifier and the comparison are arguments.
--
-- Index.Parse is the lexer of an identifier with its indexes, on fuel of one more than the length of the
-- rest, since each round takes two brackets; the lexer of identifiers is an argument.
--
-- Compare models the operators of engine/src/ast/field_expr.rs on a value and a literal, and Compare.Parse
-- their lexer behind a left side. The list matchers of a context are functions, by the place of their
-- list. Logical models the expressions of engine/src/ast/logical_expr.rs and what they compile to; how a
-- comparison compiles is an argument. A closure may panic, so that what `and` and `or` skip is not run.
-- Logical.Parse is the lexer with operator precedence, over any lexer of comparisons, on fuel of four
-- times the length of the input and two: between two characters it calls itself at most four times. Filter
-- models FilterParser::parse, the check of the root type (engine/src/ast/mod.rs, engine/src/ast/parse.rs)
-- and the compilation of the root, with the lexers of Compare and Logical put together. Filter.Errors
-- models ParseError::new, on bytes with the span as an offset and a length. Spans are texts here, and the
-- pointers that place one in the input are an argument of the parser.
--
-- Functions models engine/src/functions/mod.rs, the trait of function definitions as a record and the
-- functions with fixed parameters, Functions.Builtin any.rs, all.rs and concat.rs beside it, and
-- Functions.Lexed the lexer of a call in engine/src/ast/function_expr.rs, over any lexer of arguments, on
-- fuel of two more than the length of the input, since each argument after the first takes a comma.
--
-- Scheme models `SchemeStore` of engine/src/scheme.rs, which several schemes share, Scheme.Builder the
-- builder of a scheme and its lookups, and Context engine/src/execution_context.rs, with the fields that
-- are added to the store when a context is there (Context.Later). An `Arc` is an address, which the
-- pointer comparisons compare; operations take the store and return it changed. Each change is one step
-- under the write lock. The types of functions, of lists and of list matchers, trait objects in the
-- source, are parameters.
--
-- 64-bit and 32-bit words are native numbers with the wrap-around written out, and `i64` is a sign and
-- a number. Hash maps are association lists, and a `BTreeMap` the list of its entries in order.
--
-- Not modelled: serde, display and error texts, the searchers of `contains` and the external crates, which
-- are parameters, visitors, the C and WebAssembly bindings. The lexer of identifiers and of arguments, what
-- a call compiles to, list matchers and the values of filters (FilterValueAst) are outside the models too.
--
-- Prelude has the shared helpers; Tests has runs at concrete inputs.
pub mod Prelude
pub mod RangeSet
pub mod Types
pub mod Lex
pub mod Rhs
pub mod Value
pub mod Index
pub mod Scheme
pub mod Context
pub mod Compare
pub mod Logical
pub mod Filter
pub mod Functions
mod Tests
