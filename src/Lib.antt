-- ===== src/Lib.antt =====
-- Verification of gnata, a JSONata implementation in Go.
--
-- An expression is tokenized by internal/lexer and parsed by internal/parser; internal/evaluator
-- walks the tree with an Environment, a chain of variable scopes, and functions/ holds the
-- built-in functions. gnata.go and stream.go are the entry points; a stream evaluates many
-- expressions over many events and keeps the plan for each schema in the cache of
-- bounded_cache.go.
--
--   Base     helpers: Boolean tests on numbers, byte strings and lists, association lists with their
--            laws, integers, UTF-8 encoding.
--   Cache    bounded_cache.go. BoundedCache is the ring buffer with its published snapshot and its
--            counters; a call is a function from a cache to a reply and a cache. The mutex makes a call
--            one step, so a run is a list of calls. Cache.Fifo is the queue it is compared with.
--   Lexer    internal/lexer: Token, Chars (character tests and operator tables), Regex, Strings,
--            Numbers and Next follow token.go and lexer.go. A lexer is its source, as bytes, and a
--            position; scanning gives a token or a LexError with the position that is left. Closing
--            describes which slash ends a regex.
--   Env      internal/evaluator/env.go: Bind, Lookup, LookupDirect and the marks of plain arrays. A
--            scope is a record with the fields of Environment that hold bindings.
--   Integer  functions/string_format_integer.go: Roman and alphabetic numerals, numbers in
--            words and decimal pictures, as lists of runes. An int64 is kept as its two's complement
--            below 2 ^ 64, the float64 that words count to as a natural number, which is exact below
--            2 ^ 53. Words.Phrase, Small and Scales describe the words of a number for the proof.
--   Signature
--            internal/parser/signature.go: ParseSig over bytes. An index is the text behind it.
--   OrderedMap
--            internal/evaluator/ordered_map.go: the map that keeps its keys in order, with the cache
--            of its normalized view. Its Go map is an association list.
--   Counter  internal/evaluator/env.go: the $eval depth and the nesting budget. An evaluation is the
--            tree of its calls.
--   Ast      internal/parser/ast.go: the tree, as mutual data types. A node is its position, marks,
--            group and a form that depends on its type. Ast.Height measures trees. Ast.FunctionDepth is
--            depth.go and Ast.TailCall is tailcall.go; Ast.Chains and Ast.Depths describe the depths that
--            the former records.
--   Parser   internal/parser/parser.go: the Pratt parser. A method is a function from a parser to a
--            result; Monad has the state, the errors and the reading of tokens, Parts the constructs
--            for prefix position, Infix those for infix position, Expression the method expression and
--            Parse. What the parser needs of a lexer is the interface TokenSource, which Source fills
--            with the modelled lexer and Precedence.Reading with a list of tokens. Formed describes
--            the trees that the grammar allows, and Precedence infix expressions, how they are written
--            and the trees they stand for. Returns has the rules by which the proofs follow a method.
--   Url      functions/string_encoding.go: $encodeUrl, $encodeUrlComponent and their decoders. The string
--            that is encoded is the list of its runes, the one that is decoded the list of its bytes.
--            A result is Decoded, in which a malformed text and the
--            model's fuel running out differ. Valid is about UTF-8, Escapes about runs of escapes, Runs about the encoder's text.
--
-- Loops are structural recursions, or recursions on fuel. The fuel of the lexer's restart loop is
-- the source's length and one more; that of toRoman and of toAlphabetic is the number itself,
-- which their loops decrease; that of a decimal number's digits is the number and one more, which
-- each division by ten decreases; that of toWords exceeds the number, which a division by a scale
-- and the remainder decrease; that of ParseSig is the length of the signature, of which each round
-- takes a byte; that of decodeURI is the length of its text; that of the parser bounds the nesting
-- of expression and the rounds of each loop, and is the number of bytes left and one more, since
-- each of them reads a token.
--
-- Not modelled: strconv.ParseFloat, a parameter of the lexer; float64 and its negation, parameters
-- of the parser; the texts of the parser's errors, whose codes and tokens are kept; the
-- conversions between float64 and int64 around formatIntegerWithPicture and
-- parseIntegerWithPicture, words of numbers that are negative or beyond int64; the call depth, the
-- sequence limit, the context and the deadline of an evaluation; the passes over the tree behind
-- the parser, the evaluator and the other built-in functions; the copy of apd under
-- internal/third_party; wasm, npm and the examples.
pub mod Base
pub mod Cache
pub mod Lexer
pub mod Env
pub mod Integer
pub mod Signature
pub mod OrderedMap
pub mod Counter
pub mod Ast
pub mod Parser
pub mod Url
