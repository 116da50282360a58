-- ===== src/Lib.antt =====
-- The analyses behind the TCL language server of server/: how a TCL file or a Rivet template becomes
-- commands, references, definitions, declarations and folds, how those become the symbol table of a
-- workspace, how a name in a file is resolved to its definitions and references, and how the server
-- keeps the open documents and answers requests about them.
--
-- The program, from the text up. `Scan` (server/internal/tcl/scanner.go) cuts a text into tokens, and
-- `Parse` (parser.go) groups the words among them into commands. A braced word is opaque there; which
-- braced words are scripts is decided by `childBodies` (bodies.go), and `walkAll` (walk.go) parses
-- each such body again, with the offset of its inside and its scope. At each command it runs up to
-- four collectors: `emitDefs` (defs.go), `CommandRefs` (refs.go), `recordNSDecl` (nsdecl.go) and
-- `recordInherit` (classdecl.go). `FileFolds` (fold.go) makes the same descent. `Extract`
-- (server/internal/rvt/rvt.go) turns a template into a script with an offset map, and
-- server/internal/source/source.go runs the analyses on that script and translates the offsets back.
-- `IndexFile` (server/internal/index/index.go) files the result under the names of the workspace.
-- `Definition`, `References` and `Declarations` (server/internal/resolve/resolve.go) take an offset in
-- a file to locations. For the local of a proc they ask `ReachingAt` (reaching.go) for the bindings that
-- reach a use; for a call `$obj method`, which `ObjMethodAt` (objmethod.go) recognizes, they ask
-- `ClassOf` (classof.go) for the classes of the receiver; and for every other name they look up its
-- candidates in the index, the search for a method going through the inherited classes.
-- The server (server/internal/lsp/server.go) holds the text of the open documents beside the index. A
-- document is indexed when it is opened and changed, and a file that is not open when its watcher tells
-- of a change. A request is answered from the text that `sourceOf` gives: that of the open document,
-- else the one indexed. The call hierarchy (callhierarchy.go) groups the references to a callable by
-- the callables round them, and the calls in a callable by those they resolve to.
--
-- Which file models which part:
--   Base      numbers, lists and strings; Assoc: Go maps with string keys
--   Scanner   scanner.go: `round` is a turn of the loop, `lex` the loop, `balanced_span` both
--             `scanBraced` and `scanBracket`
--   Parser    parser.go: `group` is the loop of `Parse`
--   Located   where a piece of text stands in a larger one
--   VarRef    varref.go
--   Syntax    the helpers on single words in context.go, refs.go and defs.go
--   Scripts   `scriptBodies` and `exprBodies` of bodies.go; Bodies: `childBodies`
--   Refs      refs.go: `text_refs` is the loop of `scanRefs` and of `exprBracketRefs`
--   Targets   the names that a word declares, in defs.go; Defs: `emitDefs`, a list for each block
--   Decls     nsdecl.go and classdecl.go
--   Walk      the recursion of `walkAll` and of `FileFolds`, over any state; Walk/Scripts: the scripts that it and
--             the analyzer come to, as a relation that knows neither
--   Files     `FileAll` and its kin, with the collectors as hooks of the walk, and `FileFolds`
--   Nesting   recursion into pieces of text, what the walkers below have in common
--   ObjMethod objmethod.go
--   Scope     `enclosingProcOrScope` of reaching.go; ReachSet: its reaching sets and `localBindings`
--   Reaching  the analyzer of reaching.go: Steps for `analyzeIf`, `analyzeConservative` and
--             `analyzeLoop`, Running for `command`, `seq` and `ReachingAt`
--   ClassOf   classof.go
--   Rvt       rvt.go
--   Source    source.go, with the analyses at an offset in Source/Receivers
--   Index     index.go, with `sort.Strings` as a parameter of `Namespace`; Index/Entries: `AllSymbols`;
--             Index/Directory: `IndexDir`, over the entries that the walk of the file system visits
--   Resolve   server/internal/resolve/resolve.go: `candidates`, `lookupScoped` and `refFQ`; Members for
--             `methodInClass`, Locals for the locals of a proc, Targets for `Definition`, `References`
--             and `Declarations`. It reads the index as a `Workspace`, which Resolve/Workspaces fills
--             Resolve/Imports and Named: the names that a command name can stand for, as TCL has them
--   Position  server/internal/lsp/position.go, with the UTF-8 decoder as a parameter
--   Lsp       server/internal/lsp: positions, ranges and URIs of protocol.go, folding.go, `symbolKind`
--             and `shortName` of symbols.go, and of server.go `sourceOf` and the handlers for definitions
--             and references. Lsp/Hierarchy: callhierarchy.go, with `methodResolvesTo` in Overrides.
--             Lsp/Symbols: `leafSymbol` and `buildWorkspaceSymbols` of symbols.go.
--             Lsp/Frames: jsonrpc.go, a stream being a list of bytes.
--             Lsp/Documents: the messages of `dispatch` that change the open documents and the index, the
--             `initialize` that indexes the workspace among them
--   Tests     concrete inputs
--
-- A Go string is a list of bytes, an offset a natural number, and -1 or a false `ok` is `none`. A loop
-- with an index `i` into a text is handed the rest of the text from `i` on. Ends never come before
-- starts, so the lengths that source.go computes by subtraction are those of the source. A method that
-- changes a table takes the table and returns it. `emitDefs` can panic, at one slice expression, so
-- whatever collects definitions returns an option; `ReachingAt` can panic there and on a bare `switch`.
-- A Go map is walked in no fixed order; here the loops over a map take the order of an association list.
--
-- Fuel. `lex`, `scan_bare`, `segments`, `text_refs` and `extract_loop` have the length of the text at
-- hand, or one more, and each turn moves on by a byte at least; `skip_units` and `count_units` likewise,
-- with a decoder that gives each rune a byte at least. `walk` and `subst_refs` have one more than the
-- length of the text: a body and the inside of a substitution are shorter than the text that holds them,
-- and so it is with `nested`. `run_rounds` has the bound of the source on the rounds of a loop. The
-- search through classes has one more than the number of classes: each class that is entered is new.
-- `resolves` of the call hierarchy is the same search.
-- `read_fields` has one more than the length of the stream, and each turn takes a line off it.
--
-- Panics in the server. `dispatch` recovers a panic, and the state stays as the handler left it:
-- `outcome_of` has the file removed from the index and its new source stored, for `IndexFile` does both
-- before the analysis that panics. A handler of a request that panics is `none`.
--
-- Not modelled: of symbols.go the symbol tree of a document, `buildDocumentSymbols`. JSON, progress
-- reports, the lock of `Write` and the editor clients are input and output; of `dispatch`, only the
-- messages that change the documents and the index are put together as one function.
pub mod Base
pub mod Scanner
pub mod Parser
pub mod Located
pub mod VarRef
pub mod Syntax
pub mod Scripts
pub mod Bodies
pub mod Refs
pub mod Assoc
pub mod Targets
pub mod Defs
pub mod Decls
pub mod Walk
pub mod Files
pub mod Nesting
pub mod ObjMethod
pub mod Scope
pub mod ReachSet
pub mod Reaching
pub mod ClassOf
pub mod Rvt
pub mod Source
pub mod Index
pub mod Resolve
pub mod Position
pub mod Lsp
pub mod Tests
