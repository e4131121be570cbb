-- ===== src/Lib.antt =====
-- maestro-cms: Go packages that extract text from documents, split it into chunks, embed the chunks
-- through a client, and keep objects in a store.
--
-- The parts and how they interact:
--   chunk/ cuts a source text into chunks by token budgets (Chunk). `Split` in chunk/chunk.go takes
--   the trimmed text, asks a segmenter for units (`Paragraphs`, or `Headings` of chunk/headings.go),
--   packs units while they fit, and splits a unit that alone exceeds the budget (`hardSplit`, with the
--   fence-aware split of chunk/codesplit.go).
--   embed/ takes chunks with their provenance, batches them and calls an embedding client (Embed).
--   content/content.go has the sources and artifacts that an application persists (Content).
--   store/ is the contract of an object store; testcms/memorystore.go and store/gcs/gcs.go implement it
--   (Store).
--   extract/ turns the bytes of a source into artifacts (Extract). `Registry.Extract` puts a limit on
--   the caller's reader and calls the extractor of the media type, which reads it with `ReadAll`;
--   extract/preset registers the formats.
--
-- Which file models which code:
--   Chunk.Defs: the types, the configuration's defaults and `appendChunk`.
--   Chunk.Cuts: `findBoundary`, `lastSentenceEnd`, `lastWhitespace`, `snapEndToRuneBoundary` and
--   `snapStartToRuneStart` (find_boundary, last_sentence_end, last_whitespace, snap_end, snap_start).
--   Chunk.Segment: `validUnits`, `runeAligned`, `Paragraphs` and `nextBlankLine`.
--   Chunk.Lines and Chunk.Headings: the line tests and the segmenter of chunk/headings.go.
--   Chunk.Pack: `growChunk` and `overlapStart`. Chunk.Hard.Loop: the packing loop, which `Split`,
--   `splitFenced` and `splitLines` each write out; its parameter is what they do with a unit that
--   exceeds the budget.
--   Chunk.Hard.Prose: `hardSplitProse`. Chunk.Hard.Fenced: the rest of chunk/codesplit.go, and `hardSplit`.
--   Chunk.Split: `Split`. Chunk.Run: the vocabulary of the statements on chunk sequences.
--   Embed.Defs: the types of embed/embed.go, `withDefaults`, `validate` and `tokensFor`.
--   Embed.RequestId, Embed.Batches: `requestID` and `packBatches`. Embed.Batch: `embedBatch` and
--   `addBatchFailure`. Embed.Run: `Run` and `assemble`. Embed.Fake: testcms/embedder.go.
--   Embed.Poison has no code of its own: it is about `Run` with a client that refuses poison inputs.
--   Embed.Pipeline is about `Split` and then `Run`.
--   Store.Defs, Store.Helpers: store/store.go and store/helpers.go. Store.Memory: the methods of
--   testcms/memorystore.go. Store.Gcs: the methods of store/gcs/gcs.go over a client of the SDK.
--   Store.Gcs.Sessions is about sequences of its calls.
--   Extract.Io: readers, the context, `ctxReader`, `limitReader` and `io.ReadAll`; Extract.Io.Source is
--   a source of finitely many bytes. Extract.Defs: the errors, artifacts by value and `ReadAll`.
--   Extract.Registry, Extract.Normalize: the rest of extract/extract.go, with `Supports` and
--   `SupportedMediaTypes`; Extract.Helpers: the rest of extract/helpers.go. Extract.Plain: extract/text.go.
--   Extract.Markdown, Extract.Html, Extract.Pdf: extract/markdown, extract/html and extract/pdf, with its
--   engines in Extract.Pdf.Pdftotext and Extract.Pdf.Purego. Extract.Ooxml: what extract/docx and
--   extract/pptx write out both (`maxDecompressed`, `cappedReader`, the loop over XML tokens).
--   Extract.Docx: extract/docx. Extract.Slides, Extract.Pptx: the order of the slides, and the rest of
--   extract/pptx. Extract.Ooxml.Document and Extract.Pptx.Deck are vocabulary for documents and decks as
--   tokens. Extract.Preset: extract/preset.
--   Content: `Source` and `Artifact` of content/content.go; Content.Sharing: the heap of maps and blobs
--   that clones must not share. Content.Hash: content/hash.go.
--   Text: strings as lists of bytes, with what the code uses of `strings`, `unicode` and `unicode/utf8`.
--   Prelude: the names and lemmas that the parts share. Tests: runs, and the theorems at concrete inputs.
--
-- State and results: output parameters (`chunks`, `idx`, `recordsByPos`, `failures`) are passed and
-- returned, errors are values, a Go map is an association list with its newest entry first; an archive's
-- files by name are its list, of which the last counts.
--
-- Bounds and fuel: a loop that is not over a list runs on fuel and returns `none` when it has none left.
-- The loops over a text get its length and one more, since each round passes a byte; the packing loop
-- gets the number of units and one more, since each round passes a unit; `embedBatch` gets the length
-- of the batch and one more, since each half of a batch of two or more is shorter. `io.ReadAll` and the
-- loop over XML tokens get their fuel from the caller, since a reader or a part may go on for ever; for a
-- source of finitely many bytes, one more than its bytes and pieces is enough. Go's `int` is ℤ
-- where it can be negative and ℕ elsewhere. The sums of token counts in `packBatches` wrap around as
-- in Go (`add64`), and a limit of the largest int64 makes the readers that count bytes panic as in Go
-- (`slice_panic`). The other sums are not wrapped: offsets stay below the length of a text in memory, and
-- the token sums of `growChunk` and of the overlap are taken to stay below 2^63, which an estimator
-- that counts at most the bytes of its text keeps. An estimator returns no negative count.
--
-- Parameters: `float64` (Chunk.Hard), of which nothing is assumed, the client of maestro-llms with the
-- context (`Llms` in Embed.Defs), the clock of the in-memory store, the client of the cloud SDK (`Client`
-- in Store.Gcs, with its documentation as `RangeAnswer` and `IsFaithful`), and in Extract: the caller's
-- reader and context, the buffer sizes of `io.ReadAll` (`room`), `mime.ParseMediaType` (`parse`), `html.Parse`, the
-- archive reader, a part's stream, the XML decoder and `xml.Unmarshal`, the process `pdftotext` with what
-- it writes, and the PDF parser of the engine purego.
--
-- SHA-256 (Content.Hash) and the float of a number of thousandths (Embed.Fake) are parameters too.
--
-- Not modelled: the messages of errors; the panic of `make` in `packBatches` for a `MaxBatchInputs`
-- that cannot be allocated; the order of slides that have the same number, which
-- `sort.Slice` leaves open. The lock of the in-memory store is not a state: a method holds it while it
-- works on the map. The race in the engine purego is a relation between what is ready at two moments and
-- what is returned.
pub mod Prelude
pub mod Text
pub mod Chunk
pub mod Embed
pub mod Store
pub mod Content
pub mod Extract
