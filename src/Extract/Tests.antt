-- ===== src/Extract/Tests.antt =====
-- The extractors' theorems at concrete inputs.
use maestro_cms.Prelude.{
  ℕ, ap, ◌≤◌, ◌≡◌, ◌≢◌, refl, true, false, Option, none, some, List, [], ◌∷◌, arith, length, ltb,
  if◌then◌else◌,
}
use mathlib.Core.Option as Option
use Prim.Native.String.{String}
use maestro_cms.Prelude.Int.{pos}
use maestro_cms.Text.{Bytes, codes, bytes_eq}
use maestro_cms.Text.Trim.{trim_space, trim_left, trim_right, space_len, last_space_len}
use maestro_cms.Text.Utf8.{rune_size}
use maestro_cms.Text.Utf8.Valid.{valid_from}
use maestro_cms.Extract.Io.{
  eof, ContextError, limit_read, bounded_read, read_loop, ctx_read, beside,
}
use maestro_cms.Extract.Io.Source.{Source, joined, whole, source_read, background}
use maestro_cms.Extract.Defs.{ok, err, output_too_large, text_artifact, Env, read_all}
use maestro_cms.Extract.Bounds.{behind_limit, read_result, read_all-le-limit}
use maestro_cms.Extract.Normalize.{split_on, join_with, kept_lines, normalize_whitespace}
use maestro_cms.Extract.Normalize.Normal.{IsNormal, normalize_whitespace-IsNormal}
use maestro_cms.Extract.Registry.{
  Registry, extractor_at, extract, register, registered, get_extractor, supported_media_types,
  canonical_media_type,
}
use maestro_cms.Extract.Registry.Laws.{register-get_extractor}
use maestro_cms.Extract.Plain.{coerced, extract_text}
use maestro_cms.Extract.Plain.Total.{text_result, extract_text_source}
use maestro_cms.Extract.Markdown.{strip_front_matter}
use maestro_cms.Extract.Markdown.FrontMatter.{front_matter_body, strip_front_matter-lines}
use maestro_cms.Extract.Html.{
  Node, element, text_node, next, last, script, p, other_node, tree, collect_text, skip_subtree,
}
use maestro_cms.Extract.Html.Pruning.{prune, collect_text_visible}
use maestro_cms.Extract.Pdf.Pdftotext.{Config, max_out, Ran, exit_error, numbered, pages}
use maestro_cms.Extract.Pdf.Pdftotext.Pages.{ended, pages_lem, pages-printed}
use maestro_cms.Extract.Pdf.Purego.{Moment, raced, takes_result, recheck}
use maestro_cms.Extract.Pdf.Purego.Race.{Returns-in_time}
use maestro_cms.Extract.Ooxml.{ZipFile, open_failed, not_zip, at_eof}
use maestro_cms.Extract.Slides.{Slide, resolve_order}
use maestro_cms.Extract.Slides.Order.{IsFresh, AllSeen, seen_behind, resolve_order_lem}
use maestro_cms.Extract.Preset.{Outside, plain, extractor_of, new_document_registry}
use maestro_cms.Extract.Preset.Yields.{Yield, extractor_of-Yield}
use maestro_cms.Extract.Preset.Bundle.{AllServed, bundle, bundle_types, new_document_registry_lem}
use maestro_cms.Extract.Helpers.{text_artifacts}

abbrev plain_text : Bytes
plain_text = codes "text/plain"

-- A `mime.ParseMediaType` for types without parameters.
abbrev as_given : Bytes → Option Bytes
as_given mt = some mt

abbrev empty_registry : Registry as_given Source
empty_registry = record { extractors = []; max_bytes = 100 }

abbrev text_registry : Registry as_given Source
text_registry = record { extractors = (plain_text, extract_text) ∷ []; max_bytes = 100 }

abbrev hello : Source
hello = record { pieces = codes "hel" ∷ codes "lo\n" ∷ []; end = eof }

abbrev running : Env Source
running = record { ctx = background; room = λ n. 512; fuel = 20 }

abbrev file : String → ZipFile Unit
file name = record { name = codes name; open_part = open_failed 0 }

reads_hello :
    read_all (behind_limit running) (limit_read 8 source_read) (hello, pos 8)
    ≡ some (ok (codes "hello\n"), (record { pieces = []; end = eof }, pos 2))
unfolding read_all read_loop ctx_read limit_read bounded_read beside source_read
reads_hello = refl

read_all-le-limit_example : length (codes "hello\n") ≤ 8
read_all-le-limit_example =
    read_all-le-limit running source_read 8 hello (codes "hello\n")
      (record { pieces = []; end = eof }, pos 2) reads_hello

has_text : extractor_at as_given Source plain_text text_registry.extractors ≡ some extract_text
unfolding extractor_at bytes_eq
has_text = refl

extract_text_source_example :
    (src' : Source) × (extract as_given Source running plain_text source_read
        (codes "s1")
        []
        text_registry
        hello
      ≡ some (text_result (codes "s1") (read_result 100 (whole hello) eof), src'))
extract_text_source_example =
    extract_text_source as_given text_registry plain_text plain_text (codes "s1") [] (λ n. 512) 20
      hello (λ e. ground (arith, e)) refl has_text (omega arith) (λ n. omega arith) (omega arith)

strip_front_matter-lines_example :
    strip_front_matter (codes "---\ntitle: a\n---\nbody")
    ≡ Option.get_or
        (front_matter_body (split_on b'\n' (codes "---\ntitle: a\n---\nbody")))
        (codes "---\ntitle: a\n---\nbody")
strip_front_matter-lines_example = strip_front_matter-lines (codes "---\ntitle: a\n---\nbody")

registers_text :
    register as_given Source plain_text (some extract_text) empty_registry
    ≡ registered text_registry
unfolding register canonical_media_type extractor_at
registers_text = refl

abbrev html_text : Bytes
html_text = codes "text/html"

types_differ : as_given html_text ≢ as_given plain_text
types_differ e =
    let sizes : 9 ≡ 10 = ap (λ o. length (Option.get_or o [])) e in absurd (omega (arith, sizes))

register-get_extractor_example :
    (get_extractor as_given Source plain_text empty_registry ≡ none)
    × (get_extractor as_given Source plain_text text_registry ≡ some extract_text)
    × (get_extractor as_given Source html_text text_registry
        ≡ get_extractor as_given Source html_text empty_registry)
register-get_extractor_example =
    register-get_extractor as_given Source plain_text html_text extract_text empty_registry
      text_registry types_differ registers_text

abbrev visible : Node
visible = element p (next (text_node (codes "shown") last) last)

abbrev with_script : Node
with_script = element p (
    next (element script (next (text_node (codes "hidden") last) last))
      (next (text_node (codes "shown") last) last))

prunes_alike : prune with_script ≡ prune visible
unfolding prune skip_subtree
prunes_alike = refl

collect_text_visible_example : collect_text with_script ≡ collect_text visible
collect_text_visible_example = collect_text_visible with_script visible prunes_alike

abbrev zero_config : Config
zero_config = record { binary = []; timeout = pos 0; max_output = pos 0 }

abbrev two_pages : Bytes → ℕ → Bytes → Ran
two_pages binary timeout input = record {
  stdout = codes "one" ∷ (12 ∷ codes "tw") ∷ (b'o' ∷ 12 ∷ []) ∷ [];
  stderr = [];
  run_error = none;
  ctx_error = none;
  child_error = none;
}

pages_lem_example :
    pages (record zero_config { max_output = pos 4 }) (λ b. true) two_pages (codes "%PDF") ≡ (
      if ltb 4 (length (joined (codes "one" ∷ (12 ∷ codes "tw") ∷ (b'o' ∷ 12 ∷ []) ∷ [])))
      then err (output_too_large 4)
      else ended (two_pages [] 0 []))
unfolding max_out
pages_lem_example =
    pages_lem (record zero_config { max_output = pos 4 }) (λ b. true) two_pages (codes "%PDF") refl

pages-printed_example :
    pages zero_config (λ b. true) two_pages (codes "%PDF")
    ≡ ok (numbered 0 (codes "one" ∷ codes "two" ∷ []))
unfolding max_out
pages-printed_example =
    pages-printed zero_config (λ b. true) two_pages (codes "%PDF") (codes "one" ∷ codes "two" ∷ [])
      refl
      (
        (λ e. omega arith, (λ e. omega arith, (λ e. omega arith, tt))),
        ((λ e. omega arith, (λ e. omega arith, (λ e. omega arith, tt))), tt),
      )
      refl (omega arith) refl refl refl

abbrev worked : Moment
worked = record { result = some (ok []); ctx_error = none; timer_fired = false }

Returns-in_time_example :
    (◌≡◌ {A = Option ContextError} none none)
    × (worked.result ≡ some (ok []))
    × (worked.ctx_error ≡ none)
    × (worked.timer_fired ≡ false)
unfolding recheck
Returns-in_time_example =
    Returns-in_time none worked worked [] (raced refl (takes_result (ok []) refl))

-- A presentation that names slide 2 twice and a part that is missing.
abbrev deck : List (ZipFile Unit)
deck = file "ppt/slides/slide1.xml" ∷ file "ppt/slides/slide2.xml" ∷ []

abbrev deck_slides : List (Slide Unit)
deck_slides =
    record { num = pos 1; file = file "ppt/slides/slide1.xml" }
    ∷ record { num = pos 2; file = file "ppt/slides/slide2.xml" }
    ∷ []

abbrev named : List Bytes
named =
    codes "ppt/slides/slide2.xml"
    ∷ codes "ppt/slides/slide2.xml"
    ∷ codes "ppt/slides/slide9.xml"
    ∷ []

resolve_order_lem_example :
    IsFresh [] (resolve_order named deck_slides deck)
    × AllSeen (seen_behind [] (resolve_order named deck_slides deck)) deck_slides
resolve_order_lem_example = resolve_order_lem named deck_slides deck

-- What is outside, where only the text extractor is called.
abbrev outside : {W : Type 0} → Outside W Unit
outside = record {
  parse_html = λ b. tree (other_node last);
  found = λ b. false;
  run = λ w binary timeout input. record {
    stdout = [];
    stderr = [];
    run_error = some (exit_error 1);
    ctx_error = none;
    child_error = none;
  };
  zip = λ b. not_zip 0;
  xml = record {
    decoder = record { State = Unit; new_decoder = tt; next_token = λ r d s. (at_eof, d, s) };
    part_read = λ n w. ([], some eof, w);
    slide_ids = λ b. none;
    rels_of = λ b. none;
  };
}

new_document_registry_lem_example :
    (r : Registry as_given Unit) × (new_document_registry as_given outside [] ≡ registered r)
    × AllServed as_given outside (bundle as_given outside) r
    × (supported_media_types as_given Unit r ≡ bundle_types)
new_document_registry_lem_example =
    new_document_registry_lem as_given outside []
      (refl, (refl, (refl, (refl, (refl, (refl, (refl, tt)))))))

extracts_hello :
    extractor_of outside plain running source_read (codes "s1") hello
    ≡ some (ok (text_artifact (codes "s1") (codes "hello") ∷ []), record { pieces = []; end = eof })
unfolding extractor_of extract_text read_all read_loop ctx_read source_read normalize_whitespace
    kept_lines split_on join_with trim_space trim_left trim_right space_len last_space_len coerced
    valid_from rune_size text_artifact bytes_eq
extracts_hello = refl

extractor_of-Yield_example :
    Yield (codes "s1") (text_artifact (codes "s1") (codes "hello") ∷ [])
    × (text_artifacts (text_artifact (codes "s1") (codes "hello") ∷ [])
        ≡ text_artifact (codes "s1") (codes "hello") ∷ [])
extractor_of-Yield_example =
    extractor_of-Yield outside running source_read (codes "s1") (record { pieces = []; end = eof })
      (text_artifact (codes "s1") (codes "hello") ∷ []) plain hello extracts_hello

-- Lines with white space at their ends, and too many blank lines.
abbrev untidy : Bytes
untidy = codes " \n a \n\n\t\n b\n"

normalize_whitespace-IsNormal_example :
    IsNormal (normalize_whitespace untidy)
    × (normalize_whitespace (normalize_whitespace untidy) ≡ normalize_whitespace untidy)
normalize_whitespace-IsNormal_example = normalize_whitespace-IsNormal untidy
