-- ===== src/Content/Hash.antt =====
-- content/hash.go: the digests as lowercase hexadecimal. SHA-256 itself is the parameter `sha256`, from
-- what was written to the hash to its sum; `ctxReader` is that of extract/extract.go.
use maestro_cms.Prelude.{
  ℕ, zero, suc, ◌+◌, ◌-◌, ◌/◌, ◌%◌, ◌++◌, ◌<◌, ◌≡◌, ap, ◌∙◌, Option, none, some, List, [], ◌∷◌,
  arith, ltb, if◌then◌else◌, length,
}
use maestro_cms.Text.{Bytes}
use maestro_cms.Extract.Io.{ContextError, IoError, eof, Reader, Context, ctx_read, read_loop}
use maestro_cms.Extract.Io.Source.{Source, joined, source_read, reads_left, background}
use maestro_cms.Extract.Io.Limit.{read_loop-step}
use maestro_cms.Extract.Io.Total.{ending, after_read-end, source_read-piece, source_read-end}
use mathlib.Core.List.{append_assoc}

abbrev hex_digit : ℕ → ℕ
hex_digit n = if ltb n 10 then b'0' + n else b'a' + (n - 10)

-- `hex.EncodeToString`
unfoldable pub hex_encode : Bytes → Bytes
hex_encode [] = []
hex_encode (b ∷ s) = hex_digit (b / 16) ∷ hex_digit (b % 16) ∷ hex_encode s

-- The errors of `SHA256HexReader`.
pub data HashError : Type 0 where
  aborted : ContextError → HashError
  not_read : IoError → HashError

-- What it returns: the digest, the number of bytes read, and the error.
pub record Digest : Type 0 where
  pub hex : Bytes
  pub n : ℕ
  pub error : Option HashError

module _ (sha256 : Bytes → Bytes) where
  -- `SHA256HexBytes`, and `SHA256HexString`
  unfoldable pub sha256_hex_bytes : Bytes → Bytes
  sha256_hex_bytes b = hex_encode (sha256 b)

  module _ {W : Type 0} where
    abbrev pub digested : Option ((Bytes × Option IoError) × W) → Option (Digest × W)
    digested none = none
    digested (some ((bytes, none), w)) =
        some (record { hex = hex_encode (sha256 bytes); n = length bytes; error = none }, w)
    digested (some ((bytes, some e), w)) =
        some (record { hex = []; n = length bytes; error = some (not_read e) }, w)

    -- `SHA256HexReader`: `io.Copy` reads to the end with buffers of 32 KiB and writes what it read.
    unfoldable pub sha256_hex_reader : Context W → Reader W → ℕ → W → Option (Digest × W)
    sha256_hex_reader ctx r fuel w =
        let (c, w') = ctx w in
        elim c [
          | some e ↦ some (record { hex = []; n = 0; error = some (aborted e) }, w')
          | none ↦ digested (read_loop (λ n. 32768) (ctx_read ctx r) fuel [] w')
        ]

  -- A source of finitely many bytes is read to its end.
  copies_all :
      (room : ℕ → ℕ) (f : ℕ) (acc : Bytes) (ps : List Bytes) (end : IoError)
      → ((n : ℕ) → 0 < room n)
      → reads_left ps < f
      → (w : Source) × (read_loop room
            (ctx_read background source_read)
            f
            acc
            (record { pieces = ps; end = end })
          ≡ some ((acc ++ joined ps, ending end), w))
  unfolding ctx_read
  copies_all room zero acc ps end room_left h = absurd (omega arith)
  copies_all room (suc f) acc [] end room_left h =
      let src : Source = record { pieces = []; end = end } in
      let step =
        read_loop-step room (ctx_read background source_read) f acc [] src src (some end)
          (source_read-end (room (length acc)) end) in
      (src, step ∙ after_read-end end (acc ++ []) _ _)
  copies_all room (suc f) acc (p ∷ ps) end room_left h =
      let src : Source = record { pieces = p ∷ ps; end = end } in
      let (b, ps', reads, same, fewer) =
        source_read-piece (room (length acc)) p ps end (room_left (length acc)) in
      let (w, rest) = copies_all room f (acc ++ b) ps' end room_left (omega (arith, fewer)) in
      let step =
        read_loop-step room (ctx_read background source_read) f acc b src
          (record { pieces = ps'; end = end }) none reads in
      (
        w,
        step
            ∙ rest
            ∙ ap (λ l. some ((l, ending end), w))
                (append_assoc acc b (joined ps') ∙ ap (λ l. acc ++ l) same),
      )

  -- A source that ends without an error, in whatever pieces: the digest of a stream is that of all its
  -- bytes, with their number.
  pub sha256_hex_reader_lem :
      (pieces : List Bytes) (fuel : ℕ)
      → reads_left pieces < fuel
      → (w : Source) × (sha256_hex_reader background source_read fuel
            (record { pieces = pieces; end = eof })
          ≡ some (
            record {
              hex = sha256_hex_bytes (joined pieces);
              n = length (joined pieces);
              error = none;
            },
            w,
          ))
  unfolding sha256_hex_reader sha256_hex_bytes
  sha256_hex_reader_lem pieces fuel h =
      let (w, done) = copies_all (λ n. 32768) fuel [] pieces eof (λ n. omega arith) h in
      (w, ap digested done)
