-- ===== src/HttpClient/Encodings.antt =====
-- `DecompressResponse` of httpclient/client.go.
use gobox.Base.{◌≡◌, refl, [], if◌then◌else◌}
use gobox.Base.Errors.{Error, Result, ok, err, errorf}
use gobox.Base.Text.{Text, codes, is_empty, text_eq}
use gobox.HttpClient.{Bytes}

-- The readers of gzip, zlib, flate, brotli and zstd, and what is used of io.
pub record Codecs (Reader : Type 0) : Type 0 where
  pub gzip : Reader → Result Reader
  pub zlib : Reader → Result Reader
  pub flate : Reader → Reader
  pub brotli : Reader → Reader
  pub zstd : Reader → Result Reader
  pub read_all : Reader → Result Bytes
  pub new_reader : Bytes → Reader

module _ {Reader : Type 0} (c : Codecs Reader) where
  abbrev pub inflated : Bytes → Result Reader → Reader
  inflated peek (ok z) = z
  inflated peek (err e) = c.flate (c.new_reader peek)

  abbrev pub deflated : Result Bytes → Result Reader
  deflated (err e) = err e
  deflated (ok peek) = ok (inflated peek (c.zlib (c.new_reader peek)))

  unfoldable pub decompress_response : Text → Reader → Result Reader
  unfolding text_eq
  decompress_response enc body =
      if text_eq enc (codes "gzip")
      then c.gzip body
      else if text_eq enc (codes "deflate")
      then deflated (c.read_all body)
      else if text_eq enc (codes "br")
      then ok (c.brotli body)
      else if text_eq enc (codes "zstd")
      then c.zstd body
      else if is_empty enc
      then ok body
      else if text_eq enc (codes "identity")
      then ok body
      else err errorf

  -- The encodings that AcceptEncodingAll names, as a server applies them, and none.
  pub data Encoding : Type 0 where
    by_gzip by_zlib by_flate by_brotli by_zstd plain : Encoding

  abbrev pub name : Encoding → Text
  name by_gzip = codes "gzip"
  name by_zlib = codes "deflate"
  name by_flate = codes "deflate"
  name by_brotli = codes "br"
  name by_zstd = codes "zstd"
  name plain = []

  -- Encoders that the readers undo; zlib refuses a raw deflate stream.
  pub record Undone (encode : Encoding → Bytes → Bytes) : Type 0 where
    pub read : (x : Bytes) → c.read_all (c.new_reader x) ≡ ok x
    pub gzip :
        (x : Bytes)
        → (r : Reader) × (c.gzip (c.new_reader (encode by_gzip x)) ≡ ok r) × (c.read_all r ≡ ok x)
    pub zlib :
        (x : Bytes)
        → (r : Reader) × (c.zlib (c.new_reader (encode by_zlib x)) ≡ ok r) × (c.read_all r ≡ ok x)
    pub raw : (x : Bytes) → (e : Error) × (c.zlib (c.new_reader (encode by_flate x)) ≡ err e)
    pub flate : (x : Bytes) → c.read_all (c.flate (c.new_reader (encode by_flate x))) ≡ ok x
    pub brotli : (x : Bytes) → c.read_all (c.brotli (c.new_reader (encode by_brotli x))) ≡ ok x
    pub zstd :
        (x : Bytes)
        → (r : Reader) × (c.zstd (c.new_reader (encode by_zstd x)) ≡ ok r) × (c.read_all r ≡ ok x)
    pub plain : (x : Bytes) → encode plain x ≡ x

  -- A body that a server encoded in one of the advertised ways is read back, whether its deflate has
  -- the zlib wrapping or not, if the readers undo the encoders and zlib refuses a raw stream.
  pub decompress_response-encode :
      (encode : Encoding → Bytes → Bytes)
      → Undone encode
      → (kind : Encoding) (x : Bytes)
      → (r : Reader) × (decompress_response (name kind) (c.new_reader (encode kind x)) ≡ ok r)
        × (c.read_all r ≡ ok x)
  unfolding decompress_response text_eq
  decompress_response-encode encode h by_gzip x = h.gzip x
  decompress_response-encode encode h by_zlib x =
      let (r, opens, reads) = h.zlib x in (r, rw (h.read (encode by_zlib x), opens) refl, reads)
  decompress_response-encode encode h by_flate x =
      let (e, no_) = h.raw x in
      (
        c.flate (c.new_reader (encode by_flate x)),
        rw (h.read (encode by_flate x), no_) refl,
        h.flate x,
      )
  decompress_response-encode encode h by_brotli x =
      (c.brotli (c.new_reader (encode by_brotli x)), refl, h.brotli x)
  decompress_response-encode encode h by_zstd x = h.zstd x
  decompress_response-encode encode h plain x =
      (c.new_reader (encode plain x), refl, rw (h.plain x) (h.read x))
