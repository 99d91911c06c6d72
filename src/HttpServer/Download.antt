-- ===== src/HttpServer/Download.antt =====
-- httpserver/download_file.go: the response that downloads a file. A file's content is its bytes.
use gobox.Base.{ℕ, Bool, not, ◌&&◌, ◌||◌, Option, List, [], ◌∷◌, length, ◌==◌, if◌then◌else◌}
use gobox.Base.Text.{Text, codes, is_empty, text_eq}
use gobox.Base.Paths.{slash, base, ext}
use gobox.Base.Dict.{insert}
use gobox.Base.Errors.{Error}

-- The characters that `sanitizeFilename` leaves out.
abbrev pub is_left_out : ℕ → Bool
is_left_out c = c == 13 || c == 10 || c == 0

unfoldable pub without_left_out : Text → Text
without_left_out [] = []
without_left_out (c ∷ s) = let rest = without_left_out s in if is_left_out c then rest else c ∷ rest

-- strings.ReplaceAll of a backslash by a slash
abbrev pub slash_for : ℕ → ℕ
slash_for c = if c == 92 then slash else c

unfoldable pub replaced : Text → Text
replaced [] = []
replaced (c ∷ s) = slash_for c ∷ replaced s

abbrev pub or_nothing : Text → Text
or_nothing s = if text_eq s (codes ".") || text_eq s (codes "/") then [] else s

-- `sanitizeFilename`
unfoldable pub sanitize_filename : Text → Text
unfolding base without_left_out replaced text_eq
sanitize_filename filename = or_nothing (without_left_out (base (replaced filename)))

-- What is used of mime and net/http; `type_by_extension` is empty for an extension that is not known.
pub record Media : Type 0 where
  pub type_by_extension : Text → Text
  pub detect : List ℕ → Text
  pub format_attachment : Text → Text
  pub decimal : ℕ → Text

abbrev pub sniffed : Media → List ℕ → Text
sniffed m [] = codes "application/octet-stream"
sniffed m (b ∷ content) = m.detect (b ∷ content)

-- `detectContentType`
unfoldable pub detect_content_type : Media → Text → List ℕ → Text
unfolding ext
detect_content_type m filename content =
    let known = m.type_by_extension (ext filename) in
    if not (is_empty (ext filename)) && not (is_empty known) then known else sniffed m content

-- `contentDisposition`
unfoldable pub content_disposition : Media → Text → Text
content_disposition m filename =
    if is_empty filename then codes "attachment" else m.format_attachment filename

-- What a writer was told: the headers, the status and the content.
pub record Response : Type 0 where
  pub headers : List (Text × Text)
  pub status : ℕ
  pub content : List ℕ

abbrev pub download_headers : Media → Text → Text → List ℕ → List (Text × Text) → List (Text × Text)
download_headers m filename content_type content h =
    insert (codes "X-Content-Type-Options") (codes "nosniff") (
      insert (codes "Expires") (codes "0") (
        insert (codes "Pragma") (codes "no-cache") (
          insert (codes "Cache-Control") (codes "no-store, no-cache, must-revalidate") (
            insert (codes "Content-Disposition") (content_disposition m filename) (
              insert (codes "Content-Length") (m.decimal (length content))
                (insert (codes "Content-Type") content_type h))))))

-- `DownloadFile`: `write` is what the writer's Write answers, `h` are the headers before.
unfoldable pub download_file :
    Media
    → (List ℕ → Option Error)
    → Text
    → Text
    → List ℕ
    → List (Text × Text)
    → Response × Option Error
unfolding sanitize_filename detect_content_type content_disposition
download_file m write filename content_type content h =
    let name = sanitize_filename filename in
    let type_ =
      if is_empty content_type then detect_content_type m name content else content_type in
    (
      record { headers = download_headers m name type_ content h; status = 200; content = content },
      write content,
    )
