-- ===== src/HttpServer/Headers.antt =====
-- The headers that DownloadFile of httpserver/download_file.go sets.
use gobox.Base.{ℕ, ◌≡◌, refl, Option, some, List, length, if◌then◌else◌}
use gobox.Base.Text.{Text, codes, is_empty, text_eq}
use gobox.Base.Dict.{lookup, lookup-insert}
use gobox.Base.Errors.{Error}
use gobox.HttpServer.Download.{
  Media, download_headers, download_file, content_disposition, detect_content_type,
  sanitize_filename,
}
use gobox.HttpServer.FileNames.{IsFileName, sanitize_filename-IsFileName}

abbrev Sets : Media → Text → Text → List ℕ → List (Text × Text) → Type 0
Sets m name type_ content h =
    (lookup (codes "Content-Disposition") h ≡ some (content_disposition m name))
    × (lookup (codes "Content-Length") h ≡ some (m.decimal (length content)))
    × (lookup (codes "Content-Type") h ≡ some type_)
    × (lookup (codes "X-Content-Type-Options") h ≡ some (codes "nosniff"))

download_headers-Sets :
    (m : Media) (name type_ : Text) (content : List ℕ) (h : List (Text × Text))
    → Sets m name type_ content (download_headers m name type_ content h)
unfolding text_eq
download_headers-Sets m name type_ content h =
    (simp (lookup-insert), simp (lookup-insert), simp (lookup-insert), simp (lookup-insert))

-- DownloadFile answers 200 with the content, and sets the disposition to an attachment under a name
-- without slashes, backslashes, line breaks and zero bytes, the length to the content's, the type to
-- the one given or, if that is empty, to the one detected, and forbids to sniff it; its error is the
-- writer's.
pub download_file-Sets :
    (m : Media) (write : List ℕ → Option Error) (filename content_type : Text) (content : List ℕ)
    (h : List (Text × Text))
    → (name : Text) × IsFileName name
      × ((download_file m write filename content_type content h).0.status ≡ 200)
      × ((download_file m write filename content_type content h).0.content ≡ content)
      × ((download_file m write filename content_type content h).1 ≡ write content)
      × Sets m name
          (if is_empty content_type then detect_content_type m name content else content_type)
          content
          (download_file m write filename content_type content h).0.headers
unfolding download_file
download_file-Sets m write filename content_type content h =
    let name = sanitize_filename filename in
    let type_ =
      if is_empty content_type then detect_content_type m name content else content_type in
    (
      name,
      sanitize_filename-IsFileName filename,
      refl,
      refl,
      refl,
      download_headers-Sets m name type_ content h,
    )
