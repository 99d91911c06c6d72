-- ===== src/HttpClient/Examples.antt =====
-- Runs of httpclient/client.go.
use gobox.Base.{ℕ, suc, ◌≡◌, refl, none, [], ◌∷◌, ltb, if◌then◌else◌}
use gobox.Base.Errors.{Result, ok, err, errorf, error_is}
use gobox.Base.Int.{pos}
use gobox.Base.Text.{codes}
use gobox.HttpClient.{Bytes, is_transient_http_status}
use gobox.HttpClient.Encodings.{
  Codecs, Encoding, by_gzip, by_zlib, by_flate, by_brotli, by_zstd, plain, name, Undone,
  decompress_response, decompress_response-encode,
}
use gobox.HttpClient.Retrying.{Doing, Unmarked, with_retry}
use gobox.HttpClient.Retrying.Runs.{Run, with_retry-Run}

-- The third attempt answers 200; the world counts the attempts.
abbrev busy_server : Doing ℕ
busy_server = record {
  do_ = λ w. (
    suc w,
    record {
      body = codes "ok";
      status = if ltb w 2 then 503 else 200;
      retry_after = pos 1;
      error = none;
    },
  );
  sleep_ctx = λ w d. w;
  pause = λ w d. (w, none);
}

busy_server_run : with_retry busy_server 0 ≡ (3, ok (codes "ok", 200))
unfolding with_retry is_transient_http_status error_is
busy_server_run = refl

busy_server-Unmarked : Unmarked busy_server
busy_server-Unmarked = record { attempts = λ w e h. absurd (cc); waits = λ w wait e h. absurd (cc) }

with_retry-Run_example : Run busy_server (with_retry busy_server 0) 1 0
with_retry-Run_example = with_retry-Run busy_server busy_server-Unmarked 0

-- A reader is what is left to read. Each encoder writes a mark in front, which its reader takes away;
-- raw deflate writes another one, which zlib refuses.
abbrev marked : ℕ → Bytes → Bytes
marked m x = m ∷ x

abbrev unmarked : Bytes → Bytes
unmarked [] = []
unmarked (m ∷ x) = x

abbrev zlib_reader : Bytes → Result Bytes
zlib_reader [] = err errorf
zlib_reader (m ∷ x) = if ltb m 1 then ok x else err errorf

abbrev codecs : Codecs Bytes
codecs = record {
  gzip = λ r. ok (unmarked r);
  zlib = zlib_reader;
  flate = unmarked;
  brotli = unmarked;
  zstd = λ r. ok (unmarked r);
  read_all = λ r. ok r;
  new_reader = λ x. x;
}

abbrev encode : Encoding codecs → Bytes → Bytes
encode by_flate x = marked 1 x
encode plain x = x
encode by_gzip x = marked 0 x
encode by_zlib x = marked 0 x
encode by_brotli x = marked 0 x
encode by_zstd x = marked 0 x

encode-Undone : Undone codecs encode
encode-Undone = record {
  read = λ x. refl;
  gzip = λ x. (x, refl, refl);
  zlib = λ x. (x, refl, refl);
  raw = λ x. (errorf, refl);
  flate = λ x. refl;
  brotli = λ x. refl;
  zstd = λ x. (x, refl, refl);
  plain = λ x. refl;
}

decompress_response-encode_example :
    (r : Bytes) × (decompress_response codecs (name codecs by_flate) (marked 1 (codes "hello"))
      ≡ ok r)
    × (codecs.read_all r ≡ ok (codes "hello"))
decompress_response-encode_example =
    decompress_response-encode codecs encode encode-Undone by_flate (codes "hello")
