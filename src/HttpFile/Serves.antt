-- ===== src/HttpFile/Serves.antt =====
-- What httpfile/file.go relies on of a server that has the file, and of the bodies of its responses.
use missinggo.Base.{ℕ, ◌-◌, ◌<◌, ◌≤◌, ◌≡◌, ◌≢◌, List, [], ◌++◌, none, some, length, drop}
use missinggo.Base.Int.{pos}
use missinggo.Base.Decimal.{Text, digits}
use missinggo.ByteRange.ContentRange.{content_range}
use missinggo.HttpFile.{Http, eof, broken, Response, request, get, head, range_from}

-- A server that has data at a URL and serves ranges of it (RFC 9110), but none that starts at or behind
-- its end; and bodies that give their bytes in order (`io.Reader`): at least one at each read while
-- there are some and the connection does not break, and the end of file once all were given.
pub record Serves (h : Http) (url : Text) (content : List ℕ) : Type 0 where
  pub rest : h.Body → List ℕ
  pub read_rest : (n : ℕ) (b : h.Body) → rest b ≡ (h.read n b).0.0 ++ rest (h.read n b).1
  pub read_fits : (n : ℕ) (b : h.Body) → length (h.read n b).0.0 ≤ n
  pub read_some :
      (n : ℕ) (b : h.Body)
      → 0 < n
      → 0 < length (rest b)
      → (h.read n b).0.1 ≢ some broken
      → 0 < length (h.read n b).0.0
  pub read_eof : (n : ℕ) (b : h.Body) → (h.read n b).0.1 ≡ some eof → rest (h.read n b).1 ≡ []
  pub read_end : (n : ℕ) (b : h.Body) → 0 < n → rest b ≡ [] → (h.read n b).0.1 ≢ none
  pub partial :
      (o : ℕ) (w : h.Server)
      → 0 < o
      → o < length content
      → (r : Response h.Body) × ((h.send
            (record (request get url) { range = range_from (pos o) })
            w).0
          ≡ some r)
        × (r.status ≡ 206)
        × (r.content_range ≡ content_range o (length content - 1) (length content))
        × (rest r.body ≡ drop o content)
  pub beyond :
      (o : ℕ) (w : h.Server)
      → 0 < o
      → length content ≤ o
      → (r : Response h.Body) × ((h.send
            (record (request get url) { range = range_from (pos o) })
            w).0
          ≡ some r)
        × (r.status ≢ 206)
  pub heads :
      (w : h.Server)
      → (r : Response h.Body) × ((h.send (request head url) w).0 ≡ some r)
        × (r.status ≡ 200)
        × (r.content_length ≡ digits (length content))
  pub whole :
      (w : h.Server)
      → (r : Response h.Body) × ((h.send (request get url) w).0 ≡ some r)
        × (r.status ≡ 200)
        × (r.content_length ≡ digits (length content))
        × (rest r.body ≡ content)
  pub small : length content < 9223372036854775808
