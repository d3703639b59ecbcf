-- ===== src/HttpResource.antt =====
-- resource/http.go: resources behind a client, with one request for each operation. The client with
-- its server is a parameter; URLs are parsed, and the closing of bodies is left out.
pub mod Reports
mod Tests
use missinggo.Base.{
  ℕ, ◌≡◌, Bool, true, false, ◌||◌, not, List, [], ◌∷◌, ◌++◌, Option, none, some, ◌==◌, ltb,
  if◌then◌else◌, length,
}
use missinggo.Base.Int.{ℤ, pos, negsuc, ◌+ℤ◌, ◌-ℤ◌}
use missinggo.Base.Decimal.{Text, print_int, parse_int}
use missinggo.Base.Outcome.{Outcome, done, panics}
use missinggo.ByteRange.{bytes_unit}

pub data Method : Type 0 where
  get_method : Method
  put_method : Method
  patch_method : Method
  head_method : Method
  delete_method : Method

-- An empty header is one that is not set.
pub record Request : Type 0 where
  pub method : Method
  pub url : Text
  pub range : Text
  pub content_range : Text
  pub body : List ℕ

-- `content_length` is the field, -1 if it is not known, `length_header` the header.
pub record Response (Body : Type 0) : Type 0 where
  pub status : ℕ
  pub content_length : ℤ
  pub length_header : Text
  pub last_modified : Text
  pub body : Body

-- `http.Client`, and `time.Parse` of a header; `none` stands for an error.
pub record Client : Type 1 where
  pub Server : Type 0
  pub Body : Type 0
  pub send : Request → Server → Option (Response Body) × Server
  pub parse_time : Text → Option ℤ

pub data Err : Type 0 where
  client_error : Err
  not_exist : Err
  status_error : ℕ → Err
  bad_header : Err

-- `responseError`.
unfoldable pub response_error : {Body : Type 0} → Response Body → Err
response_error r = if r.status == 404 then not_exist else status_error r.status

abbrev pub request : Method → Text → Request
request m url = record { method = m; url = url; range = []; content_range = []; body = [] }

-- "-" and the last byte's offset, of `length` bytes from an offset.
abbrev pub bounds : ℤ → ℕ → Text
bounds off n = print_int off ++ 45 ∷ print_int (off +ℤ pos n -ℤ pos 1)

pub record HttpFileInfo : Type 0 where
  pub last_modified : ℤ
  pub content_length : ℤ

module _ (c : Client) where
  open c use {Server, Body}

  -- An operation whose result is an error or nothing, by what `f` makes of a response.
  abbrev pub checked :
      (Response Body → Option Err) → Option (Response Body) × Server → Option Err × Server
  checked f (none, w) = (some client_error, w)
  checked f (some r, w) = (f r, w)

  abbrev pub unless_ok : Response Body → Option Err
  unless_ok r = if r.status == 200 then none else some (response_error r)

  pub data Got : Type 0 where
    got : Body → Got
    refused : Err → Got

  unfoldable pub get : Text → Server → Got × Server
  unfolding response_error
  get url w =
      let (resp, w') = c.send (request get_method url) w in
      elim resp [
        | none ↦ (refused client_error, w')
        | some r ↦ (if r.status == 200 then got r.body else refused (response_error r), w')
      ]

  unfoldable pub put : Text → List ℕ → Server → Option Err × Server
  unfolding response_error
  put url b w = checked unless_ok (c.send (record (request put_method url) { body = b }) w)

  -- `full n b` is `io.ReadFull` of `n` bytes of a body.
  pub data ReadAt : Type 0 where
    full : ℕ → Body → ReadAt
    eof : ReadAt
    failed : Err → ReadAt

  -- `b[:resp.ContentLength]`, for a buffer of `room` bytes.
  unfoldable pub read_partial : ℕ → Response Body → Outcome ReadAt
  read_partial room r = elim r.content_length [
    | negsuc n ↦ panics
    | pos n ↦ if ltb room n then panics else done (full n r.body)
  ]

  unfoldable pub read_at : Text → ℕ → ℤ → Server → Outcome ReadAt × Server
  unfolding response_error read_partial
  read_at url room off w =
      let (resp, w') =
        c.send (record (request get_method url) { range = bytes_unit ++ 61 ∷ bounds off room }) w in
      elim resp [
        | none ↦ (done (failed client_error), w')
        | some r ↦ (
          if r.status == 206
              then read_partial room r
              else if r.status == 416
              then done eof
              else done (failed (response_error r)),
          w',
        )
      ]

  -- With the number of bytes.
  unfoldable pub write_at : Text → List ℕ → ℤ → Server → (ℕ × Option Err) × Server
  unfolding response_error
  write_at url b off w =
      let (resp, w') =
        c.send
          (record (request patch_method url) {
            content_range = bytes_unit ++ 61 ∷ bounds off (length b);
            body = b;
          })
          w in
      elim resp [ none ↦ ((0, some client_error), w') | some r ↦ ((length b, unless_ok r), w') ]

  -- The two headers; one that is not set leaves its field zero.
  abbrev pub header_or_zero : (Text → Option ℤ) → Text → Option ℤ
  header_or_zero parse [] = some (pos 0)
  header_or_zero parse (x ∷ xs) = parse (x ∷ xs)

  pub data Stat : Type 0 where
    info : HttpFileInfo → Stat
    stat_failed : Err → Stat

  unfoldable pub stat_headers : Response Body → Stat
  unfolding parse_int
  stat_headers r = elim (header_or_zero c.parse_time r.last_modified) [
    | none ↦ stat_failed bad_header
    | some t ↦ elim (header_or_zero parse_int r.length_header) [
      | none ↦ stat_failed bad_header
      | some l ↦ info (record { last_modified = t; content_length = l })
    ]
  ]

  unfoldable pub stat : Text → Server → Stat × Server
  unfolding stat_headers
  stat url w =
      let (resp, w') = c.send (request head_method url) w in
      elim resp [
        | none ↦ (stat_failed client_error, w')
        | some r ↦ (
          if r.status == 404
              then stat_failed not_exist
              else if not (r.status == 200)
              then stat_failed (status_error r.status)
              else stat_headers r,
          w',
        )
      ]

  -- The response's status is taken for an error, whatever it is.
  unfoldable pub delete : Text → Server → Option Err × Server
  unfolding response_error
  delete url w = checked (λ r. some (response_error r)) (c.send (request delete_method url) w)
