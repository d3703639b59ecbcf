-- ===== src/HttpFile.antt =====
-- httpfile/file.go, httpfile/fs.go and httpfile/misc.go: a file over HTTP. The server and the stream
-- of a response's body are parameters (`Http`); closing a body is left out.
pub mod Ops
pub mod Serves
pub mod Good
pub mod Next
pub mod Reads
mod Tests
use missinggo.Base.{
  ℕ, ◌-◌, ◌≡◌, Bool, true, false, ◌||◌, not, List, [], ◌∷◌, ◌++◌, Option, none, some, ◌==◌, ltb,
  if◌then◌else◌, length,
}
use missinggo.Base.Int.{ℤ, pos, negsuc, ◌+ℤ◌, ◌-ℤ◌, beq_ℤ}
use missinggo.Base.Decimal.{Text, print_int, parse_int, read_digits}
use missinggo.Base.Outcome.{Outcome, done, panics, ◌>>=◌}
use missinggo.ByteRange.{BytesContentRange, bytes_unit, parse_bytes_content_range}

pub data Method : Type 0 where
  get : Method
  head : Method
  patch : Method
  delete : Method

-- An empty header is one that is not set.
pub record Request : Type 0 where
  pub method : Method
  pub url : Text
  pub range : Text
  pub content_range : Text
  pub body : List ℕ

pub record Response (Body : Type 0) : Type 0 where
  pub status : ℕ
  pub content_range : Text
  pub content_length : Text
  pub body : Body

-- What the `Read` of a body returns besides the bytes: `io.EOF`, or another error.
pub data BodyErr : Type 0 where
  eof : BodyErr
  broken : BodyErr

-- What the client is connected to, with its state. `send` (`Client.Do`) is `none` where the client has an error;
-- `read` (`Read` of a body) takes the size of the buffer.
pub record Http : Type 1 where
  pub Server : Type 0
  pub Body : Type 0
  pub send : Request → Server → Option (Response Body) × Server
  pub read : ℕ → Body → (List ℕ × Option BodyErr) × Body

pub data Err : Type 0 where
  client : Err
  not_found : Err
  bad_response : Err
  bad_status : ℕ → Err
  bad_number : Err
  read_flags_missing : Err
  write_flags_missing : Err
  unhandled_whence : Err

pub data Whence : Type 0 where
  seek_set : Whence
  seek_cur : Whence
  seek_end : Whence
  unhandled : Whence

pub data Access : Type 0 where
  rdonly : Access
  wronly : Access
  rdwr : Access

abbrev pub request : Method → Text → Request
request m url = record { method = m; url = url; range = []; content_range = []; body = [] }

-- "bytes=off-" and "bytes=off-last".
abbrev pub range_from : ℤ → Text
range_from off = bytes_unit ++ 61 ∷ (print_int off ++ 45 ∷ [])

abbrev pub range_between : ℤ → ℤ → Text
range_between off last = bytes_unit ++ 61 ∷ (print_int off ++ 45 ∷ print_int last)

-- `strconv.ParseUint(h, 10, 64)`, then `int64`.
unfoldable pub to_int64 : ℕ → ℤ
to_int64 n = if ltb n 9223372036854775808 then pos n else negsuc (18446744073709551615 - n)

unfoldable pub parse_uint : Text → Option ℕ
unfolding read_digits
parse_uint h = elim (read_digits h) [
  | none ↦ none
  | some n ↦ if ltb n 18446744073709551616 then some n else none
]

-- `instanceLength`: a length or an error.
unfoldable pub instance_length : {Body : Type 0} → Response Body → Outcome (Option ℤ)
unfolding parse_int parse_bytes_content_range
instance_length r =
    if r.status == 200
    then done (parse_int r.content_length)
    else if r.status == 206
    then (parse_bytes_content_range r.content_range >>= λ cr. elim cr [
      | none ↦ done none
      | some c ↦ done (some c.length)
    ])
    else done none

module _ (h : Http) where
  open h use {Server, Body}

  pub record File : Type 0 where
    pub off : ℤ
    pub r : Option Body
    pub r_off : ℤ
    pub length : ℤ
    pub url : Text
    pub access : Access
    pub create : Bool

  -- `FS.GetLength`.
  pub data Length : Type 0 where
    known : ℤ → Length
    failed : Err → Length

  abbrev pub length_of : Option ℤ → Length
  length_of none = failed bad_number
  length_of (some l) = known l

  unfoldable pub get_length : Text → Server → Outcome (Length × Server)
  unfolding instance_length
  get_length url w =
      let (resp, w') = h.send (request head url) w in
      elim resp [
        | none ↦ done (failed client, w')
        | some r ↦
            if r.status == 404
            then done (failed not_found, w')
            else (instance_length r >>= λ l. done (length_of l, w'))
      ]

  abbrev pub learned : Length → File → Option Err × File
  learned (failed e) me = (some e, me)
  learned (known l) me = (none, if beq_ℤ l (negsuc 0) then me else record me { length = l })

  -- `headLength`.
  unfoldable pub head_length : File → Server → Outcome ((Option Err × File) × Server)
  unfolding get_length
  head_length me w = get_length me.url w >>= λ l. done (learned l.0 me, l.1)

  -- The request of `prepareReader`.
  abbrev pub get_request : File → Request
  get_request me =
      if beq_ℤ me.off (pos 0)
      then request get me.url
      else record (request get me.url) { range = range_from me.off }

  abbrev pub opened : Body → ℤ → File → File
  opened b l me = record me { r = some b; r_off = me.off; length = l }

  -- Its cases for partial content and for the whole.
  unfoldable pub take_partial : Response Body → File → Outcome (Option Err × File)
  unfolding parse_bytes_content_range
  take_partial resp me = parse_bytes_content_range resp.content_range >>= λ cr. elim cr [
    | none ↦ done (some bad_response, me)
    | some c ↦
        if not (beq_ℤ c.first me.off)
        then done (some bad_response, me)
        else done (none, opened resp.body c.length me)
  ]

  unfoldable pub take_whole : Response Body → File → Option Err × File
  unfolding parse_uint to_int64
  take_whole resp me =
      if not (beq_ℤ me.off (pos 0)) then (some bad_response, me) else (elim resp.content_length [
        | [] ↦ (none, opened resp.body me.length me)
        | c ∷ cs ↦ elim (parse_uint (c ∷ cs)) [
          | none ↦ (some bad_number, me)
          | some l ↦ (none, opened resp.body (to_int64 l) me)
        ]
      ])

  unfoldable pub take_response : Response Body → File → Outcome (Option Err × File)
  unfolding take_partial take_whole
  take_response resp me =
      if resp.status == 206
      then take_partial resp me
      else if resp.status == 200
      then done (take_whole resp me)
      else if resp.status == 404
      then done (some not_found, me)
      else done (some (bad_status resp.status), me)

  -- A reader that is elsewhere is dropped.
  abbrev pub realigned : File → File
  realigned me = if beq_ℤ me.off me.r_off then me else record me { r = none }

  unfoldable pub open_reader : File → Server → Outcome ((Option Err × File) × Server)
  unfolding take_response
  open_reader me w = elim me.access [
    | wronly ↦ done ((some read_flags_missing, me), w)
    | _ ↦
        let (resp, w') = h.send (get_request me) w in
        elim resp [
          | none ↦ done ((some client, me), w')
          | some r ↦ take_response r me >>= λ t. done (t, w')
        ]
  ]

  unfoldable pub prepare_reader : File → Server → Outcome ((Option Err × File) × Server)
  unfolding open_reader
  prepare_reader me w = elim (realigned me).r [
    | none ↦ open_reader (realigned me) w
    | some b ↦ done ((none, realigned me), w)
  ]
