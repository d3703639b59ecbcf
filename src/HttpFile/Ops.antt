-- ===== src/HttpFile/Ops.antt =====
-- The other operations of httpfile/file.go and httpfile/fs.go.
use missinggo.Base.{ℕ, Bool, false, not, List, [], Option, none, some, ◌==◌, if◌then◌else◌, length}
use missinggo.Base.Int.{ℤ, pos, negsuc, ◌+ℤ◌, ◌-ℤ◌, beq_ℤ}
use missinggo.Base.Decimal.{Text}
use missinggo.Base.Outcome.{Outcome, done, panics, ◌>>=◌}
use missinggo.HttpFile.{
  Http, BodyErr, request, get, patch, delete, Err, client, not_found, bad_status,
  write_flags_missing, unhandled_whence, Whence, seek_set, seek_cur, seek_end, unhandled, Access,
  rdonly, File, range_from, range_between, prepare_reader, head_length,
}

module _ (h : Http) where
  open h use {Server, Body}

  -- What `Read` makes of what the body gives.
  abbrev pub advanced : (List ℕ × Option BodyErr) × Body → File h → File h
  advanced ((bs, err), b) me = record me {
    r = some b;
    off = me.off +ℤ pos (length bs);
    r_off = me.r_off +ℤ pos (length bs);
  }

  pub data ReadResult : Type 0 where
    refused : Err → ReadResult
    got : List ℕ → Option BodyErr → ReadResult

  -- Into a buffer of `room` bytes: the bytes and the error that the body gives.
  unfoldable pub read : ℕ → File h → Server → Outcome ((ReadResult × File h) × Server)
  unfolding prepare_reader
  read room me w = prepare_reader h me w >>= λ p. elim p.0.0 [
    | some e ↦ done ((refused e, p.0.1), p.1)
    | none ↦ elim p.0.1.r [
      | none ↦ panics
      | some b ↦ let x = h.read room b in done ((got x.0.0 x.0.1, advanced x p.0.1), p.1)
    ]
  ]

  -- The offset of `Seek` from the end, once the length was asked for.
  abbrev pub from_end : ℤ → Option Err × File h → (Option Err × ℤ) × File h
  from_end offset (none, me) =
      ((none, me.length +ℤ offset), record me { off = me.length +ℤ offset })
  from_end offset (some e, me) =
      if beq_ℤ me.length (negsuc 0)
      then ((some e, pos 0), me)
      else ((none, me.length +ℤ offset), record me { off = me.length +ℤ offset })

  unfoldable pub seek :
      ℤ → Whence → File h → Server → Outcome (((Option Err × ℤ) × File h) × Server)
  unfolding head_length
  seek offset seek_set me w = done (((none, offset), record me { off = offset }), w)
  seek offset seek_cur me w =
      done (((none, me.off +ℤ offset), record me { off = me.off +ℤ offset }), w)
  seek offset seek_end me w = head_length h me w >>= λ l. done (from_end offset l.0, l.1)
  seek offset unhandled me w = done (((some unhandled_whence, pos 0), me), w)

  abbrev pub can_write : File h → Bool
  can_write me = elim me.access [ rdonly ↦ false | _ ↦ me.create ]

  unfoldable pub write : List ℕ → File h → Server → ((Option Err × ℕ) × File h) × Server
  write b me w =
      let (resp, w') =
        h.send (record (request patch me.url) { content_range = range_from me.off; body = b }) w in
      if not (can_write me) then (((some write_flags_missing, 0), me), w) else (elim resp [
        | none ↦ (((some client, 0), me), w')
        | some r ↦
            if not (r.status == 206)
            then (((some (bad_status r.status), 0), me), w')
            else (((none, length b), record me { off = me.off +ℤ pos (length b) }), w')
      ])

  unfoldable pub close : File h → File h
  close me = record me { url = []; length = negsuc 0; r = none }

  -- `FS.Open`.
  unfoldable pub open_file :
      Text → Access → Bool → Server → Outcome ((Option Err × File h) × Server)
  unfolding head_length
  open_file url access create w =
      let me : File h = record {
        off = pos 0;
        r = none;
        r_off = pos 0;
        length = negsuc 0;
        url = url;
        access = access;
        create = create;
      } in
      if create then done ((none, me), w) else head_length h me w

  -- `FS.Delete`.
  unfoldable pub delete_file : Text → Server → Option Err × Server
  delete_file url w =
      let (resp, w') = h.send (request delete url) w in
      elim resp [
        | none ↦ (some client, w')
        | some r ↦
            if r.status == 404
            then (some not_found, w')
            else if not (r.status == 200)
            then (some (bad_status r.status), w')
            else (none, w')
      ]

  pub data Opened : Type 0 where
    body : Body → Opened
    failed : Err → Opened

  unfoldable pub open_section_reader : Text → ℤ → ℤ → Server → Opened × Server
  open_section_reader url off n w =
      let (resp, w') =
        h.send (record (request get url) { range = range_between off (off +ℤ n -ℤ pos 1) }) w in
      elim resp [
        | none ↦ (failed client, w')
        | some r ↦
            if r.status == 404
            then (failed not_found, w')
            else if not (r.status == 206)
            then (failed (bad_status r.status), w')
            else (body r.body, w')
      ]
