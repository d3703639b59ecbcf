-- ===== src/HttpResource/Tests.antt =====
-- A server that answers 200 to everything.
use missinggo.Base.{ℕ, ◌≡◌, ◌≢◌, ◌↔◌, List, [], ◌∷◌, none, some}
use missinggo.Base.Int.{pos}
use missinggo.Base.Decimal.{parse_int}
use missinggo.HttpResource.{Client, request, put_method, delete_method, Err, put, delete}
use missinggo.HttpResource.Reports.{Answered, put_delete_reports}

abbrev willing : Client
willing = record {
  Server = Unit {0};
  Body = List ℕ;
  send = λ q w. (
    some (record {
      status = 200;
      content_length = pos 0;
      length_header = [];
      last_modified = [];
      body = [];
    }),
    w,
  );
  parse_time = parse_int;
}

put_delete_reports_example :
    ((put willing [] (7 ∷ []) tt).0 ≡ none
      ↔ Answered willing (record (request put_method []) { body = 7 ∷ [] }) tt 200)
    × ((delete willing [] tt).0 ≢ none)
    × (Answered willing (request delete_method []) tt 200
        → (delete willing [] tt).0 ≡ some (Err.status_error 200))
put_delete_reports_example = put_delete_reports willing [] (7 ∷ []) tt
