-- ===== src/ByteRange/Tests.antt =====
-- Ranges with concrete bounds.
use missinggo.Base.{◌≡◌, some, arith}
use missinggo.Base.Int.{pos}
use missinggo.Base.Outcome.{done}
use missinggo.ByteRange.{BytesRange, string, parse_bytes_range, parse_bytes_content_range}
use missinggo.ByteRange.RoundTrip.{parse_bytes_range-string}
use missinggo.ByteRange.ContentRange.{content_range, parse_bytes_content_range-content_range}

abbrev some_range : BytesRange
some_range = record { first = pos 5; last = pos 120 }

parse_bytes_range-string_example : parse_bytes_range (string some_range) ≡ some some_range
parse_bytes_range-string_example = parse_bytes_range-string some_range (ground arith) (ground arith)

parse_bytes_content_range-content_range_example :
    parse_bytes_content_range (content_range 0 499 1234)
    ≡ done (some (record { first = pos 0; last = pos 499; length = pos 1234 }))
parse_bytes_content_range-content_range_example =
    parse_bytes_content_range-content_range 0 499 1234 (ground arith) (ground arith) (ground arith)
