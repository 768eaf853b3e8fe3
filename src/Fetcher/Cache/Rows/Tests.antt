-- ===== src/Fetcher/Cache/Rows/Tests.antt =====
-- The row format on a file of three rows.
use flx.Base.{Option, ◌≡◌, refl, List, [], ◌∷◌, none, some, arith}
use flx.Base.Outcome.{returned, index}
use flx.Proxy.Protocol.{elite, http, connect}
use flx.Fetcher.Cache.Rows.Safety.{HasRoom, decode_rows_total}
use flx.Fetcher.Cache.Rows.{
  decode_loop, of_le32, decode_row, decode_protocol, of_le16, protocol_from_code, Row, encode_rows,
  decode_rows, encode_loop, encode_row, encode_protocol, le16, le32,
}
use flx.Fetcher.Cache.Rows.RoundTrip.{IsRows, decode-encode_rows}

abbrev three_rows : List Row
three_rows =
    record { ip = record { a = 1; b = 2; c = 3; d = 4 }; port = 8080; protocol = none }
    ∷ record {
      ip = record { a = 5; b = 6; c = 7; d = 8 };
      port = 3128;
      protocol = some (http elite);
    }
    ∷ record {
      ip = record { a = 9; b = 9; c = 9; d = 255 };
      port = 1;
      protocol = some (connect 443);
    }
    ∷ []

three_rows-IsRows : IsRows three_rows
three_rows-IsRows = omega arith

decode-encode_rows_example : decode_rows (encode_rows three_rows) ≡ returned (some three_rows)
decode-encode_rows_example = decode-encode_rows three_rows three_rows-IsRows (omega arith)

decode_rows_total_example :
    (o : Option (List Row)) × (decode_rows (encode_rows three_rows) ≡ returned o)
    × HasRoom (encode_rows three_rows) o
decode_rows_total_example = decode_rows_total (encode_rows three_rows)

runs : decode_rows (encode_rows three_rows) ≡ returned (some three_rows)
unfolding decode_rows encode_rows encode_loop encode_row encode_protocol le16 le32 index decode_loop
    of_le32 decode_row decode_protocol of_le16 protocol_from_code
runs = refl
