-- ===== src/DebugNet/Tests.antt =====
-- Debug requests and records on concrete data, and instances of their theorems.
use lager_rs.Prelude.{◌≡◌, refl, true, false, some, [], ◌∷◌, Bytes, str, ok, err, ◌>>=?◌}
use lager_rs.Json.{Value, string, object, end, field, lookup, get, as_str}
use lager_rs.Codec.Base64.{base64_decode}
use lager_rs.DebugNet.{bin, FlashOptions, flash, find_debug_record, search_records, not_found}
use lager_rs.DebugNet.Bodies.{flash-contents}
use lager_rs.DebugNet.Records.{First, find_debug_record-First}

abbrev image : Bytes
image = 0 ∷ 32 ∷ 1 ∷ 255 ∷ []

abbrev careful : FlashOptions
careful = record { verbose = true; jlink_script = some (str "halt"); require_evidence = some false }

abbrev uart_record : Value
uart_record =
    object (field (str "name") (string (str "dut")) (field (str "role") (string (str "uart")) end))

abbrev debug_record : Value
debug_record =
    object (field (str "name") (string (str "dut")) (field (str "role") (string (str "debug")) end))

found_second : find_debug_record (uart_record ∷ debug_record ∷ []) (str "dut") ≡ ok debug_record
unfolding find_debug_record search_records lookup
found_second = refl

wrong_role : find_debug_record (uart_record ∷ []) (str "dut") ≡ err (not_found true (str "dut"))
unfolding find_debug_record search_records lookup
wrong_role = refl

flash-contents_example :
    (get (str "net") (flash debug_record image bin (some 0) careful).1 ≡ some debug_record)
    × ((get (str "binfile") (flash debug_record image bin (some 0) careful).1
          >>=? get (str "content")
          >>=? as_str
          >>=? base64_decode)
        ≡ some image)
flash-contents_example = flash-contents image (some 0) careful debug_record bin refl

find_debug_record-First_example : First (uart_record ∷ debug_record ∷ []) (str "dut") debug_record
find_debug_record-First_example =
    find_debug_record-First (uart_record ∷ debug_record ∷ []) (str "dut") debug_record found_second
