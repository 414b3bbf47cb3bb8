-- ===== src/DebugNet.antt =====
-- nets/debug.rs: the request bodies of a debug net, and the search for its record.
pub mod Bodies
pub mod Records
mod Tests
use lager_rs.Prelude.{
  ℕ, Bool, true, false, not, ◌&&◌, ◌||◌, Option, none, some, List, [], ◌∷◌, ◌++◌, Bytes, Text,
  Result, ok, err, str, text_eq, if◌then◌else◌, ◌>>=?◌,
}
use lager_rs.Json.{
  Value, null, boolean, number, pos_int, string, object, Fields, end, field, insert, lookup, get,
  as_str,
}
use lager_rs.Error.{Error, Res, box}
use lager_rs.Codec.Base64.{base64_encode}
use lager_rs.Wire.Request.{Timeout, after, entries, json}
use lager_rs.Wire.Debug.{text_at}

pub data FirmwareKind : Type 0 where
  hex elf bin : FirmwareKind

pub data Transport : Type 0 where
  swd jtag : Transport

-- `Transport::as_str`
abbrev pub transport_text : Transport → Text
transport_text swd = str "SWD"
transport_text jtag = str "JTAG"

pub record ConnectOptions : Type 0 where
  pub speed : Option Text
  pub force : Bool
  pub halt : Bool
  pub gdb : Bool
  pub jlink_script : Option Bytes
  pub openocd_config : Option Bytes
  pub gdb_port : Option ℕ
  pub swo_port : Option ℕ
  pub telnet_port : Option ℕ
  pub rtt_telnet_port : Option ℕ
  pub transport : Option Transport

unfoldable pub default_connect : ConnectOptions
default_connect = record {
  speed = none;
  force = false;
  halt = false;
  gdb = true;
  jlink_script = none;
  openocd_config = none;
  gdb_port = none;
  swo_port = none;
  telnet_port = none;
  rtt_telnet_port = none;
  transport = none;
}

pub record FlashOptions : Type 0 where
  pub verbose : Bool
  pub jlink_script : Option Bytes
  pub require_evidence : Option Bool

pub record EraseOptions : Type 0 where
  pub speed : Option Text
  pub transport : Option Transport
  pub require_evidence : Option Bool

-- `timeout` is a JSON value, since it is a float.
pub record RttOptions : Type 0 where
  pub channel : ℕ
  pub search_addr : Option ℕ
  pub search_size : Option ℕ
  pub chunk_size : Option ℕ
  pub timeout : Value

abbrev pub connect_timeout : Timeout
connect_timeout = after 30000

abbrev pub flash_timeout : Timeout
flash_timeout = after 180000

abbrev pub erase_timeout : Timeout
erase_timeout = after 120000

abbrev pub reset_timeout : Timeout
reset_timeout = after 10000

abbrev pub memrd_timeout : Timeout
memrd_timeout = after 30000

abbrev pub quick_timeout : Timeout
quick_timeout = after 10000

-- `Map::extend`. The keys of a map differ, so the order of the insertions does not matter.
unfoldable pub extend : Fields → Fields → Fields
extend end obj = obj
extend (field k v extra) obj = insert k v (extend extra obj)

-- Every caller gives an object for `extra`.
unfoldable pub debug_body : Value → Fields → Value
unfolding extend insert
debug_body net extra = object (extend extra (insert (str "net") net end))

abbrev pub set_some {ℓ} : {A : Type ℓ} → Text → (A → Value) → Option A → Fields → Fields
set_some k f none m = m
set_some k f (some a) m = insert k (f a) m

abbrev pub number_of : ℕ → Value
number_of n = number (pos_int n)

abbrev pub transport_value : Transport → Value
transport_value t = string (transport_text t)

abbrev pub base64_value : Bytes → Value
base64_value bytes = string (base64_encode bytes)

abbrev pub Call : Type 0
Call = Text × Value × Timeout

unfoldable pub needs_transport_feature : ConnectOptions → Bool
needs_transport_feature opts = elim opts.transport [ some jtag ↦ true | _ ↦ false ]

unfoldable pub connect : Value → ConnectOptions → Call
unfolding debug_body base64_encode insert
connect net opts =
    let start = entries (
      (str "force", boolean opts.force)
      ∷ (str "halt", boolean opts.halt)
      ∷ (str "gdb", boolean opts.gdb)
      ∷ []) in
    let extra = set_some (str "rtt_telnet_port") number_of opts.rtt_telnet_port (
      set_some (str "telnet_port") number_of opts.telnet_port (
        set_some (str "swo_port") number_of opts.swo_port (
          set_some (str "gdb_port") number_of opts.gdb_port (
            set_some (str "openocd_config") base64_value opts.openocd_config (
              set_some (str "jlink_script") base64_value opts.jlink_script (
                set_some (str "transport") transport_value opts.transport
                  (set_some (str "speed") string opts.speed start))))))) in
    (str "/debug/connect", debug_body net extra, connect_timeout)

unfoldable pub disconnect : Value → Bool → Call
unfolding debug_body insert
disconnect net keep_running = (
  str "/debug/disconnect",
  debug_body net (entries ((str "keep_jlink_running", boolean keep_running) ∷ [])),
  quick_timeout,
)

unfoldable pub reset : Value → Bool → Call
unfolding debug_body insert
reset net halt =
    (str "/debug/reset", debug_body net (entries ((str "halt", boolean halt) ∷ [])), reset_timeout)

unfoldable pub halt : Value → Call
unfolding debug_body
halt net = (str "/debug/halt", debug_body net end, reset_timeout)

unfoldable pub erase_params : Fields → EraseOptions → Fields
unfolding insert
erase_params extra opts = set_some (str "require_evidence") boolean opts.require_evidence (
    set_some (str "transport") transport_value opts.transport
      (set_some (str "speed") string opts.speed extra))

unfoldable pub erase : Value → EraseOptions → Call
unfolding debug_body erase_params
erase net opts = (str "/debug/erase", debug_body net (erase_params end opts), erase_timeout)

unfoldable pub erase_range : Value → ℕ → ℕ → EraseOptions → Call
unfolding debug_body erase_params insert
erase_range net start size opts = (
  str "/debug/erase",
  debug_body net (
      erase_params
        (entries ((str "erase_start", number_of start) ∷ (str "erase_size", number_of size) ∷ []))
        opts),
  erase_timeout,
)

abbrev pub set_true : Text → Bool → Fields → Fields
set_true k false m = m
set_true k true m = insert k (boolean true) m

unfoldable pub read_memory : Value → ℕ → ℕ → Bool → Call
unfolding debug_body insert
read_memory net address length no_reset = (
  str "/debug/memrd",
  debug_body net (
      set_true (str "no_reset") no_reset
        (entries ((str "start_addr", number_of address) ∷ (str "length", number_of length) ∷ []))),
  memrd_timeout,
)

unfoldable pub info : Value → Bool → Call
unfolding debug_body insert
info net probe =
    (str "/debug/info", debug_body net (set_true (str "probe") probe end), quick_timeout)

unfoldable pub status : Value → Bool → Call
unfolding debug_body insert
status net probe =
    (str "/debug/status", debug_body net (set_true (str "probe") probe end), quick_timeout)

abbrev pub payload_key : FirmwareKind → Text
payload_key hex = str "hexfile"
payload_key elf = str "elffile"
payload_key bin = str "binfile"

abbrev pub or_start : Option ℕ → ℕ
or_start none = 0x8000000
or_start (some a) = a

abbrev pub payload : FirmwareKind → Bytes → Option ℕ → Fields
payload bin contents address =
    entries
      ((str "content", base64_value contents) ∷ (str "address", number_of (or_start address)) ∷ [])
payload _ contents address = entries ((str "content", base64_value contents) ∷ [])

unfoldable pub flash : Value → Bytes → FirmwareKind → Option ℕ → FlashOptions → Call
unfolding debug_body base64_encode insert
flash net contents kind address opts = (
  str "/debug/flash",
  debug_body net (
      set_some (str "require_evidence") boolean opts.require_evidence (
        set_some (str "jlink_script") base64_value opts.jlink_script (
          set_true (str "verbose") opts.verbose
            (insert (payload_key kind) (object (payload kind contents address)) end)))),
  flash_timeout,
)

unfoldable pub rtt_body : Value → RttOptions → Value
unfolding debug_body insert
rtt_body net opts = debug_body net (
    set_some (str "chunk_size") number_of opts.chunk_size (
      set_some (str "search_size") number_of opts.search_size (
        set_some (str "search_addr") number_of opts.search_addr (
          entries ((str "channel", number_of opts.channel) ∷ (str "timeout", opts.timeout) ∷ [])))))

abbrev pub is_at : Text → Value → Text → Bool
is_at k rec t = elim (text_at k rec) [ none ↦ false | some s ↦ text_eq s t ]

abbrev pub not_found : Bool → Text → Error
not_found true name = box 404 (str "net '" ++ (name ++ str "' exists but is not a debug net"))
not_found false name = box 404 (str "debug net '" ++ (name ++ str "' not found on this box"))

-- The loop, with its flag `wrong_role`.
unfoldable pub search_records : Bool → List Value → Text → Res Value
unfolding lookup
search_records wrong_role [] name = err (not_found wrong_role name)
search_records wrong_role (rec ∷ records) name =
    let named = is_at (str "name") rec name in
    let later = search_records (wrong_role || named) records name in
    if named && is_at (str "role") rec (str "debug") then ok rec else later

unfoldable pub find_debug_record : List Value → Text → Res Value
unfolding search_records
find_debug_record records name = search_records false records name
