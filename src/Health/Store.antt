-- ===== src/Health/Store.antt =====
-- src/health.rs: the history file, one JSON record in a line, that is appended to and read at the start.
-- `serde_json` and `f64` are packages; system calls are values that say what they did.
pub mod Lines
pub mod Json
pub mod Calls
pub mod Reload
pub mod Probes
use flx.Base.{
  ℕ, ◌+◌, ◌*◌, ◌≡◌, ◌≢◌, Bool, true, false, ◌&&◌, ◌||◌, List, [], ◌∷◌, ◌++◌, Option, none, some,
  if◌then◌else◌, nat_eq, ltb, leb, length, contains, ℕ_eq, any,
}
use flx.Base.Bytes.{Bytes}
use flx.Health.{Anonymity, Ipv4Addr, HealthRecord, State, apply_record}
use flx.Proxy.Float.{Float}

abbrev pub schema_version : ℕ
schema_version = 1

abbrev pub max_record_bytes : ℕ
max_record_bytes = 16 * 1024

-- `str::lines` on UTF-8: a line ends at a newline, and one carriage return before it is dropped.
unfoldable pub strip_cr : Bytes → Bytes
strip_cr [] = []
strip_cr (b ∷ []) = if nat_eq b 13 then [] else b ∷ []
strip_cr (b ∷ c ∷ rest) = b ∷ strip_cr (c ∷ rest)

abbrev pub last_line : Bytes → List Bytes
last_line [] = []
last_line (b ∷ line) = (b ∷ line) ∷ []

-- `line` is what was read of the current line.
unfoldable pub lines_from : Bytes → Bytes → List Bytes
lines_from line [] = last_line line
lines_from line (b ∷ body) =
    if nat_eq b 10 then strip_cr line ∷ lines_from [] body else lines_from (line ++ b ∷ []) body

unfoldable pub lines : Bytes → List Bytes
unfolding lines_from
lines body = lines_from [] body

-- `line.trim().is_empty()`: every character is white space, of one, two or three bytes.
abbrev pub space : ℕ → Bool
space b = nat_eq b 32 || (leb 9 b && leb b 13)

abbrev pub space2 : ℕ → ℕ → Bool
space2 a b = nat_eq a 0xc2 && (nat_eq b 0x85 || nat_eq b 0xa0)

abbrev pub space3 : ℕ → ℕ → ℕ → Bool
space3 a b c =
    (nat_eq a 0xe1 && (nat_eq b 0x9a && nat_eq c 0x80))
    || ((nat_eq a 0xe2
          && ((nat_eq b 0x80
                && ((leb 0x80 c && leb c 0x8a)
                    || (nat_eq c 0xa8 || (nat_eq c 0xa9 || nat_eq c 0xaf))))
              || (nat_eq b 0x81 && nat_eq c 0x9f)))
        || (nat_eq a 0xe3 && (nat_eq b 0x80 && nat_eq c 0x80)))

unfoldable pub blank : Bytes → Bool
blank [] = true
blank (a ∷ []) = space a
blank (a ∷ b ∷ []) = (space a && space b) || space2 a b
blank (a ∷ b ∷ c ∷ rest) =
    (space a && blank (b ∷ c ∷ rest))
    || ((space2 a b && blank (c ∷ rest)) || (space3 a b c && blank rest))

-- The results of the system calls.
pub data ReadResult : Type 0 where
  not_found failed : ReadResult
  read : Bytes → ReadResult

-- A write and its flush. If it `stopped`, these bytes reached the file, and the error was the shutdown
-- of the runtime or another.
pub data Append : Type 0 where
  written : Append
  stopped : Bytes → Bool → Append

pub record Attempt : Type 0 where
  pub first : Append
  pub reopened : Bool
  pub second : Append

module _ (f : Float) where
  open f use {F}

  pub record StoredRecord : Type 0 where
    pub schema : ℕ
    pub timestamp : F
    pub ip : Ipv4Addr
    pub port : ℕ
    pub protocol : Bytes
    pub success : Bool
    pub latency_secs : Option F
    pub anonymity : Option Anonymity

  abbrev pub restored : StoredRecord → HealthRecord f
  restored r = record {
    schema = r.schema;
    timestamp = r.timestamp;
    ip = r.ip;
    port = r.port;
    protocol = r.protocol;
    success = r.success;
    latency_secs = r.latency_secs;
    anonymity = r.anonymity;
    reason = none;
  }

  -- `from_str` of a line, which fails on what is no record.
  module _ (from_str : Bytes → Option StoredRecord) where
    abbrev pub apply_stored : State f → Option StoredRecord → State f
    apply_stored state none = state
    apply_stored state (some r) =
        if nat_eq r.schema schema_version then apply_record f state (restored r) else state

    abbrev pub apply_line : State f → Bytes → State f
    apply_line state line = if blank line then state else apply_stored state (from_str line)

    unfoldable pub apply_lines : State f → List Bytes → State f
    apply_lines state [] = state
    apply_lines state (line ∷ rest) = apply_lines (apply_line state line) rest

    -- What `read_to_string` gave; `load_state` fails, with `none`, only on an error that is not `NotFound`.
    unfoldable pub load_state : ReadResult → Option (State f)
    unfolding apply_lines lines
    load_state not_found = some []
    load_state failed = none
    load_state (read body) = some (apply_lines [] (lines body))

  pub record HealthStore : Type 0 where
    pub file : Bytes
    pub state : State f

  abbrev pub append : Bytes → Append → Bytes → Bytes
  append body written file = file ++ body
  append body (stopped left shutdown) file = file ++ left

  abbrev pub applied : HealthRecord f → HealthStore → HealthStore
  applied r store = record store { state = apply_record f store.state r }

  abbrev pub retry : HealthRecord f → Bytes → Attempt → HealthStore → Bool × HealthStore
  retry r body a store =
      let store' = record store { file = append body a.second store.file } in
      elim a.second [ written ↦ (true, applied r store') | stopped left shutdown ↦ (false, store') ]

  unfoldable pub record_body : HealthRecord f → Bytes → Attempt → HealthStore → Bool × HealthStore
  record_body r body a store =
      let store' = record store { file = append body a.first store.file } in
      elim a.first [
        | written ↦ (true, applied r store')
        | stopped left false ↦ (false, store')
        | stopped left true ↦ if a.reopened then retry r body a store' else (false, store')
      ]

  unfoldable pub record_encoded :
      HealthRecord f → Attempt → HealthStore → Option Bytes → Bool × HealthStore
  unfolding record_body
  record_encoded r a store none = (false, store)
  record_encoded r a store (some body) =
      if ltb max_record_bytes (length body)
      then (false, store)
      else record_body r (body ++ 10 ∷ []) a store

  -- `HealthStore::record`; the state changes after the append alone.
  unfoldable pub record_health :
      (HealthRecord f → Option Bytes) → HealthRecord f → Attempt → HealthStore → Bool × HealthStore
  unfolding record_encoded
  record_health to_vec r a store = record_encoded r a store (to_vec r)

  -- `HealthStore::open`: whether the directory stands, what the file had, and whether it opens to be
  -- appended to, which makes it if there is none.
  module _ (from_str : Bytes → Option StoredRecord) where
    abbrev pub found : ReadResult → Bytes
    found not_found = []
    found failed = []
    found (read body) = body

    abbrev pub with_state : ReadResult → Bool → Option (State f) → Option HealthStore
    with_state contents opens none = none
    with_state contents opens (some state) =
        if opens then some (record { file = found contents; state = state }) else none

    unfoldable pub open_at : Bool → ReadResult → Bool → Option HealthStore
    open_at made contents opens =
        if made then with_state contents opens (load_state from_str contents) else none
