-- ===== src/Rotator/Server/Request.antt =====
-- `read_request` and `parse_authority` of src/rotator/server.rs. `httparse` and `hyper::Uri` are packages.
use Prim.Native.Nat.{ℕ, min}
use flx.Base.{
  ◌&&◌, ℕ_eq, any, [], true, drop, nat_eq, some, List, ◌∷◌, list_eq, if◌then◌else◌, none, Option,
  Bool,
}
use flx.Base.Bytes.{codes, Bytes}
use flx.Proxy.Text.{eq_ignore_ascii_case, parse_u16}
use flx.Negotiators.Wire.{Uri}
use flx.Rotator.Server.Head.{Read, read_head, Head}

-- What `httparse::Request::parse` says.
pub record HeadParts : Type 0 where
  pub consumed : ℕ
  pub method : Option Bytes
  pub path : Option Bytes
  pub headers : List (Bytes × Bytes)

pub data RequestHead : Type 0 where
  wrong partial : RequestHead
  complete : HeadParts → RequestHead

pub record ClientRequest : Type 0 where
  pub tunnel : Bool
  pub method : Bytes
  pub host : Bytes
  pub port : ℕ
  pub authorized : Bool
  pub forward : Bytes

-- `trim_start_matches` and `trim_end_matches` of one character.
unfoldable pub trim_start : ℕ → Bytes → Bytes
trim_start b [] = []
trim_start b (c ∷ text) = if nat_eq c b then trim_start b text else c ∷ text

abbrev pub keep_end : ℕ → ℕ → Bytes → Bytes
keep_end b c [] = if nat_eq c b then [] else c ∷ []
keep_end b c (d ∷ text) = c ∷ d ∷ text

unfoldable pub trim_end : ℕ → Bytes → Bytes
trim_end b [] = []
trim_end b (c ∷ text) = keep_end b c (trim_end b text)

-- `[` and `]`
unfoldable pub unbracket : Bytes → Bytes
unfolding trim_start trim_end
unbracket host = trim_end 93 (trim_start 91 host)

-- `rsplit_once(':')`
abbrev split_at : ℕ → Bytes → Option (Bytes × Bytes) → Option (Bytes × Bytes)
split_at c text (some (before, after)) = some (c ∷ before, after)
split_at c text none = if nat_eq c 58 then some ([], text) else none

unfoldable pub rsplit_colon : Bytes → Option (Bytes × Bytes)
rsplit_colon [] = none
rsplit_colon (c ∷ text) = split_at c text (rsplit_colon text)

abbrev with_port : Bytes → Option ℕ → Option (Bytes × ℕ)
with_port host none = none
with_port host (some port) = some (unbracket host, port)

abbrev parse_parts : Option (Bytes × Bytes) → Option (Bytes × ℕ)
parse_parts none = none
parse_parts (some (host, port)) = with_port host (parse_u16 port)

unfoldable pub parse_authority : Bytes → Option (Bytes × ℕ)
unfolding rsplit_colon unbracket parse_u16
parse_authority authority = parse_parts (rsplit_colon authority)

abbrev or_80 : Option ℕ → ℕ
or_80 none = 80
or_80 (some port) = port

abbrev of_host : Option ℕ → Option Bytes → Option (Bytes × ℕ)
of_host port none = none
of_host port (some host) = some (unbracket host, or_80 port)

abbrev of_uri : Option Uri → Option (Bytes × ℕ)
of_uri none = none
of_uri (some uri) = of_host uri.port_u16 uri.host

abbrev pub is_authorized : Option Bytes → List (Bytes × Bytes) → Bool
is_authorized none headers = true
is_authorized (some expected) headers =
    any
      (λ (h : Bytes × Bytes).
        eq_ignore_ascii_case h.0 (codes "proxy-authorization") && list_eq h.1 expected)
      headers

abbrev pub is_connect : Bytes → Bool
is_connect method = list_eq method (codes "CONNECT")

module _ (parse_request : Bytes → RequestHead) (parse_uri : Bytes → Option Uri) where
  abbrev target_of : Bytes → Bytes → Option (Bytes × ℕ)
  target_of method path =
      if is_connect method then parse_authority path else of_uri (parse_uri path)

  abbrev with_target :
      Option Bytes → Bytes → ℕ → HeadParts → Bytes → Option (Bytes × ℕ) → Option ClientRequest
  with_target expected bytes end parts method none = none
  with_target expected bytes end parts method (some (host, port)) = some (record {
    tunnel = is_connect method;
    method = method;
    host = host;
    port = port;
    authorized = is_authorized expected parts.headers;
    forward = if is_connect method then drop (min parts.consumed end) bytes else bytes;
  })

  abbrev with_parts :
      Option Bytes → Bytes → ℕ → HeadParts → Option Bytes → Option Bytes → Option ClientRequest
  with_parts expected bytes end parts none path = none
  with_parts expected bytes end parts (some method) none = none
  with_parts expected bytes end parts (some method) (some path) =
      with_target expected bytes end parts method (target_of method path)

  abbrev of_parsed : Option Bytes → Bytes → ℕ → RequestHead → Option ClientRequest
  of_parsed expected bytes end RequestHead.wrong = none
  of_parsed expected bytes end RequestHead.partial = none
  of_parsed expected bytes end (RequestHead.complete parts) =
      with_parts expected bytes end parts parts.method parts.path

  abbrev of_head : Option Bytes → Head → Option ClientRequest
  of_head expected (Head.head bytes end) = of_parsed expected bytes end (parse_request bytes)
  of_head expected _ = none

  -- An error is `none`.
  unfoldable pub read_request : List Read → Option Bytes → Option ClientRequest
  unfolding read_head parse_authority
  read_request reads expected = of_head expected (read_head [] reads)
