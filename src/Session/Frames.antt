-- ===== src/Session/Frames.antt =====
-- The frames between a client and an agent, as internal/session/pipeline.go parses them, and the
-- helpers of load_recovery.go and request_ids.go that rewrite one. A frame is its text, as is a
-- `json.RawMessage`. The standard library is the parameter `Codec`: encoding/json on objects and
-- texts, `strconv.FormatInt` and `strings.TrimSpace`.
use ferngeist_acp_gateway.Prelude.{ℕ, Option, none, some, String, by_text, ◌==◌, if◌then◌else◌}
use ferngeist_acp_gateway.Prelude.Int.{ℤ}
use ferngeist_acp_gateway.Map
use ferngeist_acp_gateway.Map.{Map}

-- What `json.Unmarshal` does to a nil `map[string]json.RawMessage`: an error, nothing for `null`, or
-- the members of an object.
pub data Decoded : Type 0 where
  malformed null : Decoded
  object : Map String String → Decoded

-- `clientParams`, without the prompt's blocks and the request to catch up.
pub record ClientParams : Type 0 where
  pub session_id : String
  pub cwd : String
  pub request_id : Option String
  pub client_id : String

-- The standard library. `marshal` is `json.Marshal` of an object's members, `none` for its error;
-- `quote` is that of a text, and `decode_text` and `decode_params` are `json.Unmarshal` into a zero
-- value of their type, whatever of it a wrong shape leaves. `format_int` takes the 64 bits of an
-- `int64`.
pub record Codec : Type 0 where
  pub unmarshal : String → Decoded
  pub marshal : Map String String → Option String
  pub quote : String → String
  pub decode_text : Option String → String
  pub decode_params : Option String → ClientParams
  pub format_int : ℕ → String
  pub trim_space : String → String

-- A nil map or slice is `none`.
pub record ClientFrame : Type 0 where
  pub raw : String
  pub fields : Option (Map String String)
  pub method : String
  pub id : Option String
  pub params : ClientParams

pub record Usage : Type 0 where
  pub total_tokens : ℤ
  pub input_tokens : ℤ
  pub output_tokens : ℤ

pub record ProbeResult : Type 0 where
  pub protocol_version : Option ℤ
  pub session_id : String
  pub stop_reason : String
  pub usage : Option Usage

pub record ProbeUpdate : Type 0 where
  pub discriminator : String
  pub tool_call_id : String
  pub status : String
  pub kind : String

pub record ProbeParams : Type 0 where
  pub session_id : String
  pub request_id : Option String
  pub update : Option ProbeUpdate

-- `error` is its message.
pub record FrameProbe : Type 0 where
  pub method : String
  pub id : Option String
  pub result : Option ProbeResult
  pub error : Option String
  pub params : Option ProbeParams

abbrev pub no_params : ClientParams
no_params = record { session_id = ""; cwd = ""; request_id = none; client_id = "" }

abbrev pub member : String → Option (Map String String) → Option String
member key none = none
member key (some fields) = Map.lookup key fields

module _ (codec : Codec) where
  abbrev pub response_id_key : String → String
  response_id_key id = codec.trim_space id

  -- The frame whose members are `fields`.
  unfoldable pub frame_of : String → Option (Map String String) → ClientFrame
  frame_of payload fields = record {
    raw = payload;
    fields = fields;
    method = codec.decode_text (member "method" fields);
    id = member "id" fields;
    params = codec.decode_params (member "params" fields);
  }

  unfoldable pub parse_client_frame : String → ClientFrame
  unfolding frame_of
  parse_client_frame payload = elim (codec.unmarshal payload) [
    | malformed ↦ record {
      raw = payload;
      fields = none;
      method = "";
      id = none;
      params = no_params;
    }
    | null ↦ frame_of payload none
    | object fields ↦ frame_of payload (some fields)
  ]

  abbrev pub or_text : String → Option String → String
  or_text fallback none = fallback
  or_text fallback (some text) = text

  abbrev pub marshal_or : Map String String → String → String
  marshal_or msg fallback = or_text fallback (codec.marshal msg)

  -- The ID that is nil in Go is empty. Where the text is `null` and there is an ID, Go's write to a
  -- nil map panics; here nothing is rewritten.
  unfoldable pub rewrite_response_id : String → String → Option String
  rewrite_response_id cached id = elim (codec.unmarshal cached) [
    | malformed ↦ none
    | null ↦ if id == "" then some "null" else none
    | object resp ↦ codec.marshal (if id == "" then resp else Map.insert "id" id resp)
  ]
