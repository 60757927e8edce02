-- ===== src/Rpc/Frames.antt =====
-- Frames, errors and answers of crates/sniff-cdp/src/jsonrpc.rs.
use sniff_css.Prelude.{ℕ, String, Option, none, some}
use sniff_css.Json.{Value, null, number, string, object, Map, empty, Serde}
use sniff_css.Model.Load.{at, u64_of, str_of, object_of}

pub data JsonRpcError : Type 0 where
  connect transport timeout io : String → JsonRpcError
  protocol : String → String → JsonRpcError
  closed : JsonRpcError

pub data RpcResult {ℓ} (A : Type ℓ) : Type ℓ where
  ok : A → RpcResult A
  err : JsonRpcError → RpcResult A

module _ (S : Serde) where
  open S use {Number, get, insert, from_str, from_usize}

  pub record JsonRpcEvent : Type 0 where
    pub method : String
    pub params : Map Number
    pub session_id : Option String

  pub data Incoming : Type 0 where
    response : ℕ → Value Number → Incoming
    event : JsonRpcEvent → Incoming

  -- `value.get("id").and_then(Value::as_u64)`
  abbrev pub id_of : Value Number → Option ℕ
  id_of v = u64_of S (at S v "id")

  abbrev params_of : Option (Map Number) → Map Number
  params_of none = empty
  params_of (some m) = m

  abbrev pub event_of : Value Number → Option String → Option Incoming
  event_of v none = none
  event_of v (some method) = some (
      event (record {
        method = method;
        params = params_of (object_of S (at S v "params"));
        session_id = str_of S (at S v "sessionId");
      }))

  abbrev pub incoming_of : Value Number → Option ℕ → Option Incoming
  incoming_of v (some id) = some (response id v)
  incoming_of v none = event_of v (str_of S (at S v "method"))

  unfoldable pub decode_value : Value Number → Option Incoming
  decode_value v = incoming_of v (id_of v)

  abbrev pub decode_parsed : Option (Value Number) → Option Incoming
  decode_parsed none = none
  decode_parsed (some v) = decode_value v

  unfoldable pub decode_incoming : String → Option Incoming
  unfolding decode_value
  decode_incoming text = decode_parsed (from_str text)

  -- `Request`, as serde writes it: `sessionId` only when there is one
  pub record Request : Type 0 where
    pub id : ℕ
    pub method : String
    pub params : Value Number
    pub session_id : Option String

  abbrev put_session : Option String → Map Number → Map Number
  put_session none m = m
  put_session (some s) m = insert m "sessionId" (string s)

  abbrev pub request_value : Request → Value Number
  request_value r = object (
      put_session r.session_id (
        insert (insert (insert empty "id" (number (from_usize r.id))) "method" (string r.method))
          "params" r.params))

  -- the end of `call`: the error of the envelope, or its result
  abbrev message_of : Option String → String
  message_of none = "unknown protocol error"
  message_of (some s) = s

  abbrev result_of : Option (Value Number) → Value Number
  result_of none = null
  result_of (some v) = v

  abbrev answer_of : String → Value Number → Option (Value Number) → RpcResult (Value Number)
  answer_of method v (some e) = err (protocol method (message_of (str_of S (at S e "message"))))
  answer_of method v none = ok (result_of (at S v "result"))

  unfoldable pub answer : String → Value Number → RpcResult (Value Number)
  answer method v = answer_of method v (at S v "error")
