-- ===== src/Rpc/Client.antt =====
-- `JsonRpcClient` of crates/sniff-cdp/src/jsonrpc.rs: the calls in flight, the table that routes
-- their responses, and the reader. An action is what a task does between two suspensions.
pub mod Table
pub mod Growth
pub mod Routing
use sniff_css.Prelude.{
  ℕ, ◌+◌, ◌%◌, String, Bool, true, false, ◌&&◌, not, Option, none, some, List, [], ◌∷◌, ◌++◌, ◌==◌,
  if◌then◌else◌, get_elem?,
}
use sniff_css.Json.{Value, Serde}
use sniff_css.Rpc.Frames.{
  transport, closed, RpcResult, err, JsonRpcEvent, Incoming, response, event, decode_incoming,
  answer,
}
use sniff_css.Rpc.Client.Table.{PendingMap, lookup, insert, remove, update}

-- the values of a u64
abbrev pub u64_range : ℕ
u64_range = 18446744073709551616

module _ (S : Serde) where
  open S use {Number}

  -- what a oneshot channel holds: nothing yet, the value, or nothing ever, the sender being gone
  pub data Slot : Type 0 where
    open_slot lost : Slot
    sent : Value Number → Slot

  -- where a task is in `call`: it has its id, waits for the sink, waits for the channel, or is over
  pub data Stage : Type 0 where
    numbered sending waiting cancelled : Stage
    over : RpcResult (Value Number) → Stage

  pub record Call : Type 0 where
    pub id : ℕ
    pub method : String
    pub stage : Stage
    pub slot : Slot

  -- the channel of the call at place `k` is the `k` of `pending`
  pub record Client : Type 0 where
    pub next_id : ℕ
    pub pending : PendingMap
    pub calls : List Call
    pub events : List (JsonRpcEvent S)
    pub reading : Bool

  -- `connect`
  abbrev pub connected : Client
  connected = record { next_id = 1; pending = []; calls = []; events = []; reading = true }

  abbrev pub set_stage : Stage → Call → Call
  set_stage t call = record call { stage = t }

  abbrev pub lose : Call → Call
  lose call = record call { slot = lost }

  -- `tx.send(value)`: the value is dropped if nobody holds the receiver
  abbrev pub send_to : Value Number → Stage → Call → Call
  send_to v cancelled call = lose call
  send_to v (over r) call = lose call
  send_to v _ call = record call { slot = sent v }

  abbrev pub deliver : Value Number → Call → Call
  deliver v call = send_to v call.stage call

  -- `fetch_add`, which wraps around
  abbrev pub start : String → Client → Client
  start method c = record c {
    next_id = (c.next_id + 1) % u64_range;
    calls =
        c.calls
        ++ record { id = c.next_id; method = method; stage = numbered; slot = open_slot } ∷ [];
  }

  -- `m.insert(id, tx)`, which drops the sender that it replaces
  abbrev pub drop_replaced : Option ℕ → List Call → List Call
  drop_replaced none cs = cs
  drop_replaced (some k) cs = update cs k lose

  abbrev pub register_at : Client → ℕ → Call → Stage → Client
  register_at c k call numbered = record c {
    pending = insert c.pending call.id k;
    calls = update (drop_replaced (lookup c.pending call.id) c.calls) k (set_stage sending);
  }
  register_at c k call t = c

  -- the request is handed to the sink, or the sink refuses it
  abbrev pub after_send : Option String → Stage
  after_send none = waiting
  after_send (some e) = over (err (transport e))

  abbrev pub send_at : Client → ℕ → Option String → Stage → Client
  send_at c k o sending = record c { calls = update c.calls k (set_stage (after_send o)) }
  send_at c k o t = c

  -- `rx.await`, and what follows
  abbrev pub resolve_from : Client → ℕ → Call → Slot → Client
  resolve_from c k call open_slot = c
  resolve_from c k call lost = record c { calls = update c.calls k (set_stage (over (err closed))) }
  resolve_from c k call (sent v) = record c {
    pending = remove c.pending call.id;
    calls = update c.calls k (set_stage (over (answer S call.method v)));
  }

  abbrev pub resolve_at : Client → ℕ → Call → Stage → Client
  resolve_at c k call waiting = resolve_from c k call call.slot
  resolve_at c k call t = c

  -- the future of the call is dropped where it waits
  abbrev pub cancel_at : Client → ℕ → Stage → Client
  cancel_at c k sending = record c { calls = update c.calls k (set_stage cancelled) }
  cancel_at c k waiting = record c { calls = update c.calls k (set_stage cancelled) }
  cancel_at c k t = c

  abbrev pub route : Client → ℕ → Value Number → Option ℕ → Client
  route c id v none = c
  route c id v (some k) = record c {
    pending = remove c.pending id;
    calls = update c.calls k (deliver v);
  }

  abbrev pub dispatch : Incoming S → Client → Client
  dispatch (response id v) c = route c id v (lookup c.pending id)
  dispatch (event e) c = record c { events = c.events ++ e ∷ [] }

  abbrev pub dispatch_decoded : Option (Incoming S) → Client → Client
  dispatch_decoded none c = c
  dispatch_decoded (some i) c = dispatch i c

  pub data Action : Type 0 where
    -- `call` takes an id; it registers its channel; the sink takes the frame or fails
    begin : String → Action
    register : ℕ → Action
    send : ℕ → Option String → Action
    -- the reader gets a text frame; it stops at a close frame, an error or the end of the stream
    receive : String → Action
    stop : Action
    -- a call that waits goes on if its channel has something; a call is dropped
    resolve cancel : ℕ → Action

  abbrev pub on_call : Client → Option Call → (Call → Client) → Client
  on_call c none f = c
  on_call c (some call) f = f call

  unfoldable pub step : Action → Client → Client
  unfolding decode_incoming answer
  step (begin method) c = start method c
  step (register k) c = on_call c (get_elem? c.calls k) (λ call. register_at c k call call.stage)
  step (send k o) c = on_call c (get_elem? c.calls k) (λ call. send_at c k o call.stage)
  step (receive text) c = if c.reading then dispatch_decoded (decode_incoming S text) c else c
  step stop c = record c { reading = false }
  step (resolve k) c = on_call c (get_elem? c.calls k) (λ call. resolve_at c k call call.stage)
  step (cancel k) c = on_call c (get_elem? c.calls k) (λ call. cancel_at c k call.stage)

  unfoldable pub run : List Action → Client → Client
  unfolding step
  run [] c = c
  run (a ∷ rest) c = run rest (step a c)
