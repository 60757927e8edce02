-- ===== src/Tests/Rpc.antt =====
-- Two calls of a client, one of which is answered.
use sniff_css.Prelude.{ℕ, ◌≡◌, ◌⊎◌, refl, none, some, List, [], ◌∷◌, arith, get_elem?}
use sniff_css.Json.{number, string, object, Value, empty, entry}
use sniff_css.Rpc.Frames.{err, protocol, decode_value, event, answer}
use sniff_css.Rpc.Client.{
  open_slot, sent, waiting, cancelled, over, Call, connected, Action, begin, register, send,
  receive, stop, resolve, cancel, step, run,
}
use sniff_css.Rpc.Client.Routing.Answers.{run_resolved}
use sniff_css.Rpc.Client.Routing.Stopped.{run_stopped}
use sniff_css.Tests.Host.{host, get, read_line}

abbrev envelope : Value ℕ
envelope = object (entry "id" (number 1) (entry "result" (string "ok") empty))

abbrev refused : Value ℕ
refused = object (entry "error" (object (entry "message" (string "no such node") empty)) empty)

answer-refused : answer host "DOM.focus" refused ≡ err (protocol "DOM.focus" "no such node")
unfolding answer get
answer-refused = refl

loaded_event :
    decode_value host (object (entry "method" (string "Page.loadEventFired") empty))
    ≡ some (event (record { method = "Page.loadEventFired"; params = empty; session_id = none }))
unfolding decode_value get
loaded_event = refl

-- the second call is registered after the first was sent
abbrev two_calls : List (Action host)
two_calls = begin "Page.enable" ∷ register 0 ∷ begin "DOM.enable" ∷ send 0 none ∷ register 1 ∷ []

abbrev first_answered : List (Action host)
first_answered =
    begin "Page.enable"
    ∷ register 0
    ∷ begin "DOM.enable"
    ∷ send 0 none
    ∷ receive "response"
    ∷ register 1
    ∷ resolve 0
    ∷ []

abbrev first_call : Call host
first_call = record { id = 1; method = "Page.enable"; stage = waiting; slot = open_slot }

run_resolved_example :
    get_elem?
      (step host
        (resolve 0)
        (step host (receive "response") (run host two_calls (connected host)))).calls
      0
    ≡ some (record first_call {
      stage = over (answer host "Page.enable" envelope);
      slot = sent envelope;
    })
unfolding run get read_line
run_resolved_example =
    run_resolved host two_calls 0 {call = first_call} "response" (ground arith) refl refl refl refl
      refl refl

run_stopped_example :
    (x : Call host) × (get_elem?
        (run host (receive "response" ∷ resolve 0 ∷ cancel 0 ∷ []) (
          run host
            (begin "Page.enable" ∷ register 0 ∷ send 0 none ∷ stop ∷ [])
            (connected host))).calls
        0
      ≡ some x)
    × ((x.stage ≡ waiting) ⊎ (x.stage ≡ cancelled))
unfolding run get read_line
run_stopped_example =
    run_stopped host (begin "Page.enable" ∷ register 0 ∷ send 0 none ∷ stop ∷ [])
      (receive "response" ∷ resolve 0 ∷ cancel 0 ∷ []) 0 {call = first_call} (ground arith) refl
      refl refl refl
