-- ===== src/Rpc/Client/Routing/Answers.antt =====
-- What the calls of a client get.
use sniff_css.Prelude.{
  ℕ, ◌+◌, ◌<◌, String, ◌≡◌, refl, ap, ◌∙◌, ◌⊎◌, true, some, List, arith, if◌then◌else◌, get_elem?,
  length,
}
use sniff_css.Json.{Value, Serde}
use sniff_css.Rpc.Client.Routing.Runs.{is_received, run-Inv}
use sniff_css.Rpc.Client.Routing.Kept.{connected-Inv}
use sniff_css.Rpc.Frames.{
  transport, RpcResult, err, decode_incoming, decode_value, decode_parsed, incoming_of, answer,
  id_of,
}
use sniff_css.Rpc.Client.Table.{lookup, remove, update, get-update}
use sniff_css.Rpc.Client.{
  u64_range, open_slot, sent, waiting, over, Call, Client, connected, set_stage, deliver, send_to,
  resolve_from, resolve_at, route, dispatch_decoded, Action, receive, resolve, on_call, step, run,
}
use sniff_css.Rpc.Client.Routing.{Inv}

module _ (S : Serde) where
  open S use {Number, from_str}

  -- the result of a call: the sink failed, or it is that of a received frame with its id
  abbrev pub Answered : List (Action S) → ℕ → String → RpcResult (Value Number) → Type 0
  Answered acts id method r =
      ((e : String) × (r ≡ err (transport e)))
      ⊎ ((text : String) × (v : Value Number) × (is_received S acts text ≡ true)
          × (from_str text ≡ some v)
          × (id_of S v ≡ some id)
          × (r ≡ answer S method v))

  abbrev Received : List (Action S) → Value Number → Type 0
  Received acts v = (text : String) × (is_received S acts text ≡ true) × (from_str text ≡ some v)

  run-connected :
      (acts : List (Action S))
      → length acts + 1 < u64_range
      → Inv S (Received acts) (run S acts (connected S))
  run-connected acts b =
      run-Inv S (Received acts) acts (connected S) (λ text v a h. (text, a, h))
        (connected-Inv S (Received acts)) (omega (arith, b))

  -- The ids of the calls of such a run are all different.
  pub run_distinct :
      (acts : List (Action S)) (k j : ℕ) {a b : Call S}
      → length acts + 1 < u64_range
      → get_elem? (run S acts (connected S)).calls k ≡ some a
      → get_elem? (run S acts (connected S)).calls j ≡ some b
      → a.id ≡ b.id
      → k ≡ j
  run_distinct acts k j {a} {b} l h g e = omega (
    arith,
    e,
    ((run-connected acts l).each k a h).id_place,
    ((run-connected acts l).each j b g).id_place,
  )

  resolve_sent :
      (d : Client S) (k : ℕ) (x : Call S) (v : Value Number)
      → get_elem? d.calls k ≡ some x
      → x.stage ≡ waiting
      → x.slot ≡ sent v
      → get_elem? (step S (resolve k) d).calls k
        ≡ some (record x { stage = over (answer S x.method v) })
  unfolding step
  resolve_sent d k x v h w s =
      ap (λ c. get_elem? c.calls k)
        (ap (λ o. on_call S d o (λ call. resolve_at S d k call call.stage)) h
          ∙ ap (λ t. resolve_at S d k x t) w
          ∙ ap (λ t. resolve_from S d k x t) s)
      ∙ get-update d.calls k (set_stage S (over (answer S x.method v))) h

  receive_routed :
      (c : Client S) (id k : ℕ) (text : String) (v : Value Number)
      → c.reading ≡ true
      → from_str text ≡ some v
      → id_of S v ≡ some id
      → lookup c.pending id ≡ some k
      → step S (receive text) c
        ≡ record c { pending = remove c.pending id; calls = update c.calls k (deliver S v) }
  unfolding step decode_incoming decode_value
  receive_routed c id k text v rd t q l =
      ap (λ b. if b then dispatch_decoded S (decode_parsed S (from_str text)) c else c) rd
      ∙ ap (λ o. dispatch_decoded S (decode_parsed S o) c) t
      ∙ ap (λ o. dispatch_decoded S (incoming_of S v o) c) q
      ∙ ap (route S c id v) l

  waiting_entry :
      (acts : List (Action S)) (k : ℕ) {call : Call S}
      → length acts + 1 < u64_range
      → get_elem? (run S acts (connected S)).calls k ≡ some call
      → call.stage ≡ waiting
      → call.slot ≡ open_slot
      → lookup (run S acts (connected S)).pending call.id ≡ some k
  waiting_entry acts k {call} b h w o =
      let g = (run-connected acts b).each k call h in
      ap (lookup (run S acts (connected S)).pending) g.id_place ∙ g.routed ∙ ground (arith, w, o)

  -- A response reaches the call that waits for it: if the reader runs, a call of such a run waits
  -- with nothing in its channel, and a frame with its id is received, then the call goes on, and is
  -- over with the error or result of the frame.
  pub run_resolved :
      (acts : List (Action S)) (k : ℕ) {call : Call S} (text : String) {v : Value Number}
      → length acts + 1 < u64_range
      → (run S acts (connected S)).reading ≡ true
      → get_elem? (run S acts (connected S)).calls k ≡ some call
      → call.stage ≡ waiting
      → call.slot ≡ open_slot
      → from_str text ≡ some v
      → id_of S v ≡ some call.id
      → get_elem? (step S (resolve k) (step S (receive text) (run S acts (connected S)))).calls k
        ≡ some (record call { stage = over (answer S call.method v); slot = sent v })
  run_resolved acts k {call} text {v} b rd h w o t q =
      let c = run S acts (connected S) in
      ap (λ d. get_elem? (step S (resolve k) d).calls k)
        (receive_routed c call.id k text v rd t q (waiting_entry acts k b h w o))
      ∙ resolve_sent _ k (record call { slot = sent v }) v
          (get-update c.calls k (deliver S v) h ∙ ap (λ s. some (send_to S v s call)) w) w refl
