-- ===== src/Rpc/Client/Growth.antt =====
-- How many calls there are.
use sniff_css.Prelude.{
  ℕ, ◌+◌, ◌≤◌, String, ◌≡◌, refl, subst, sym, inl, inr, Option, none, some, List, [], ◌∷◌, arith,
  if◌then◌else◌, get_elem?, length, Bool-cases, length-append,
}
use sniff_css.Json.{Value, Serde}
use sniff_css.Rpc.Frames.{closed, err, Incoming, response, event, decode_incoming, answer}
use sniff_css.Rpc.Client.Table.{PendingMap, lookup, insert, remove, update, length-update}
use sniff_css.Rpc.Client.{
  Slot, open_slot, lost, sent, Stage, numbered, sending, waiting, cancelled, over, Call, Client,
  set_stage, lose, deliver, drop_replaced, register_at, send_at, after_send, resolve_from,
  resolve_at, cancel_at, route, dispatch, dispatch_decoded, Action, begin, register, send, receive,
  stop, resolve, cancel, on_call, step, run,
}

module _ (S : Serde) where
  open S use {Number, from_str}

  abbrev Grows : Client S → Client S → Type 0
  Grows c d = length d.calls ≤ length c.calls + 1

  update-Grows :
      (c : Client S) (k : ℕ) (f : Call S → Call S) (cs : List (Call S)) (p : PendingMap)
      → length cs ≡ length c.calls
      → Grows c (record c { pending = p; calls = update cs k f })
  update-Grows c k f cs p e = omega (arith, length-update cs k f, e)

  length-drop_replaced :
      (o : Option ℕ) (cs : List (Call S)) → length (drop_replaced S o cs) ≡ length cs
  length-drop_replaced none cs = refl
  length-drop_replaced (some k) cs = length-update cs k (lose S)

  register_at-Grows :
      (c : Client S) (k : ℕ) (call : Call S) (t : Stage S) → Grows c (register_at S c k call t)
  register_at-Grows c k call numbered =
      update-Grows c k (set_stage S sending) _ (insert c.pending call.id k)
        (length-drop_replaced (lookup c.pending call.id) c.calls)
  register_at-Grows c k call sending = omega arith
  register_at-Grows c k call waiting = omega arith
  register_at-Grows c k call cancelled = omega arith
  register_at-Grows c k call (over r) = omega arith

  send_at-Grows :
      (c : Client S) (k : ℕ) (o : Option String) (t : Stage S) → Grows c (send_at S c k o t)
  send_at-Grows c k o sending =
      update-Grows c k (set_stage S (after_send S o)) c.calls c.pending refl
  send_at-Grows c k o numbered = omega arith
  send_at-Grows c k o waiting = omega arith
  send_at-Grows c k o cancelled = omega arith
  send_at-Grows c k o (over r) = omega arith

  cancel_at-Grows : (c : Client S) (k : ℕ) (t : Stage S) → Grows c (cancel_at S c k t)
  cancel_at-Grows c k sending = update-Grows c k (set_stage S cancelled) c.calls c.pending refl
  cancel_at-Grows c k waiting = update-Grows c k (set_stage S cancelled) c.calls c.pending refl
  cancel_at-Grows c k numbered = omega arith
  cancel_at-Grows c k cancelled = omega arith
  cancel_at-Grows c k (over r) = omega arith

  resolve_from-Grows :
      (c : Client S) (k : ℕ) (call : Call S) (s : Slot S) → Grows c (resolve_from S c k call s)
  resolve_from-Grows c k call open_slot = omega arith
  resolve_from-Grows c k call lost =
      update-Grows c k (set_stage S (over (err closed))) c.calls c.pending refl
  resolve_from-Grows c k call (sent v) =
      update-Grows c k (set_stage S (over (answer S call.method v))) c.calls
        (remove c.pending call.id) refl

  resolve_at-Grows :
      (c : Client S) (k : ℕ) (call : Call S) (t : Stage S) → Grows c (resolve_at S c k call t)
  resolve_at-Grows c k call waiting = resolve_from-Grows c k call call.slot
  resolve_at-Grows c k call numbered = omega arith
  resolve_at-Grows c k call sending = omega arith
  resolve_at-Grows c k call cancelled = omega arith
  resolve_at-Grows c k call (over r) = omega arith

  route-Grows :
      (c : Client S) (id : ℕ) (v : Value Number) (o : Option ℕ) → Grows c (route S c id v o)
  route-Grows c id v none = omega arith
  route-Grows c id v (some k) = update-Grows c k (deliver S v) c.calls (remove c.pending id) refl

  dispatch-Grows : (c : Client S) (i : Incoming S) → Grows c (dispatch S i c)
  dispatch-Grows c (event e) = omega arith
  dispatch-Grows c (response id v) = route-Grows c id v (lookup c.pending id)

  decoded-Grows : (c : Client S) (o : Option (Incoming S)) → Grows c (dispatch_decoded S o c)
  decoded-Grows c none = omega arith
  decoded-Grows c (some i) = dispatch-Grows c i

  on_call-Grows :
      (c : Client S) (o : Option (Call S)) (f : Call S → Client S)
      → ((call : Call S) → Grows c (f call))
      → Grows c (on_call S c o f)
  on_call-Grows c none f h = omega arith
  on_call-Grows c (some call) f h = h call

  pub step-Grows : (a : Action S) (c : Client S) → length (step S a c).calls ≤ length c.calls + 1
  unfolding step
  step-Grows (begin m) c = omega (
    arith,
    length-append c.calls
        (record { id = c.next_id; method = m; stage = numbered; slot = open_slot } ∷ []),
  )
  step-Grows (register k) c =
      on_call-Grows c (get_elem? c.calls k) _ (λ call. register_at-Grows c k call call.stage)
  step-Grows (send k o) c =
      on_call-Grows c (get_elem? c.calls k) _ (λ call. send_at-Grows c k o call.stage)
  step-Grows (receive text) c = elim (Bool-cases c.reading) [
    | inl e ↦
        subst (λ b. Grows c (if b then dispatch_decoded S (decode_incoming S text) c else c))
          (sym e) (decoded-Grows c (decode_incoming S text))
    | inr e ↦
        subst (λ b. Grows c (if b then dispatch_decoded S (decode_incoming S text) c else c))
          (sym e) (omega arith)
  ]
  step-Grows stop c = omega arith
  step-Grows (resolve k) c =
      on_call-Grows c (get_elem? c.calls k) _ (λ call. resolve_at-Grows c k call call.stage)
  step-Grows (cancel k) c =
      on_call-Grows c (get_elem? c.calls k) _ (λ call. cancel_at-Grows c k call.stage)

  pub length-run :
      (acts : List (Action S)) (c : Client S)
      → length (run S acts c).calls ≤ length c.calls + length acts
  unfolding run
  length-run [] c = omega arith
  length-run (a ∷ rest) c = omega (arith, length-run rest (step S a c), step-Grows a c)
