-- ===== src/Rpc/Client/Routing/Stopped.antt =====
-- What becomes of the calls that wait when the reader stops.
use sniff_css.Prelude.{
  ℕ, ◌+◌, ◌<◌, String, ◌≡◌, refl, ap, ◌∙◌, subst, sym, ◌⊎◌, inl, inr, true, false, Option, none,
  some, List, [], ◌∷◌, ◌==◌, arith, if◌then◌else◌, get_elem?, length, Bool-cases,
}
use mathlib.Core.Option.{some-injective}
use sniff_css.Json.{Value, Serde}
use sniff_css.Rpc.Client.Growth.{step-Grows, length-run}
use sniff_css.Rpc.Client.Routing.Runs.{at_call, step-Inv, run-Inv, Frames}
use sniff_css.Rpc.Client.Routing.Kept.{connected-Inv}
use sniff_css.Rpc.Frames.{closed, err, decode_incoming, answer}
use sniff_css.Rpc.Client.Table.{
  PendingMap, lookup, insert, remove, update, get-update, get-update_other, get-append,
}
use sniff_css.Rpc.Client.{
  u64_range, Slot, open_slot, lost, sent, Stage, numbered, sending, waiting, cancelled, over, Call,
  Client, connected, set_stage, drop_replaced, register_at, send_at, after_send, resolve_from,
  resolve_at, cancel_at, dispatch_decoded, Action, begin, register, send, receive, stop, resolve,
  cancel, step, run,
}
use sniff_css.Rpc.Client.Routing.{Inv}

module _ (S : Serde) where
  open S use {Number, from_str}

  -- a call that nobody will answer: it waits or was dropped, and its channel is empty
  abbrev IsIdle : Call S → Type 0
  IsIdle x = ((x.stage ≡ waiting) ⊎ (x.stage ≡ cancelled)) × (x.slot ≡ open_slot)

  module _ (k : ℕ) where
    record Stuck (c : Client S) : Type 0 where
      deaf : c.reading ≡ false
      idle : (x : Call S) × (get_elem? c.calls k ≡ some x) × IsIdle x

    apart :
        (c : Client S) (j : ℕ) (call : Call S)
        → Stuck c
        → get_elem? c.calls j ≡ some call
        → (IsIdle call → ⊥)
        → k ≡ j
        → ⊥
    apart c j call s h n e =
        let (x, a, b) = s.idle in
        n (subst IsIdle (some-injective _ _ (sym a ∙ ap (get_elem? c.calls) e ∙ h)) b)

    untouched :
        (c : Client S) (j : ℕ) (f : Call S → Call S) (q : PendingMap)
        → Stuck c
        → (k ≡ j → ⊥)
        → Stuck (record c { pending = q; calls = update c.calls j f })
    untouched c j f q s n =
        let (x, a, b) = s.idle in
        record { deaf = s.deaf; idle = (x, get-update_other c.calls j k f n ∙ a, b) }

    no_entry :
        (R : Value Number → Type 0) (c : Client S) (j : ℕ) (call : Call S)
        → Inv S R c
        → get_elem? c.calls j ≡ some call
        → call.stage ≡ numbered
        → lookup c.pending call.id ≡ none
    no_entry R c j call i h e =
        let g = i.each j call h in ap (lookup c.pending) g.id_place ∙ g.routed ∙ ground (arith, e)

    register_at-Stuck :
        (R : Value Number → Type 0) (c : Client S) (j : ℕ) (call : Call S) (t : Stage S)
        → Inv S R c
        → Stuck c
        → get_elem? c.calls j ≡ some call
        → call.stage ≡ t
        → Stuck (register_at S c j call t)
    register_at-Stuck R c j call numbered i s h e =
        subst
          (λ o. Stuck (record c {
            pending = insert c.pending call.id j;
            calls = update (drop_replaced S o c.calls) j (set_stage S sending);
          }))
          (sym (no_entry R c j call i h e))
          (untouched c j (set_stage S sending) (insert c.pending call.id j) s
            (apart c j call s h (λ (a, b). ground (arith, e, a))))
    register_at-Stuck R c j call sending i s h e = s
    register_at-Stuck R c j call waiting i s h e = s
    register_at-Stuck R c j call cancelled i s h e = s
    register_at-Stuck R c j call (over r) i s h e = s

    send_at-Stuck :
        (c : Client S) (j : ℕ) (o : Option String) (call : Call S) (t : Stage S)
        → Stuck c
        → get_elem? c.calls j ≡ some call
        → call.stage ≡ t
        → Stuck (send_at S c j o t)
    send_at-Stuck c j o call sending s h e =
        untouched c j (set_stage S (after_send S o)) c.pending s
          (apart c j call s h (λ (a, b). ground (arith, e, a)))
    send_at-Stuck c j o call numbered s h e = s
    send_at-Stuck c j o call waiting s h e = s
    send_at-Stuck c j o call cancelled s h e = s
    send_at-Stuck c j o call (over r) s h e = s

    dropped-Stuck :
        (c : Client S) (j : ℕ)
        → Stuck c
        → Stuck (record c { calls = update c.calls j (set_stage S cancelled) })
    dropped-Stuck c j s = elim (Bool-cases (k == j)) [
      | inr n ↦
          untouched c j (set_stage S cancelled) c.pending s (λ e. absurd (ground (arith, n, e)))
      | inl y ↦
          let (x, a, b) = s.idle in
          record {
            deaf = s.deaf;
            idle = (
              set_stage S cancelled x,
              subst
                  (λ m.
                    get_elem? (update c.calls m (set_stage S cancelled)) k
                    ≡ some (set_stage S cancelled x))
                  (ground (arith, y)) (get-update c.calls k (set_stage S cancelled) a),
              (inr refl, b.1),
            );
          }
    ]

    cancel_at-Stuck : (c : Client S) (j : ℕ) (t : Stage S) → Stuck c → Stuck (cancel_at S c j t)
    cancel_at-Stuck c j sending s = dropped-Stuck c j s
    cancel_at-Stuck c j waiting s = dropped-Stuck c j s
    cancel_at-Stuck c j numbered s = s
    cancel_at-Stuck c j cancelled s = s
    cancel_at-Stuck c j (over r) s = s

    resolve_from-Stuck :
        (c : Client S) (j : ℕ) (call : Call S) (o : Slot S)
        → Stuck c
        → get_elem? c.calls j ≡ some call
        → call.slot ≡ o
        → Stuck (resolve_from S c j call o)
    resolve_from-Stuck c j call open_slot s h e = s
    resolve_from-Stuck c j call lost s h e =
        untouched c j (set_stage S (over (err closed))) c.pending s
          (apart c j call s h (λ (a, b). absurd (ground (arith, e, b))))
    resolve_from-Stuck c j call (sent v) s h e =
        untouched c j (set_stage S (over (answer S call.method v))) (remove c.pending call.id) s
          (apart c j call s h (λ (a, b). absurd (ground (arith, e, b))))

    resolve_at-Stuck :
        (c : Client S) (j : ℕ) (call : Call S) (t : Stage S)
        → Stuck c
        → get_elem? c.calls j ≡ some call
        → Stuck (resolve_at S c j call t)
    resolve_at-Stuck c j call waiting s h = resolve_from-Stuck c j call call.slot s h refl
    resolve_at-Stuck c j call numbered s h = s
    resolve_at-Stuck c j call sending s h = s
    resolve_at-Stuck c j call cancelled s h = s
    resolve_at-Stuck c j call (over r) s h = s

    step-Stuck :
        (R : Value Number → Type 0) (a : Action S) (c : Client S)
        → Inv S R c
        → Stuck c
        → Stuck (step S a c)
    unfolding step
    step-Stuck R (begin m) c i s =
        let (x, a, b) = s.idle in record { deaf = s.deaf; idle = (x, get-append c.calls _ k a, b) }
    step-Stuck R (register j) c i s =
        at_call S Stuck c j _ s (λ call e. register_at-Stuck R c j call call.stage i s e refl)
    step-Stuck R (send j o) c i s =
        at_call S Stuck c j _ s (λ call e. send_at-Stuck c j o call call.stage s e refl)
    step-Stuck R (receive text) c i s =
        subst (λ b. Stuck (if b then dispatch_decoded S (decode_incoming S text) c else c))
          (sym s.deaf) s
    step-Stuck R stop c i s = record { deaf = refl; idle = s.idle }
    step-Stuck R (resolve j) c i s =
        at_call S Stuck c j _ s (λ call e. resolve_at-Stuck c j call call.stage s e)
    step-Stuck R (cancel j) c i s =
        at_call S Stuck c j _ s (λ call e. cancel_at-Stuck c j call.stage s)

    run-Stuck :
        (R : Value Number → Type 0) (acts : List (Action S)) (c : Client S)
        → Frames S R acts
        → Inv S R c
        → length c.calls + length acts + 1 < u64_range
        → Stuck c
        → Stuck (run S acts c)
    unfolding run
    run-Stuck R [] c fr i b s = s
    run-Stuck R (a ∷ rest) c fr i b s =
        run-Stuck R rest (step S a c) (λ text v h. fr text v (ground (arith, h)))
          (step-Inv S R a rest c fr i (omega (arith, b))) (omega (arith, b, step-Grows S a c))
          (step-Stuck R a c i s)

  abbrev Any : Value Number → Type 0
  Any v = true ≡ true

  -- When the reader has stopped, a call that waits with nothing in its channel is never answered
  -- and gets no error: whatever is done afterwards, it waits or its future was dropped. (For runs of
  -- fewer than 2^64 - 1 actions in all.)
  pub run_stopped :
      (acts later : List (Action S)) (k : ℕ) {call : Call S}
      → length acts + length later + 1 < u64_range
      → (run S acts (connected S)).reading ≡ false
      → get_elem? (run S acts (connected S)).calls k ≡ some call
      → call.stage ≡ waiting
      → call.slot ≡ open_slot
      → (x : Call S) × (get_elem? (run S later (run S acts (connected S))).calls k ≡ some x)
        × ((x.stage ≡ waiting) ⊎ (x.stage ≡ cancelled))
  run_stopped acts later k {call} b rd h w o =
      let c = run S acts (connected S) in
      let s =
        run-Stuck k Any later c (λ text v a e. refl)
          (run-Inv S Any acts (connected S) (λ text v a e. refl) (connected-Inv S Any)
            (omega (arith, b)))
          (omega (arith, b, length-run S acts (connected S)))
          (record { deaf = rd; idle = (call, h, (inl w, o)) }) in
      let (x, a, b) = s.idle in (x, a, b.0)
