-- ===== src/Rpc/Client/Routing/Runs.antt =====
-- Runs of the client, whatever the order of the actions.
use sniff_css.Prelude.{
  ◌||◌, str_eq, eq_refl, ℕ, ◌+◌, ◌<◌, String, ◌≡◌, refl, inl, inr, Bool, true, false, Option, none,
  some, List, [], ◌∷◌, arith, if◌then◌else◌, get_elem?, length, Option-cases,
}
use sniff_css.Json.{Value, Serde}
use sniff_css.Model.Load.{at, str_of}
use sniff_css.Rpc.Client.Growth.{step-Grows}
use sniff_css.Rpc.Client.Routing.Kept.{
  start-Inv, register_at-Inv, send_at-Inv, cancel_at-Inv, resolve_at-Inv,
}
use sniff_css.Rpc.Client.Routing.Delivered.{route-Inv}
use sniff_css.Rpc.Frames.{
  event, decode_incoming, decode_value, event_of, decode_parsed, incoming_of, JsonRpcEvent, id_of,
}
use sniff_css.Rpc.Client.Table.{lookup}
use sniff_css.Rpc.Client.{
  u64_range, Call, Client, dispatch, dispatch_decoded, Action, begin, register, send, receive, stop,
  resolve, cancel, on_call, step, run,
}
use sniff_css.Rpc.Client.Routing.{Inv}

module _ (S : Serde) where
  open S use {Number, from_str}

  -- a text is among the frames that the reader gets
  abbrev is_frame : Action S → String → Bool
  is_frame (receive text) s = str_eq text s
  is_frame _ s = false

  abbrev pub is_received : List (Action S) → String → Bool
  is_received [] s = false
  is_received (a ∷ rest) s = is_frame a s || is_received rest s

  pub at_call :
      (P : Client S → Type 0) (c : Client S) (k : ℕ) (f : Call S → Client S)
      → P c
      → ((call : Call S) → get_elem? c.calls k ≡ some call → P (f call))
      → P (on_call S c (get_elem? c.calls k) f)
  at_call P c k f i h = elim (Option-cases (get_elem? c.calls k)) [
    | inl e ↦ rw e i
    | inr (call, e) ↦ rw e (h call e)
  ]

  module _ (R : Value Number → Type 0) where
    told_event : (c : Client S) (e : JsonRpcEvent S) → Inv S R c → Inv S R (dispatch S (event e) c)
    told_event c e i = record {
      next = i.next;
      no_zero = i.no_zero;
      beyond = i.beyond;
      each = i.each;
    }

    stop-Inv : (c : Client S) → Inv S R c → Inv S R (record c { reading = false })
    stop-Inv c i = record { next = i.next; no_zero = i.no_zero; beyond = i.beyond; each = i.each }

    event_of-Inv :
        (c : Client S) (v : Value Number) (o : Option String)
        → Inv S R c
        → Inv S R (dispatch_decoded S (event_of S v o) c)
    event_of-Inv c v none i = i
    event_of-Inv c v (some m) i = told_event c _ i

    incoming_of-Inv :
        (c : Client S) (v : Value Number) (o : Option ℕ)
        → Inv S R c
        → R v
        → id_of S v ≡ o
        → Inv S R (dispatch_decoded S (incoming_of S v o) c)
    incoming_of-Inv c v none i rv h = event_of-Inv c v (str_of S (at S v "method")) i
    incoming_of-Inv c v (some id) i rv h = route-Inv S R c id v (lookup c.pending id) i rv h refl

    decode_parsed-Inv :
        (c : Client S) (o : Option (Value Number))
        → Inv S R c
        → ((v : Value Number) → o ≡ some v → R v)
        → Inv S R (dispatch_decoded S (decode_parsed S o) c)
    unfolding decode_value
    decode_parsed-Inv c none i h = i
    decode_parsed-Inv c (some v) i h = incoming_of-Inv c v (id_of S v) i (h v refl) refl

    either_Inv : (b : Bool) (c d : Client S) → Inv S R c → Inv S R d → Inv S R (if b then c else d)
    either_Inv true c d i j = i
    either_Inv false c d i j = j

    abbrev pub Frames : List (Action S) → Type 0
    Frames acts =
        (text : String) (v : Value Number)
        → is_received acts text ≡ true
        → from_str text ≡ some v
        → R v

    pub step-Inv :
        (a : Action S) (rest : List (Action S)) (c : Client S)
        → Frames (a ∷ rest)
        → Inv S R c
        → length c.calls + 2 < u64_range
        → Inv S R (step S a c)
    unfolding step decode_incoming
    step-Inv (begin method) rest c fr i b = start-Inv S R method c i b
    step-Inv (register k) rest c fr i b =
        at_call (Inv S R) c k _ i (λ call e. register_at-Inv S R c k call call.stage i e refl)
    step-Inv (send k o) rest c fr i b =
        at_call (Inv S R) c k _ i (λ call e. send_at-Inv S R c k call o call.stage i e refl)
    step-Inv (receive text) rest c fr i b =
        either_Inv c.reading _ c
          (decode_parsed-Inv c (from_str text) i (λ v. fr text v (ground (arith, eq_refl text)))) i
    step-Inv stop rest c fr i b = stop-Inv c i
    step-Inv (resolve k) rest c fr i b =
        at_call (Inv S R) c k _ i (λ call e. resolve_at-Inv S R c k call call.stage i e refl)
    step-Inv (cancel k) rest c fr i b =
        at_call (Inv S R) c k _ i (λ call e. cancel_at-Inv S R c k call call.stage i e refl)

    pub run-Inv :
        (acts : List (Action S)) (c : Client S)
        → Frames acts
        → Inv S R c
        → length c.calls + length acts + 1 < u64_range
        → Inv S R (run S acts c)
    unfolding run
    run-Inv [] c fr i b = i
    run-Inv (a ∷ rest) c fr i b =
        run-Inv rest (step S a c) (λ text v h. fr text v (ground (arith, h)))
          (step-Inv a rest c fr i (omega (arith, b))) (omega (arith, b, step-Grows S a c))
