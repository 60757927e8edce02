-- ===== src/Rpc/Client/Routing.antt =====
-- Which response goes to which call, as long as the ids do not wrap around.
pub mod Kept
pub mod Stopped
pub mod Answers
pub mod Runs
pub mod Delivered
use sniff_css.Prelude.{
  ℕ, zero, suc, ◌+◌, ◌<◌, ◌≤◌, ◌%◌, String, ◌≡◌, refl, ap, ◌∙◌, subst, sym, ◌⊎◌, inl, inr, Bool,
  true, false, ◌&&◌, Option, none, some, List, [], ◌∷◌, ◌++◌, ◌==◌, arith, if◌then◌else◌, get_elem?,
  length, Option-cases, Bool-cases, length-append,
}
use mathlib.Core.Option.{some-injective}
use sniff_css.Json.{Value, Serde}
use sniff_css.Rpc.Frames.{
  transport, closed, RpcResult, ok, err, Incoming, response, event, decode_incoming, answer, id_of,
}
use sniff_css.Rpc.Client.Table.{
  PendingMap, lookup, insert, remove, update, lookup-remove, lookup-insert, length-update,
  update_all, get-update_missing, append_all, get-append_missing,
}
use sniff_css.Rpc.Client.{
  u64_range, Slot, open_slot, lost, sent, Stage, numbered, sending, waiting, cancelled, over, Call,
  Client, connected, set_stage, lose, deliver, send_to, start, drop_replaced, register_at, send_at,
  resolve_from, resolve_at, cancel_at, route, dispatch, dispatch_decoded, Action, begin, register,
  send, receive, stop, resolve, cancel, on_call, step, run,
}

module _ (S : Serde) where
  open S use {Number}

  abbrev pub is_registered : Stage S → Bool
  is_registered numbered = false
  is_registered _ = true

  abbrev pub is_finished : Stage S → Bool
  is_finished (over r) = true
  is_finished cancelled = true
  is_finished _ = false

  abbrev pub is_open : Slot S → Bool
  is_open open_slot = true
  is_open _ = false

  -- `R` holds of every frame that was received
  module _ (R : Value Number → Type 0) where
    -- a result that the code may give to the call with an id
    abbrev pub Told : ℕ → String → RpcResult (Value Number) → Type 0
    Told id method r =
        ((e : String) × (r ≡ err (transport e)))
        ⊎ ((v : Value Number) × R v × (id_of S v ≡ some id) × (r ≡ answer S method v))

    pub record Good (p : PendingMap) (k : ℕ) (call : Call S) : Type 0 where
      pub id_place : call.id ≡ k + 1
      pub routed :
          lookup p (k + 1)
          ≡ (if is_registered call.stage && is_open call.slot then some k else none)
      pub fresh : call.stage ≡ numbered → call.slot ≡ open_slot
      pub own : (v : Value Number) → call.slot ≡ sent v → R v × (id_of S v ≡ some (k + 1))
      pub lost_late : call.slot ≡ lost → is_finished call.stage ≡ true
      pub told : (r : RpcResult (Value Number)) → call.stage ≡ over r → Told (k + 1) call.method r

    pub record Inv (c : Client S) : Type 0 where
      pub next : c.next_id ≡ length c.calls + 1
      pub no_zero : lookup c.pending 0 ≡ none
      pub beyond : (j : ℕ) → get_elem? c.calls j ≡ none → lookup c.pending (j + 1) ≡ none
      pub each : (j : ℕ) (x : Call S) → get_elem? c.calls j ≡ some x → Good c.pending j x

    pub elsewhere :
        (p q : PendingMap) (j : ℕ) (x : Call S)
        → lookup q (j + 1) ≡ lookup p (j + 1)
        → Good p j x
        → Good q j x
    elsewhere p q j x e g = record {
      id_place = g.id_place;
      routed = e ∙ g.routed;
      fresh = g.fresh;
      own = g.own;
      lost_late = g.lost_late;
      told = g.told;
    }

    -- one call and its entry in the table change
    pub change :
        (c : Client S) (k : ℕ) (call : Call S) (f : Call S → Call S) (q : PendingMap)
        → Inv c
        → get_elem? c.calls k ≡ some call
        → ((j : ℕ) → (j ≡ k + 1 → ⊥) → lookup q j ≡ lookup c.pending j)
        → Good q k (f call)
        → Inv (record c { pending = q; calls = update c.calls k f })
    change c k call f q i h e g = record {
      next = i.next ∙ ap (λ n. n + 1) (sym (length-update c.calls k f));
      no_zero = e 0 (λ z. omega (arith, z)) ∙ i.no_zero;
      beyond = λ j n.
          e (j + 1) (λ z. absurd (ground (arith, h, get-update_missing c.calls k j f n, z)))
          ∙ i.beyond j (get-update_missing c.calls k j f n);
      each =
          update_all (Good q) c.calls k f
            (λ j x a n.
              elsewhere c.pending q j x (e (j + 1) (λ z. n (omega (arith, z)))) (i.each j x a))
            (λ x a. subst (λ y. Good q k (f y)) (some-injective _ _ (sym h ∙ a)) g);
    }
