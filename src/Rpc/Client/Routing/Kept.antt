-- ===== src/Rpc/Client/Routing/Kept.antt =====
-- Every action keeps the routing.
use sniff_css.Prelude.{
  ℕ, ◌+◌, ◌<◌, String, ◌≡◌, refl, ap, ◌∙◌, sym, inl, inr, true, Option, none, some, [], ◌∷◌, arith,
  get_elem?, length, length-append,
}
use mathlib.Core.Option.{some-injective}
use sniff_css.Json.{Value, Serde}
use sniff_css.Rpc.Frames.{transport, RpcResult, err, answer}
use sniff_css.Rpc.Client.Table.{
  insert, remove, update, lookup-remove, lookup-insert, append_all, get-append_missing, get_length,
}
use sniff_css.Rpc.Client.{
  u64_range, Slot, open_slot, lost, sent, Stage, numbered, sending, waiting, cancelled, over, Call,
  Client, connected, set_stage, start, register_at, send_at, resolve_from, resolve_at, cancel_at,
}
use sniff_css.Rpc.Client.Routing.{is_registered, is_finished, Told, Good, Inv, change}

module _ (S : Serde) (R : Value S.Number → Type 0) where
  open S use {Number}

  pub connected-Inv : Inv S R (connected S)
  connected-Inv = record {
    next = refl;
    no_zero = refl;
    beyond = λ j h. refl;
    each = λ j x h. absurd (ground (arith, h));
  }

  pub start-Inv :
      (method : String) (c : Client S)
      → Inv S R c
      → length c.calls + 2 < u64_range
      → Inv S R (start S method c)
  start-Inv method c i b = record {
    next = ground (
      arith,
      i.next,
      length-append c.calls
          (record { id = c.next_id; method = method; stage = numbered; slot = open_slot } ∷ []),
    );
    no_zero = i.no_zero;
    beyond = λ j h. i.beyond j (get-append_missing c.calls _ j h).0;
    each = append_all (Good S R c.pending) c.calls _ i.each (record {
      id_place = i.next;
      routed = i.beyond (length c.calls) (get_length c.calls);
      fresh = λ e. refl;
      own = λ v e. absurd (ground (arith, e));
      lost_late = λ e. absurd (ground (arith, e));
      told = λ r e. absurd (ground (arith, e));
    });
  }

  pub register_at-Inv :
      (c : Client S) (k : ℕ) (call : Call S) (t : Stage S)
      → Inv S R c
      → get_elem? c.calls k ≡ some call
      → call.stage ≡ t
      → Inv S R (register_at S c k call t)
  register_at-Inv c k call numbered i h e =
      let g = i.each k call h in
      rw (g.id_place, g.routed, e)
        (change S R c k call (set_stage S sending) (insert c.pending (k + 1) k) i h
          (λ j n. lookup-insert c.pending (k + 1) k j ∙ ground (arith, n))
          (record {
            id_place = g.id_place;
            routed = lookup-insert c.pending (k + 1) k (k + 1) ∙ ground (arith, g.fresh e);
            fresh = λ z. absurd (ground (arith, z));
            own = g.own;
            lost_late = λ z. absurd (ground (arith, g.fresh e, z));
            told = λ r z. absurd (ground (arith, z));
          }))
  register_at-Inv c k call sending i h e = i
  register_at-Inv c k call waiting i h e = i
  register_at-Inv c k call cancelled i h e = i
  register_at-Inv c k call (over r) i h e = i

  -- a call that is registered moves on, its channel as it was
  staged :
      (c : Client S) (k : ℕ) (call : Call S) (t : Stage S)
      → Inv S R c
      → get_elem? c.calls k ≡ some call
      → is_registered S call.stage ≡ true
      → is_registered S t ≡ true
      → (call.slot ≡ lost → is_finished S t ≡ true)
      → ((r : RpcResult (Value Number)) → t ≡ over r → Told S R (k + 1) call.method r)
      → Inv S R (record c { calls = update c.calls k (set_stage S t) })
  staged c k call t i h e f l o =
      let g = i.each k call h in
      change S R c k call (set_stage S t) c.pending i h (λ j n. refl)
        (record {
          id_place = g.id_place;
          routed = g.routed ∙ ground (arith, e, f);
          fresh = λ z. absurd (ground (arith, f, z));
          own = g.own;
          lost_late = l;
          told = o;
        })

  result_in : Stage S → Option (RpcResult (Value Number))
  result_in (over r) = some r
  result_in t = none

  over_injective : (a b : RpcResult (Value Number)) → ◌≡◌ {A = Stage S} (over a) (over b) → a ≡ b
  unfolding result_in
  over_injective a b h = some-injective _ _ (ap result_in h)

  pub send_at-Inv :
      (c : Client S) (k : ℕ) (call : Call S) (o : Option String) (t : Stage S)
      → Inv S R c
      → get_elem? c.calls k ≡ some call
      → call.stage ≡ t
      → Inv S R (send_at S c k o t)
  send_at-Inv c k call none sending i h e =
      staged c k call waiting i h (rw e refl) refl
        (λ z. absurd (ground (arith, (i.each k call h).lost_late z, e)))
        (λ r z. absurd (ground (arith, z)))
  send_at-Inv c k call (some m) sending i h e =
      staged c k call (over (err (transport m))) i h (rw e refl) refl (λ z. refl)
        (λ r z. inl (m, sym (over_injective _ _ z)))
  send_at-Inv c k call o numbered i h e = i
  send_at-Inv c k call o waiting i h e = i
  send_at-Inv c k call o cancelled i h e = i
  send_at-Inv c k call o (over r) i h e = i

  pub cancel_at-Inv :
      (c : Client S) (k : ℕ) (call : Call S) (t : Stage S)
      → Inv S R c
      → get_elem? c.calls k ≡ some call
      → call.stage ≡ t
      → Inv S R (cancel_at S c k t)
  cancel_at-Inv c k call sending i h e =
      staged c k call cancelled i h (rw e refl) refl (λ z. refl) (λ r z. absurd (ground (arith, z)))
  cancel_at-Inv c k call waiting i h e =
      staged c k call cancelled i h (rw e refl) refl (λ z. refl) (λ r z. absurd (ground (arith, z)))
  cancel_at-Inv c k call numbered i h e = i
  cancel_at-Inv c k call cancelled i h e = i
  cancel_at-Inv c k call (over r) i h e = i

  resolve_from-Inv :
      (c : Client S) (k : ℕ) (call : Call S) (s : Slot S)
      → Inv S R c
      → get_elem? c.calls k ≡ some call
      → call.stage ≡ waiting
      → call.slot ≡ s
      → Inv S R (resolve_from S c k call s)
  resolve_from-Inv c k call open_slot i h e f = i
  resolve_from-Inv c k call lost i h e f = absurd (ground (arith, (i.each k call h).lost_late f, e))
  resolve_from-Inv c k call (sent v) i h e f =
      let g = i.each k call h in
      change S R c k call (set_stage S (over (answer S call.method v))) (remove c.pending call.id) i
        h (λ j n. lookup-remove c.pending call.id j ∙ ground (arith, n, g.id_place))
        (record {
          id_place = g.id_place;
          routed = lookup-remove c.pending call.id (k + 1) ∙ ground (arith, f, g.id_place);
          fresh = λ z. absurd (ground (arith, z));
          own = g.own;
          lost_late = λ z. refl;
          told = λ r z. inr (v, (g.own v f).0, (g.own v f).1, sym (over_injective _ _ z));
        })

  pub resolve_at-Inv :
      (c : Client S) (k : ℕ) (call : Call S) (t : Stage S)
      → Inv S R c
      → get_elem? c.calls k ≡ some call
      → call.stage ≡ t
      → Inv S R (resolve_at S c k call t)
  resolve_at-Inv c k call waiting i h e = resolve_from-Inv c k call call.slot i h e refl
  resolve_at-Inv c k call numbered i h e = i
  resolve_at-Inv c k call sending i h e = i
  resolve_at-Inv c k call cancelled i h e = i
  resolve_at-Inv c k call (over r) i h e = i
