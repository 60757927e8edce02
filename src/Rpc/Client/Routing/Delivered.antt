-- ===== src/Rpc/Client/Routing/Delivered.antt =====
-- Frames reach the calls that have their ids, whatever the order of the actions.
use sniff_css.Prelude.{
  and_left, ℕ, zero, suc, ◌+◌, ◌≡◌, refl, ap, ◌∙◌, subst, sym, inl, inr, Bool, true, false, ◌&&◌,
  Option, none, some, arith, if◌then◌else◌, get_elem?, Option-cases,
}
use mathlib.Core.Option.{some-injective}
use sniff_css.Json.{Value, Serde}
use sniff_css.Rpc.Frames.{RpcResult, id_of}
use sniff_css.Rpc.Client.Table.{PendingMap, lookup, remove, lookup-remove}
use sniff_css.Rpc.Client.{
  Slot, sent, Stage, numbered, sending, waiting, cancelled, over, Call, Client, lose, deliver,
  send_to, route,
}
use sniff_css.Rpc.Client.Routing.{is_registered, is_finished, is_open, Told, Good, Inv, change}

module _ (S : Serde) (R : Value S.Number → Type 0) where
  open S use {Number}

  if_some : (b : Bool) (j k : ℕ) → (if b then some j else none) ≡ some k → (j ≡ k) × (b ≡ true)
  if_some true j k h = (some-injective _ _ h, refl)
  if_some false j k h = absurd (ground (arith, h))

  -- the entry of an id is that of the call with the id, which waits for it
  pub routed_to :
      (c : Client S) (id k : ℕ)
      → Inv S R c
      → lookup c.pending id ≡ some k
      → (call : Call S) × (get_elem? c.calls k ≡ some call)
        × (id ≡ k + 1)
        × ((is_registered S call.stage && is_open S call.slot) ≡ true)
  routed_to c zero k i h = absurd (ground (arith, i.no_zero, h))
  routed_to c (suc j) k i h = elim (Option-cases (get_elem? c.calls j)) [
    | inl n ↦ absurd (ground (arith, i.beyond j n, h))
    | inr (call, a) ↦
        let (e, b) =
          if_some _ j k
            (sym (i.each j call a).routed ∙ (ap (lookup c.pending) (omega arith) ∙ h)) in
        (call, sym (ap (get_elem? c.calls) e) ∙ a, omega (arith, e), b)
  ]

  value_in : Slot S → Option (Value Number)
  value_in (sent v) = some v
  value_in s = none

  sent_injective : (a b : Value Number) → ◌≡◌ {A = Slot S} (sent a) (sent b) → a ≡ b
  unfolding value_in
  sent_injective a b h = some-injective _ _ (ap value_in h)

  sent-Good :
      (p : PendingMap) (k : ℕ) (v : Value Number) (call : Call S)
      → R v
      → id_of S v ≡ some (k + 1)
      → lookup p (k + 1) ≡ none
      → call.id ≡ k + 1
      → is_registered S call.stage ≡ true
      → ((r : RpcResult (Value Number)) → call.stage ≡ over r → Told S R (k + 1) call.method r)
      → Good S R p k (record call { slot = sent v })
  sent-Good p k v call rv iv pn ip f o = record {
    id_place = ip;
    routed = pn ∙ ground arith;
    fresh = λ e. absurd (ground (arith, f, e));
    own = λ w e. subst (λ x. R x × (id_of S x ≡ some (k + 1))) (sent_injective v w e) (rv, iv);
    lost_late = λ e. absurd (ground (arith, e));
    told = o;
  }

  lost-Good :
      (p : PendingMap) (k : ℕ) (call : Call S)
      → lookup p (k + 1) ≡ none
      → call.id ≡ k + 1
      → is_finished S call.stage ≡ true
      → ((r : RpcResult (Value Number)) → call.stage ≡ over r → Told S R (k + 1) call.method r)
      → Good S R p k (lose S call)
  lost-Good p k call pn ip f o = record {
    id_place = ip;
    routed = pn ∙ ground arith;
    fresh = λ e. absurd (ground (arith, f, e));
    own = λ w e. absurd (ground (arith, e));
    lost_late = λ e. f;
    told = o;
  }

  send_to-Good :
      (p : PendingMap) (k : ℕ) (v : Value Number) (call : Call S) (t : Stage S)
      → R v
      → id_of S v ≡ some (k + 1)
      → lookup p (k + 1) ≡ none
      → call.id ≡ k + 1
      → is_registered S t ≡ true
      → call.stage ≡ t
      → ((r : RpcResult (Value Number)) → call.stage ≡ over r → Told S R (k + 1) call.method r)
      → Good S R p k (send_to S v t call)
  send_to-Good p k v call numbered rv iv pn ip f e o = absurd (ground (arith, f))
  send_to-Good p k v call sending rv iv pn ip f e o = sent-Good p k v call rv iv pn ip (rw e refl) o
  send_to-Good p k v call waiting rv iv pn ip f e o = sent-Good p k v call rv iv pn ip (rw e refl) o
  send_to-Good p k v call cancelled rv iv pn ip f e o = lost-Good p k call pn ip (rw e refl) o
  send_to-Good p k v call (over r) rv iv pn ip f e o = lost-Good p k call pn ip (rw e refl) o

  pub route-Inv :
      (c : Client S) (id : ℕ) (v : Value Number) (o : Option ℕ)
      → Inv S R c
      → R v
      → id_of S v ≡ some id
      → lookup c.pending id ≡ o
      → Inv S R (route S c id v o)
  route-Inv c id v none i rv iv h = i
  route-Inv c id v (some k) i rv iv h =
      let (call, a, e, b) = routed_to c id k i h in
      let g = i.each k call a in
      change S R c k call (deliver S v) (remove c.pending id) i a
        (λ j n. lookup-remove c.pending id j ∙ ground (arith, e, n))
        (send_to-Good _ k v call call.stage rv (iv ∙ ap some e)
          (lookup-remove c.pending id (k + 1) ∙ ground (arith, e)) g.id_place (and_left _ _ b) refl
          g.told)
