-- ===== src/Frontend/Subscriber/Forwards.antt =====
-- What the subscriber brings to a connection.
use fleet_telemetry_system.Prelude.{
  ap, ◌∙◌, ℕ, true, Option, some, List, [], ◌∷◌, ◌≡◌, refl, arith, Outcome, ok, count, eqb,
  any-eq_true,
}
use fleet_telemetry_system.Prelude.Dict.{Dict}
use fleet_telemetry_system.Text.{Text}
use fleet_telemetry_system.Frontend.{ConnectionRegistry, Turn, member, forwarded, fan_out}
use fleet_telemetry_system.Frontend.Inbox.{inbox, broadcast-inbox}
use fleet_telemetry_system.Frontend.Membership.{HoldsOnce, broadcast-HoldsOnce}
use fleet_telemetry_system.Frontend.Subscriber.{
  Data, Item, message, notice, Ending, text_of, ended, listen,
}

-- Texts put in turn onto a list that has the latest first.
abbrev pub newest_first {ℓ} : {A : Type ℓ} → List A → List A → List A
newest_first [] sent = sent
newest_first (t ∷ texts) sent = newest_first texts (t ∷ sent)

module _ {V : Type 0} (loads : Text → Outcome (Option (Dict V))) (dumps : Dict V → Text) where
  -- The loop over items whose messages are texts, at the end of each broadcast of which the connection
  -- is registered; with the texts that it forwards.
  pub data Stays (ws : ℕ)
      : List (Item × List Turn)
        → ConnectionRegistry Text
        → ConnectionRegistry Text
        → List Text
        → Type 0 where
    at_end : (r : ConnectionRegistry Text) → Stays ws [] r r []
    passes :
        (turns : List Turn) {items : List (Item × List Turn)} {r r' : ConnectionRegistry Text}
        {texts : List Text}
        → Stays ws items r r' texts
        → Stays ws ((notice, turns) ∷ items) r r' texts
    fans_out :
        (content : Data) (turns : List Turn) (t : Text) {items : List (Item × List Turn)}
        (r r₁ : ConnectionRegistry Text) {r' : ConnectionRegistry Text} {texts : List Text}
        → text_of content ≡ ok t
        → fan_out loads dumps t turns r ≡ some r₁
        → member ws r₁.connections ≡ true
        → Stays ws items r₁ r' texts
        → Stays ws ((message content, turns) ∷ items) r r' (forwarded loads dumps t ∷ texts)

  listen-Stays :
      (ws : ℕ) (items : List (Item × List Turn)) (ending : Ending) (r r' : ConnectionRegistry Text)
      (texts : List Text)
      → Stays ws items r r' texts
      → listen loads dumps items ending r ≡ some (ended ending, r')
  unfolding listen
  listen-Stays ws _ ending r _ _ (at_end _) = refl
  listen-Stays ws _ ending r r' texts (passes turns rest) = listen-Stays ws _ ending r r' texts rest
  listen-Stays ws _ ending _ r' _ (fans_out content turns t r r₁ h k m rest) =
      rw (h, k) (listen-Stays ws _ ending r₁ r' _ rest)

  -- A connection that is registered, once as it always is, and that is registered at the end of each
  -- broadcast, is sent the texts that the subscriber forwards, each once, in their order and after all
  -- that it was sent before, and no other, whichever other clients come, leave or fail between the
  -- sends. The loop takes up all items, and ends as `listen()` does.
  pub listen-inbox :
      (ws : ℕ) (items : List (Item × List Turn)) (ending : Ending) (r r' : ConnectionRegistry Text)
      (texts : List Text)
      → HoldsOnce r
      → member ws r.connections ≡ true
      → Stays ws items r r' texts
      → (listen loads dumps items ending r ≡ some (ended ending, r'))
        × (inbox ws r'.delivered ≡ newest_first texts (inbox ws r.delivered))
  unfolding fan_out
  listen-inbox ws _ ending r _ _ once here (at_end _) =
      (listen-Stays ws [] ending r r [] (at_end r), refl)
  listen-inbox ws _ ending r r' texts once here (passes turns rest) =
      let (_, sent) = listen-inbox ws _ ending r r' texts once here rest in
      (listen-Stays ws _ ending r r' texts (passes turns rest), sent)
  listen-inbox ws _ ending _ r' _ once here
        (fans_out content turns t r r₁ {texts = later} h k m rest) =
      let text = forwarded loads dumps t in
      let one : count (eqb ws) r.connections ≡ 1 =
        omega (arith, once ws, any-eq_true (eqb ws) r.connections here) in
      let still = broadcast-HoldsOnce text turns r r₁ once k in
      let (_, sent) = listen-inbox ws _ ending r₁ r' later still m rest in
      (
        listen-Stays ws _ ending r r' _ (fans_out content turns t r r₁ h k m rest),
        sent ∙ ap (newest_first later) (broadcast-inbox ws text turns r r₁ one k m),
      )
