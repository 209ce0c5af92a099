-- ===== src/Frontend/Fanout.antt =====
-- Whom a broadcast reaches.
use fleet_telemetry_system.Prelude.{
  ℕ, ◌+◌, Bool, true, not, ◌&&◌, some, List, [], ◌∷◌, ◌≡◌, refl, ◌∙◌, arith, select, count, eqb,
  eqb_iff, count_of_any-false, if◌then◌else◌,
}
use fleet_telemetry_system.Frontend.{
  ConnectionRegistry, Sending, member, Turn, joins, leaves, sends, fails, add, remove, begin,
  send_next, fail_next, turn, turns, finish, broadcast,
}

-- A connection that is registered after the drop has not failed.
pub survivors :
    (ws : ℕ) (dead connections : List ℕ)
    → member ws (select (λ c. not (member c dead)) connections) ≡ true
    → count (eqb ws) dead ≡ 0
survivors ws dead [] h = cc
survivors ws dead (c ∷ connections) h =
    ground (arith, survivors ws dead connections, count_of_any-false (eqb ws) dead, eqb_iff ws c)

module _ {Message : Type 0} (p : Message → Bool) (ws : ℕ) where
  -- How often the connection was sent a message of which `p` holds.
  abbrev pub sent_to : List (ℕ × Message) → ℕ
  sent_to delivered = count (λ d. eqb ws d.0 && p d.1) delivered

  -- The messages sent to it so far, and those that are still to come or have failed.
  abbrev reached : Sending Message → ℕ
  reached s =
      sent_to s.registry.delivered
      + (if p s.message then count (eqb ws) s.pending + count (eqb ws) s.dead else 0)

  sends-reached :
      (l : List ℕ) (s : Sending Message) → s.pending ≡ l → reached (send_next l s) ≡ reached s
  sends-reached [] s h = refl
  sends-reached (c ∷ l) s h = ground (arith, h)

  fails-reached :
      (l : List ℕ) (s : Sending Message) → s.pending ≡ l → reached (fail_next l s) ≡ reached s
  fails-reached [] s h = refl
  fails-reached (c ∷ l) s h = ground (arith, h)

  turn-reached : (t : Turn) (s : Sending Message) → reached (turn t s) ≡ reached s
  unfolding turn add remove
  turn-reached (joins c) s = refl
  turn-reached (leaves c) s = refl
  turn-reached sends s = sends-reached s.pending s refl
  turn-reached fails s = fails-reached s.pending s refl

  turns-reached : (ts : List Turn) (s : Sending Message) → reached (turns ts s) ≡ reached s
  unfolding turns
  turns-reached [] s = refl
  turns-reached (t ∷ ts) s = turns-reached ts (turn t s) ∙ turn-reached t s

  finish-sent_to :
      (l : List ℕ) (s : Sending Message) (r : ConnectionRegistry Message)
      → s.pending ≡ l
      → finish l s ≡ some r
      → member ws r.connections ≡ true
      → sent_to r.delivered ≡ reached s
  finish-sent_to [] s r e h k = ground (arith, e, survivors ws s.dead s.registry.connections)
  finish-sent_to (c ∷ l) s r e h k = cc

  -- When a broadcast has ended, each connection that is registered was sent the message once for each
  -- time that it was registered at the start, and no other message: one that was there at the start
  -- and has stayed has it, and one that joined meanwhile has not, whoever came, left or failed.
  pub broadcast-sent_to :
      (m : Message) (ts : List Turn) (r r' : ConnectionRegistry Message)
      → broadcast m ts r ≡ some r'
      → member ws r'.connections ≡ true
      → sent_to r'.delivered
        ≡ sent_to r.delivered + (if p m then count (eqb ws) r.connections else 0)
  unfolding broadcast
  broadcast-sent_to m ts r r' h k =
      finish-sent_to (turns ts (begin m r)).pending (turns ts (begin m r)) r' refl h k
      ∙ turns-reached ts (begin m r)
      ∙ ground arith
