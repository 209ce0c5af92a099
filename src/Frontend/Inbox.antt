-- ===== src/Frontend/Inbox.antt =====
-- What one connection is sent, in order.
use fleet_telemetry_system.Prelude.{
  ℕ, ◌+◌, true, some, List, [], ◌∷◌, ◌≡◌, ◌⊎◌, inl, refl, arith, count, eqb, eqb_iff, if◌then◌else◌,
}
use fleet_telemetry_system.Frontend.{
  ConnectionRegistry, Sending, member, Turn, joins, leaves, sends, fails, add, remove, begin,
  send_next, fail_next, turn, turns, finish, broadcast,
}
use fleet_telemetry_system.Frontend.Fanout.{survivors}

module _ {Message : Type 0} (ws : ℕ) where
  -- The messages sent to the connection, the latest first.
  abbrev pub inbox : List (ℕ × Message) → List Message
  inbox [] = []
  inbox ((c, m) ∷ delivered) =
      let earlier = inbox delivered in if eqb ws c then m ∷ earlier else earlier

  -- A broadcast that has the connection among its targets: it still has to send to it, or it has failed
  -- to; or it has sent to it.
  abbrev Progress : Message → List Message → Sending Message → Type 0
  Progress m before s =
      (s.message ≡ m)
      × (((count (eqb ws) s.pending + count (eqb ws) s.dead ≡ 1)
            × (inbox s.registry.delivered ≡ before))
          ⊎ ((count (eqb ws) s.pending + count (eqb ws) s.dead ≡ 0)
              × (inbox s.registry.delivered ≡ m ∷ before)))

  sends-Progress :
      (m : Message) (before : List Message) (l : List ℕ) (s : Sending Message)
      → s.pending ≡ l
      → Progress m before s
      → Progress m before (send_next l s)
  sends-Progress m before [] s h p = p
  sends-Progress m before (c ∷ l) s h p = ground (arith, h, p, eqb_iff ws c)

  fails-Progress :
      (m : Message) (before : List Message) (l : List ℕ) (s : Sending Message)
      → s.pending ≡ l
      → Progress m before s
      → Progress m before (fail_next l s)
  fails-Progress m before [] s h p = p
  fails-Progress m before (c ∷ l) s h p = ground (arith, h, p)

  turns-Progress :
      (m : Message) (before : List Message) (ts : List Turn) (s : Sending Message)
      → Progress m before s
      → Progress m before (turns ts s)
  unfolding turns turn add remove
  turns-Progress m before [] s p = p
  turns-Progress m before (joins c ∷ ts) s p = turns-Progress m before ts _ p
  turns-Progress m before (leaves c ∷ ts) s p = turns-Progress m before ts _ p
  turns-Progress m before (sends ∷ ts) s p =
      turns-Progress m before ts _ (sends-Progress m before s.pending s refl p)
  turns-Progress m before (fails ∷ ts) s p =
      turns-Progress m before ts _ (fails-Progress m before s.pending s refl p)

  finish-inbox :
      (m : Message) (before : List Message) (l : List ℕ) (s : Sending Message)
      (r : ConnectionRegistry Message)
      → s.pending ≡ l
      → Progress m before s
      → finish l s ≡ some r
      → member ws r.connections ≡ true
      → inbox r.delivered ≡ m ∷ before
  finish-inbox m before [] s r h p e k =
      ground (arith, h, p, e, survivors ws s.dead s.registry.connections)
  finish-inbox m before (c ∷ l) s r h p e k = cc

  -- When a broadcast has ended, a connection that was registered once at its start and is registered then
  -- has been sent the message after all that it was sent before, and nothing else.
  pub broadcast-inbox :
      (m : Message) (ts : List Turn) (r r' : ConnectionRegistry Message)
      → count (eqb ws) r.connections ≡ 1
      → broadcast m ts r ≡ some r'
      → member ws r'.connections ≡ true
      → inbox r'.delivered ≡ m ∷ inbox r.delivered
  unfolding broadcast
  broadcast-inbox m ts r r' one h k =
      let s = turns ts (begin m r) in
      finish-inbox m (inbox r.delivered) s.pending s r' refl
        (turns-Progress m (inbox r.delivered) ts (begin m r) (refl, inl (omega (arith, one), refl)))
        h k
