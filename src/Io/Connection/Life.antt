-- ===== src/Io/Connection/Life.antt =====
-- The life of a TCPConnection, and its registration.
use hulatang_io.Base.{
  ℕ, ◌+◌, ◌≤◌, ◌≡◌, refl, ap, [], ◌∷◌, ◌++◌, Bool, true, false, Option, none, some, ok, Succeeds,
  ◌>>=◌, Text, take, length,
}
use hulatang_io.Buffer.{max_size}
use hulatang_io.Buffer.Valid.{IsValid, contents}
use hulatang_io.Buffer.Queue.{Holds, append_within}
use hulatang_io.Io.FdTable.{channel_at, cancel-add}
use hulatang_io.Io.Channel.{
  Channel, Poller, Op, Event, ctl_mod, ctl_del, epoll_ctl, update, cancel, enable_reading,
  enable_writing, disable_all, channel_cancel, is_none_event,
}
use hulatang_io.Io.Connection.{
  Connection, is_connecting, connecting, connected, disconnected, send, want_writing,
  connect_established, disconnect, connect_destroyed,
}

module _ (K : Type 0) (ctl : Op → Event → K → Option K) (registered : K → ℕ → Bool)
    (ctl_mod-registered : (e : Event) (k : K)
      → registered k e.fd ≡ true
      → (k' : K) × (ctl ctl_mod e k ≡ some k') × (registered k' e.fd ≡ true))
    (ctl_del-registered : (e : Event) (k : K)
      → registered k e.fd ≡ true
      → (k' : K) × (ctl ctl_del e k ≡ some k') × (registered k' e.fd ≡ false)) where
  -- The channel is in the table and known to the kernel.
  abbrev pub Registered : Channel → Poller K → Type 0
  Registered c p = (channel_at p.table c.fd ≡ some c.address) × (registered p.kernel c.fd ≡ true)

  abbrev event_of : Channel → Event
  event_of c = record {
    fd = c.fd;
    wants_in = c.reading;
    wants_out = c.writing;
    channel = c.address;
  }

  -- Only the kernel's interest changes.
  update-Registered :
      (c : Channel) (p : Poller K)
      → Registered c p
      → Succeeds (update K ctl c p) λ p'. (p'.table ≡ p.table) × Registered c p'
  unfolding update
  update-Registered c p h =
      let r = ctl_mod-registered (event_of c) p.kernel h.1 in
      let done' : epoll_ctl K ctl ctl_mod c p.kernel ≡ ok r.0 =
        unfold epoll_ctl in rw (r.1, epoll_ctl) refl in
      (record p { kernel = r.0 }, rw done' refl, (refl, (h.0, r.2)))

  cancel-free :
      (c : Channel) (p : Poller K)
      → Registered c p
      → Succeeds
          (cancel K ctl c p)
          λ p'. (channel_at p'.table c.fd ≡ none) × (registered p'.kernel c.fd ≡ false)
  unfolding cancel
  cancel-free c p h =
      let r = ctl_del-registered (event_of c) p.kernel h.1 in
      let t = cancel-add c.fd c.address c.address p.table h.0 in
      let done' : epoll_ctl K ctl ctl_del c p.kernel ≡ ok r.0 =
        unfold epoll_ctl in rw (r.1, epoll_ctl) refl in
      (record { table = t.0; kernel = r.0 }, rw done' (rw t.1 refl), (t.2.0, r.2))

  -- Let the kernel change and delete the registrations that it has. A new connection whose channel
  -- is registered can be established and then destroyed: the callback is called for both and once
  -- for each, in this order, and the descriptor is given up in the table and in the kernel.
  pub connect_established-connect_destroyed :
      (conn : Connection) (p : Poller K)
      → conn.state ≡ connecting
      → Registered conn.channel p
      → Succeeds (connect_established K ctl conn p >>= λ r. connect_destroyed K ctl r.0 r.1) λ r.
        (r.0.state ≡ disconnected)
        × (r.0.tied ≡ false)
        × (r.0.notified ≡ (conn.notified ++ connected ∷ []) ++ disconnected ∷ [])
        × (channel_at r.1.table conn.channel.fd ≡ none)
        × (registered r.1.kernel conn.channel.fd ≡ false)
  unfolding connect_established connect_destroyed disconnect enable_reading disable_all
      channel_cancel is_none_event
  connect_established-connect_destroyed conn p e h =
      let ready : is_connecting conn.state ≡ true = ap is_connecting e in
      let reads : Channel = record conn.channel { reading = true } in
      let r1 = update-Registered reads p h in
      let quiet : Channel = record conn.channel {
        reading = false;
        writing = false;
        use_over = false;
      } in
      let r2 = update-Registered quiet r1.0 r1.2.1 in
      let r3 = cancel-free quiet r2.0 r2.2.1 in
      (
        (
          record conn {
            state = disconnected;
            tied = false;
            channel = quiet;
            notified = (conn.notified ++ connected ∷ []) ++ disconnected ∷ [];
          },
          r3.0,
        ),
        rw ready (rw r1.1 (rw r2.1 (rw r3.1 refl))),
        (refl, refl, refl, r3.2.0, r3.2.1),
      )

  want_writing-Registered :
      (b : Bool) (c : Channel) (p : Poller K)
      → c.writing ≡ b
      → Registered c p
      → Succeeds (want_writing K ctl b c p) λ r. (r.0.writing ≡ true) × Registered r.0 r.1
  unfolding want_writing enable_writing
  want_writing-Registered true c p e h = ((c, p), refl, (e, h))
  want_writing-Registered false c p e h =
      let r = update-Registered (record c { writing = true }) p h in
      ((record c { writing = true }, r.0), rw r.1 refl, (refl, r.2.1))

  pub send_within :
      (junk : ℕ → ℕ) (data' : Text) (len : ℕ) (conn : Connection) (p : Poller K)
      → IsValid conn.send_buffer
      → len ≤ length data'
      → conn.send_buffer.writer_index + len ≤ max_size
      → Registered conn.channel p
      → Succeeds (send K ctl junk data' len conn p) λ r.
        Holds (contents conn.send_buffer ++ take len data') r.0.send_buffer
        × (r.0.channel.writing ≡ true)
        × Registered r.0.channel r.1
        × (r.0.send_buffer.writer_index ≤ conn.send_buffer.writer_index + len)
  unfolding send
  send_within junk data' len conn p v enough fits h =
      let b = append_within junk data' len v enough fits in
      let w = want_writing-Registered conn.channel.writing conn.channel p refl h in
      (
        (record conn { send_buffer = b.0; channel = w.0.0 }, w.0.1),
        rw b.1 (rw w.1 refl),
        (b.2.0, w.2.0, w.2.1, b.2.1),
      )

  -- Where the send buffer is valid, a vector of the size can exist, and the channel is registered:
  -- what is sent stands behind what waits in the buffer, the channel wants to write, and it stays
  -- registered.
  pub send_lem :
      (junk : ℕ → ℕ) (data' : Text) (len : ℕ) (conn : Connection) (p : Poller K)
      → IsValid conn.send_buffer
      → len ≤ length data'
      → conn.send_buffer.writer_index + len ≤ max_size
      → Registered conn.channel p
      → Succeeds (send K ctl junk data' len conn p) λ r.
        Holds (contents conn.send_buffer ++ take len data') r.0.send_buffer
        × (r.0.channel.writing ≡ true)
        × Registered r.0.channel r.1
  send_lem junk data' len conn p v enough fits h =
      let r = send_within junk data' len conn p v enough fits h in (r.0, r.1, (r.2.0, r.2.1, r.2.2))
