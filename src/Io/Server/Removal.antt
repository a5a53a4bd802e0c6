-- ===== src/Io/Server/Removal.antt =====
-- TCPServer: a connection that comes and goes, and one that is removed twice.
use hulatang_io.Base.{
  ℕ, ◌≡◌, ◌≢◌, refl, sym, ap, ◌∙◌, List, [], ◌∷◌, Bool, true, false, ◌==◌, eq→==, ne→==, Option,
  none, some, ok, aborted, Succeeds, ◌>>=◌, Bool-cases, Option-cases, >>=-inverse, ok-injective,
  inl, inr,
}
use hulatang_io.Buffer.{Buffer}
use hulatang_io.Io.FdTable.{channel_at}
use hulatang_io.Io.Channel.{Channel, Op, Event, ctl_mod, ctl_del}
use hulatang_io.Io.Connection
use hulatang_io.Io.Connection.{Connection, connect_established, connect_destroyed}
use hulatang_io.Io.Connection.Life.{Registered, connect_established-connect_destroyed}
use hulatang_io.Io.Server.{
  Server, find_connection, emplace, erase, new_connection, remove_connection,
}

find_connection-erase :
    (key : ℕ) (cs : List (ℕ × Connection)) → find_connection key (erase key cs) ≡ none
unfolding find_connection erase
find_connection-erase key [] = refl
find_connection-erase key ((k, conn) ∷ cs) = elim (Bool-cases (k == key)) [
  | inl same ↦ rw same (find_connection-erase key cs)
  | inr other ↦ rw other (rw other (find_connection-erase key cs))
]

erase-absent :
    (key : ℕ) (cs : List (ℕ × Connection)) → find_connection key cs ≡ none → erase key cs ≡ cs
unfolding find_connection erase
erase-absent key [] e = refl
erase-absent key ((k, conn) ∷ cs) e = elim (Bool-cases (k == key)) [
  | inl same ↦ let found : some conn ≡ none = sym (rw same refl) ∙ e in absurd cc
  | inr other ↦ rw other (ap (λ r. (k, conn) ∷ r) (erase-absent key cs (sym (rw other refl) ∙ e)))
]

find_connection_self :
    (key : ℕ) (conn : Connection) (cs : List (ℕ × Connection))
    → find_connection key ((key, conn) ∷ cs) ≡ some conn
unfolding find_connection
find_connection_self key conn cs = rw (eq→== key key refl) refl

emplace-absent :
    (key : ℕ) (conn : Connection) (cs : List (ℕ × Connection))
    → find_connection key cs ≡ none
    → emplace key conn cs ≡ (key, conn) ∷ cs
unfolding emplace
emplace-absent key conn cs e = rw (e, emplace) refl

erase_self :
    (key : ℕ) (conn : Connection) (cs : List (ℕ × Connection))
    → find_connection key cs ≡ none
    → erase key ((key, conn) ∷ cs) ≡ cs
unfolding erase
erase_self key conn cs e = rw (eq→== key key refl) (erase-absent key cs e)

module _ (K : Type 0) (ctl : Op → Event → K → Option K) where
  -- A connection is removed once: where its removal succeeds, a second one fails the assertion.
  pub remove_connection-twice :
      (key : ℕ) (s s' : Server K)
      → remove_connection K ctl key s ≡ ok s'
      → remove_connection K ctl key s' ≡ aborted
  unfolding remove_connection
  remove_connection-twice key s s' e = elim (Option-cases (find_connection key s.connections)) [
    | inl absent ↦
        let failed : aborted ≡ ok s' = sym (rw (absent, remove_connection) refl) ∙ e in absurd cc
    | inr there ↦
        let removed =
          >>=-inverse (connect_destroyed K ctl there.0 s.poller)
            (λ r. ok (record { connections = erase key s.connections; poller = r.1 })) s'
            (sym (rw (there.1, remove_connection) refl) ∙ e) in
        let same =
          ok-injective (record { connections = erase key s.connections; poller = removed.0.1 }) s'
            removed.2 in
        let gone : find_connection key s'.connections ≡ none =
          ap (λ t. find_connection key t.connections) (sym same)
          ∙ find_connection-erase key s.connections in
        rw (gone, remove_connection) refl
  ]

module _ (K : Type 0) (ctl : Op → Event → K → Option K) (registered : K → ℕ → Bool)
    (ctl_mod-registered : (e : Event) (k : K)
      → registered k e.fd ≡ true
      → (k' : K) × (ctl ctl_mod e k ≡ some k') × (registered k' e.fd ≡ true))
    (ctl_del-registered : (e : Event) (k : K)
      → registered k e.fd ≡ true
      → (k' : K) × (ctl ctl_del e k ≡ some k') × (registered k' e.fd ≡ false)) where
  -- Let the kernel change and delete the registrations that it has. A connection with a new key
  -- that comes over a registered channel, whose descriptor is not 0, and is then removed leaves
  -- the connections of the server as they were, and its descriptor is given up in the table and in
  -- the kernel.
  pub new_connection-remove_connection :
      (key : ℕ) (channel : Channel) (send_buffer recv_buffer : Buffer) (s : Server K)
      → channel.fd ≢ 0
      → find_connection key s.connections ≡ none
      → Registered K ctl registered ctl_mod-registered ctl_del-registered channel s.poller
      → Succeeds
          (new_connection K ctl key channel send_buffer recv_buffer s
            >>= remove_connection K ctl key)
          λ s'.
            (s'.connections ≡ s.connections)
            × (channel_at s'.poller.table channel.fd ≡ none)
            × (registered s'.poller.kernel channel.fd ≡ false)
  unfolding new_connection
  new_connection-remove_connection key channel send_buffer recv_buffer s nonzero absent h =
      let conn = Connection.new_connection channel send_buffer recv_buffer in
      let life =
        connect_established-connect_destroyed K ctl registered ctl_mod-registered ctl_del-registered
          conn s.poller refl h in
      let parts =
        >>=-inverse (connect_established K ctl conn s.poller) (λ r. connect_destroyed K ctl r.0 r.1)
          life.0 life.1 in
      let put = emplace-absent key parts.0.0 s.connections absent in
      let taken = erase_self key parts.0.0 s.connections absent in
      let found = find_connection_self key parts.0.0 s.connections in
      let open_fd : (channel.fd == 0) ≡ false = ne→== channel.fd 0 nonzero in
      let removed : remove_connection K ctl key
            (record { connections = (key, parts.0.0) ∷ s.connections; poller = parts.0.1 })
          ≡ ok (record {
            connections = erase key ((key, parts.0.0) ∷ s.connections);
            poller = life.0.1;
          }) =
        unfold remove_connection in rw (found, remove_connection) (rw parts.2 refl) in
      (
        record { connections = erase key ((key, parts.0.0) ∷ s.connections); poller = life.0.1 },
        rw open_fd (rw parts.1 (rw put removed)),
        (taken, life.2.3, life.2.4),
      )
