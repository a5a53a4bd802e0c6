-- ===== src/Io/Connection/Queued.antt =====
-- hulatang/io/TCPConnection.cpp: `send` from any thread, `shutdown` and `forceClose`, which leave tasks in the loop.
use hulatang_io.Base.{
  ℕ, ◌+◌, ◌≤◌, ◌≡◌, refl, List, [], ◌∷◌, ◌++◌, Bool, true, false, Option, some, Text, length, take,
  Outcome, ok, ◌>>=◌, Succeeds,
}
use hulatang_io.Buffer.{max_size}
use hulatang_io.Buffer.Valid.{IsValid, contents}
use hulatang_io.Buffer.Queue.{Holds}
use hulatang_io.Io.Channel.{Poller, Op, Event, ctl_mod, ctl_del}
use hulatang_io.Io.Connection.{Connection, send}
use hulatang_io.Io.Connection.Life.{Registered, send_lem}

-- A task that a connection leaves in its loop: the lambda of `send`, which has the address and the length of the
-- bytes, or a call of the close callback.
pub data Task : Type 0 where
  append_from : (address len : ℕ) → Task
  call_close : Task

-- A connection with the poller and the queue of its loop; `closes` counts the calls of its close callback.
pub record Queued (K : Type 0) : Type 0 where
  pub conn : Connection
  pub poller : Poller K
  pub tasks : List Task
  pub closes : ℕ

-- `shutdown` and `forceClose`
unfoldable pub shutdown : {K : Type 0} → Queued K → Queued K
shutdown q = record q { tasks = q.tasks ++ call_close ∷ [] }

-- `storage` gives the bytes that stand at an address when it is called.
module _ (K : Type 0) (ctl : Op → Event → K → Option K) (junk : ℕ → ℕ) where
  unfoldable pub append_now : (ℕ → Text) → ℕ → ℕ → Queued K → Outcome (Queued K)
  append_now storage address len q = do
    r ← send K ctl junk (storage address) len q.conn q.poller
    ok (record q { conn = r.0; poller = r.1 })

  -- `send`, in the thread of the loop or in another
  unfoldable pub send_anywhere : Bool → (ℕ → Text) → ℕ → ℕ → Queued K → Outcome (Queued K)
  send_anywhere true storage address len q = append_now storage address len q
  send_anywhere false storage address len q =
      ok (record q { tasks = q.tasks ++ append_from address len ∷ [] })

  unfoldable pub run_queued : (ℕ → Text) → Task → Queued K → Outcome (Queued K)
  run_queued storage (append_from address len) q = append_now storage address len q
  run_queued storage call_close q = ok (record q { closes = q.closes + 1 })

  -- The loop takes its tasks and runs them.
  unfoldable pub run_tasks : (ℕ → Text) → List Task → Queued K → Outcome (Queued K)
  run_tasks storage [] q = ok q
  run_tasks storage (t ∷ ts) q = do q' ← run_queued storage t q; run_tasks storage ts q'

  unfoldable pub run_queue : (ℕ → Text) → Queued K → Outcome (Queued K)
  run_queue storage q = run_tasks storage q.tasks (record q { tasks = [] })

module _ (K : Type 0) (ctl : Op → Event → K → Option K) (registered : K → ℕ → Bool)
    (ctl_mod-registered : (e : Event) (k : K)
      → registered k e.fd ≡ true
      → (k' : K) × (ctl ctl_mod e k ≡ some k') × (registered k' e.fd ≡ true))
    (ctl_del-registered : (e : Event) (k : K)
      → registered k e.fd ≡ true
      → (k' : K) × (ctl ctl_del e k ≡ some k') × (registered k' e.fd ≡ false)) where
  -- Let the kernel change and delete the registrations that it has. Bytes that another thread sends, on a registered
  -- connection with a valid buffer with room and no other task: once the loop runs its tasks, what waits to be written
  -- is followed by what stands at the address then, `later`, and not by what stood there in the call, `before`.
  pub send_anywhere-run_queue :
      (junk : ℕ → ℕ) (before later : ℕ → Text) (address len : ℕ) (q : Queued K)
      → q.tasks ≡ []
      → IsValid q.conn.send_buffer
      → len ≤ length (later address)
      → q.conn.send_buffer.writer_index + len ≤ max_size
      → Registered K ctl registered ctl_mod-registered ctl_del-registered q.conn.channel q.poller
      → Succeeds
          (send_anywhere K ctl junk false before address len q >>= λ q'.
            run_queue K ctl junk later q')
          λ q'.
            Holds (contents q.conn.send_buffer ++ take len (later address)) q'.conn.send_buffer
            × (q'.conn.channel.writing ≡ true)
            × (q'.tasks ≡ [])
  unfolding send_anywhere run_queue run_tasks run_queued append_now
  send_anywhere-run_queue junk before later address len q e v enough room h =
      let r =
        send_lem K ctl registered ctl_mod-registered ctl_del-registered junk (later address) len
          q.conn q.poller v enough room h in
      (
        record q { conn = r.0.0; poller = r.0.1; tasks = [] },
        rw (e, r.1) refl,
        (r.2.0, r.2.1, refl),
      )
