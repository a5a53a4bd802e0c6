-- ===== src/Io/Server/Examples.antt =====
-- A server with one connection, over the descriptor 1.
use hulatang_io.Base.{
  ℕ, ◌+◌, ◌≡◌, refl, [], ◌∷◌, ◌++◌, false, true, ◌==◌, none, some, ok, aborted, ◌>>=◌, Succeeds,
  arith,
}
use hulatang_io.Io.FdTable.{channel_at}
use hulatang_io.File.{returned, descriptor}
use hulatang_io.Io.Status.{null}
use hulatang_io.Io.Pool.{new_pool, started_loops, somes}
use hulatang_io.Io.Acceptor.{Acceptor, acceptor_listen, accept_each}
use hulatang_io.Io.Acceptor.Rounds.{loops_of, fds_of}
use hulatang_io.Io.Server.Start.{start_server, set_server_threads, start_server-accept_each}
use hulatang_io.File.{listen_socket}
use hulatang_io.Io.Channel.{Channel, Poller, new_channel, enable_reading, update, epoll_ctl}
use hulatang_io.Io.TestKernel.{Known, know, ctl, known, modified, deleted, blank}
use hulatang_io.Io.Connection.{Connection, connected, disconnected}
use hulatang_io.Io.Server.{Server, find_connection, new_connection, remove_connection}
use hulatang_io.Io.Connection
use hulatang_io.Io.Server.Loops
use hulatang_io.Io.Server.Loops.{Loops}
use hulatang_io.Io.Server.Lives.{new_connection-remove_connection_apart}
use hulatang_io.Io.Server.Removal.{new_connection-remove_connection, remove_connection-twice}

abbrev accepted : Channel
accepted = record {
  address = 4096;
  fd = 1;
  reading = false;
  writing = false;
  use_over = false;
  revent = 0;
}

abbrev poller : Poller Known
poller = record { table = none ∷ some 4096 ∷ []; kernel = λ i. i == 1 }

abbrev empty : Server Known
empty = record { connections = []; poller = poller }

new_connection-closed_at_once :
    Succeeds
      (new_connection Known ctl 64 accepted blank blank empty >>= remove_connection Known ctl 64)
      λ s'.
        (s'.connections ≡ [])
        × (channel_at s'.poller.table 1 ≡ none)
        × (known s'.poller.kernel 1 ≡ false)
new_connection-closed_at_once =
    new_connection-remove_connection Known ctl known modified deleted 64 accepted blank blank empty
      (λ e. absurd (omega arith)) (unfold find_connection in refl) (refl, refl)

abbrev one_open : Server Known
one_open = record {
  connections =
      (
        64,
        record {
          channel = record accepted { reading = true };
          state = connected;
          tied = true;
          send_buffer = blank;
          recv_buffer = blank;
          notified = connected ∷ [];
        },
      )
      ∷ [];
  poller = poller;
}

abbrev all_closed : Server Known
all_closed = record {
  connections = [];
  poller = record { table = none ∷ none ∷ []; kernel = know 1 false (λ i. i == 1) };
}

remove_connection-once : remove_connection Known ctl 64 one_open ≡ ok all_closed
unfolding remove_connection find_connection hulatang_io.Io.Connection.connect_destroyed
    hulatang_io.Io.Connection.disconnect hulatang_io.Io.Channel.disable_all
    hulatang_io.Io.Channel.update hulatang_io.Io.Channel.epoll_ctl
    hulatang_io.Io.Channel.channel_cancel hulatang_io.Io.Channel.is_none_event
    hulatang_io.Io.Channel.cancel hulatang_io.Io.FdTable.cancel hulatang_io.Io.Server.erase
remove_connection-once = refl

remove_connection_again : remove_connection Known ctl 64 all_closed ≡ aborted
remove_connection_again =
    remove_connection-twice Known ctl 64 one_open all_closed remove_connection-once

-- the acceptor and the channel of a server on the descriptor 1
abbrev new_listener : Acceptor
new_listener = record {
  pool = record {
    loops = [];
    threads = [];
    base_loop = 100;
    num_threads = 1;
    next = 0;
    status = null;
  };
  idle = some (descriptor 3);
  handed = [];
  shed = [];
  held = 3 ∷ 1 ∷ [];
}

abbrev thread_loop : ℕ → ℕ
thread_loop i = 100 + i

abbrev no_channels : Poller Known
no_channels = record { table = none ∷ none ∷ []; kernel = λ fd. false }

start_server-accept_each_example :
    Succeeds
      (start_server Known ctl thread_loop
          (returned 0)
          (record { impl = some (descriptor 1); held = [] })
          (record accepted { reading = false })
          no_channels
          (set_server_threads 2 new_listener)
        >>= λ s. accept_each (5 ∷ 6 ∷ 7 ∷ []) s.0)
      λ a'.
        (somes (loops_of a'.handed) ≡ some 101 ∷ some 100 ∷ some 101 ∷ [])
        × (fds_of a'.handed ≡ 5 ∷ 6 ∷ 7 ∷ [])
unfolding new_pool started_loops acceptor_listen listen_socket hulatang_io.Io.Channel.add
    hulatang_io.Io.FdTable.add enable_reading update epoll_ctl
start_server-accept_each_example =
    start_server-accept_each Known ctl thread_loop 100 2 (returned 0)
      (record { impl = some (descriptor 1); held = [] }) accepted no_channels
      (
        record accepted { reading = true },
        record { table = none ∷ some 4096 ∷ []; kernel = know 1 true (λ fd. false) },
      )
      new_listener (5 ∷ 6 ∷ 7 ∷ []) (omega arith) refl refl refl

abbrev newcomer : Connection
newcomer = Connection.new_connection accepted blank blank

-- two loops, 0 and 1, over the same kernel, and two other connections
abbrev two_connections : Loops Known
two_connections = record {
  keys = 65 ∷ 66 ∷ [];
  store = λ key. newcomer;
  loop_of = λ key. 0;
  pollers = λ loop. poller;
  queues = λ loop. [];
}

new_connection-remove_connection_apart_example :
    Succeeds
      (Loops.new_connection Known ctl 0 64 1 newcomer two_connections >>= λ s1.
        Loops.run_loop_tasks Known ctl 0 1 s1 >>= λ s2.
        Loops.remove_connection Known ctl 0 1 64 s2 >>= λ s3.
        Loops.run_loop_tasks Known ctl 0 0 s3 >>= λ s4. Loops.run_loop_tasks Known ctl 0 1 s4)
      λ s'.
        (s'.keys ≡ 65 ∷ 66 ∷ [])
        × ((s'.store 64).notified ≡ ([] ++ connected ∷ []) ++ disconnected ∷ [])
        × (channel_at (s'.pollers 1).table 1 ≡ none)
        × (known (s'.pollers 1).kernel 1 ≡ false)
        × (s'.queues 0 ≡ [])
        × (s'.queues 1 ≡ [])
unfolding Loops.has_key
new_connection-remove_connection_apart_example =
    new_connection-remove_connection_apart Known ctl known modified deleted 0 64 1 newcomer
      two_connections (omega arith) refl refl refl (omega arith) refl (refl, refl)
