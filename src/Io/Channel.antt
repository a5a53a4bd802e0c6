-- ===== src/Io/Channel.antt =====
-- hulatang/io/Channel.hpp, Channel.cpp and async/EPollFdEventManager.cpp: a channel, its interest in
-- events, and its registration in the table and with the kernel. `epoll_ctl` is a parameter.
use hulatang_io.Base.{
  ℕ, List, [], ◌∷◌, Bool, true, false, not, ◌||◌, ◌==◌, leb, if◌then◌else◌, Option, none, some,
  length, Outcome, ok, aborted, assert, ◌>>=◌, ◌>>◌, ◌*◌,
}
use hulatang_io.Io.FdTable
use hulatang_io.Io.FdTable.{Table}

-- The bits of `flags` are the fields `reading`, `writing` and `use_over`.
pub record Channel : Type 0 where
  pub address : ℕ
  pub fd : ℕ
  pub reading : Bool
  pub writing : Bool
  pub use_over : Bool
  pub revent : ℕ

-- the constructor
unfoldable pub new_channel : ℕ → ℕ → Channel
new_channel address fd = record {
  address = address;
  fd = fd;
  reading = false;
  writing = false;
  use_over = false;
  revent = 0;
}

-- `enableOver` and `setREvent`, which tell nobody
unfoldable pub enable_over : Channel → Channel
enable_over c = record c { use_over = true }

unfoldable pub set_revent : ℕ → Channel → Channel
set_revent revent c = record c { revent = revent }

unfoldable pub is_none_event : Channel → Bool
is_none_event c = not (c.reading || c.writing || c.use_over)

pub data Op : Type 0 where
  ctl_add ctl_mod ctl_del : Op

-- What `epoll_ctl` is given: the descriptor, whether EPOLLIN and EPOLLPRI, and whether EPOLLOUT are
-- wanted, and the channel.
pub record Event : Type 0 where
  pub fd : ℕ
  pub wants_in : Bool
  pub wants_out : Bool
  pub channel : ℕ

pub record Poller (K : Type 0) : Type 0 where
  pub table : Table
  pub kernel : K

-- An event that `epoll_wait` answers.
pub record Ready : Type 0 where
  pub bits : ℕ
  pub channel : ℕ

-- `processEvent`: the channels that are handled, each with its `revent`. A null channel is 0.
unfoldable pub process_event : List Ready → Outcome (List Ready)
process_event [] = ok []
process_event (e ∷ es) =
    let rest = process_event es in
    if e.bits == 0
    then rest
    else (assert (not (e.channel == 0)) >>= λ _. rest >>= λ hs. ok (e ∷ hs))

-- What `epoll_wait` answers: events, or an error, which is logged.
pub data Waited : Type 0 where
  ready : List Ready → Waited
  wait_failed : Waited

-- `process`, `size` being the size of `events`, which is the most that `epoll_wait` answers.
unfoldable pub process : ℕ → Waited → Outcome (List Ready × ℕ)
process size (ready []) = ok ([], size)
process size (ready (e ∷ es)) = do
  assert (leb (length (e ∷ es)) size)
  handled ← process_event (e ∷ es)
  ok (handled, (if length (e ∷ es) == size then size * 2 else size))
process size wait_failed = ok ([], size)

module _ (K : Type 0) (ctl : Op → Event → K → Option K) where
  unfoldable pub epoll_ctl : Op → Channel → K → Outcome K
  epoll_ctl op c k =
      elim (ctl op
        (record { fd = c.fd; wants_in = c.reading; wants_out = c.writing; channel = c.address })
        k) [ none ↦ aborted | some k' ↦ ok k' ]

  unfoldable pub add : Channel → Poller K → Outcome (Poller K)
  add c p = do
    t ← FdTable.add c.fd c.address p.table
    k ← epoll_ctl ctl_add c p.kernel
    ok (record { table = t; kernel = k })

  unfoldable pub update : Channel → Poller K → Outcome (Poller K)
  update c p = do k ← epoll_ctl ctl_mod c p.kernel; ok (record p { kernel = k })

  unfoldable pub cancel : Channel → Poller K → Outcome (Poller K)
  cancel c p = do
    k ← epoll_ctl ctl_del c p.kernel
    t ← FdTable.cancel c.fd p.table
    ok (record { table = t; kernel = k })

  -- `update(old)` of a channel whose flags have changed
  abbrev updated : Channel → Poller K → Outcome (Channel × Poller K)
  updated c p = do p' ← update c p; ok (c, p')

  unfoldable pub enable_reading : Channel → Poller K → Outcome (Channel × Poller K)
  enable_reading c p = updated (record c { reading = true }) p

  unfoldable pub disable_reading : Channel → Poller K → Outcome (Channel × Poller K)
  disable_reading c p = updated (record c { reading = false }) p

  unfoldable pub enable_writing : Channel → Poller K → Outcome (Channel × Poller K)
  enable_writing c p = updated (record c { writing = true }) p

  unfoldable pub disable_writing : Channel → Poller K → Outcome (Channel × Poller K)
  disable_writing c p = updated (record c { writing = false }) p

  unfoldable pub disable_all : Channel → Poller K → Outcome (Channel × Poller K)
  disable_all c p = updated (record c { reading = false; writing = false; use_over = false }) p

  -- `Channel::cancel`
  unfoldable pub channel_cancel : Channel → Poller K → Outcome (Poller K)
  channel_cancel c p = do assert (is_none_event c); cancel c p
