-- ===== src/Reactor.antt =====
-- What a channel asks of the operating system and of mio beside sending: sockets, their copies,
-- polls and wakers. A mio socket is the standard socket that it is made from.
use p2p_channel.Base.{ℕ, ◌≡◌, List, Option, ok}
use p2p_channel.Base.Int.{ℤ}
use p2p_channel.Net.{SocketAddr}
use p2p_channel.Os.{Os, WorldOf, Io}

pub record Reactor (O : Os) : Type 1 where
  pub Poll : Type 0
  pub Waker : Type 0
  -- `UdpSocket::bind("0.0.0.0:0")`.
  pub bind_any : Io O O.Socket
  pub set_nonblocking : O.Socket → Io O (Unit {0})
  pub try_clone : O.Socket → Io O O.Socket
  -- `MioUdpSocket::from_std`.
  pub from_std : O.Socket → O.Socket
  pub poll_new : Io O Poll
  pub waker_new : Poll → ℕ → Io O Waker
  pub register : Poll → O.Socket → ℕ → Io O (Unit {0})
  pub deregister : Poll → O.Socket → Io O (Unit {0})
  pub wake : Waker → Io O (Unit {0})
  -- The bytes that it puts into the buffer, and the sender of the datagram.
  pub recv_from : O.Socket → Io O (List ℕ × SocketAddr)
  -- The tokens of the events.
  pub poll : Poll → Option ℕ → Io O (List ℕ)
  -- `chrono::Local::now().timestamp_millis()`.
  pub now_ms : WorldOf O → ℤ

-- What the code relies on of them: `Alias s c` says that `c` is the socket `s` or a copy of it,
-- and a waker does not write the status of the channel.
pub record Laws {O : Os} (R : Reactor O) : Type 1 where
  pub Alias : O.Socket → O.Socket → Type 0
  pub clone_alias :
      (s c : O.Socket) (w w' : WorldOf O) → R.try_clone s w ≡ (ok c, w') → Alias s (R.from_std c)
  pub wake_keeps : (k : R.Waker) (w : WorldOf O) → ((R.wake k w).1).status ≡ w.status
