-- ===== src/Boot.antt =====
-- The making of the parts: `Channel::new` and `Channel::sender` of src/channel/mod.rs, `Punch::new`,
-- `Idle::new`, and `Boot::new` of src/boot/mod.rs, which puts them together.
pub mod Start
pub mod Copies
use p2p_channel.Base.{ℕ, Option, none, some, List, [], ◌∷◌, Result, ok, err, Eq}
use p2p_channel.Base.Int.{ℤ}
use p2p_channel.Route.{Status, default_token_index, change_token_index}
use p2p_channel.RouteTable.{Store, Tables, empty_tables}
use p2p_channel.Os.{Os, WorldOf, Io, ◌>>=◌}
use p2p_channel.Reactor.{Reactor}
use p2p_channel.Sender.{Sender}
use p2p_channel.Ports.{all_ports}
use p2p_channel.Punch.{Punch, NatInfo}
use p2p_channel.Idle.{Idle}
use p2p_channel.Queues.{QueueApi, Queues, boot_queues}
use p2p_channel.Channel.{Channel, Group}

-- `Idle::new`.
abbrev pub new_idle : ℤ → ℤ → Idle
new_idle read_idle write_idle = record { read_idle = read_idle; write_idle = write_idle }

-- `Punch::new`, but for the queues.
unfoldable pub new_punch : {O : Os} {ID : Type 0} → (List ℕ → List ℕ) → Sender O → Punch O ID
new_punch shuffle sender = record {
  sender = sender;
  port_vec = all_ports shuffle;
  port_index = λ id. none;
}

module _ {O : Os} (R : Reactor O) where
  -- A channel with no own sockets, and what its clones will share with it.
  abbrev pub first_channel : ℕ → O.Socket → O.Socket → R.Poll → R.Waker → Channel R × Group R
  first_channel size src default poll waker = (
    record {
      channel_flag = 0;
      src_default_udp = src;
      default_udp = R.from_std default;
      udp_list = [];
      poll = poll;
      size = size;
    },
    record { flag_gen = 1; wakers = (0, waker) ∷ [] },
  )

  -- `Channel::new`. The list of the shared sockets is a new one.
  unfoldable pub new_channel : ℕ → Io O (Channel R × Group R)
  new_channel size = do
    src ← R.bind_any
    done ← R.set_nonblocking src
    default ← R.try_clone src
    new_list ← λ w. (ok tt, record w { share_info = [] })
    poll ← R.poll_new
    waker ← R.waker_new poll change_token_index
    registered ← R.register poll (R.from_std default) default_token_index
    λ w. (ok (first_channel size src default poll waker), w)

  -- `sender`.
  unfoldable pub sender : Channel R → Io O (Sender O)
  sender c = R.try_clone c.src_default_udp >>= λ udp w. (ok (record { src_default_udp = udp }), w)

  module _ {ID : Type 0} ⦃e : Eq ID⦄ (S : Store ID) (Q : QueueApi (ID × NatInfo)) where
    -- What `Boot::new` returns, with what its parts share beside the world.
    pub record Booted : Type 0 where
      pub channel : Channel R
      pub group : Group R
      pub punch : Punch O ID
      pub idle : Idle
      pub tables : Tables S
      pub queues : Queues Q

    -- `Boot::new`. The status is a new one.
    unfoldable pub boot : ℕ → ℤ → ℤ → S.Parker → (List ℕ → List ℕ) → Io O Booted
    unfolding new_punch
    boot size read_idle write_idle parker shuffle = do
      new_status ← λ w. (ok tt, record w { status = Status.cone })
      made ← new_channel size
      send_half ← sender made.0
      λ w. (
        ok (record {
          channel = made.0;
          group = made.1;
          punch = new_punch shuffle send_half;
          idle = new_idle read_idle write_idle;
          tables = empty_tables S parker;
          queues = boot_queues Q;
        }),
        w,
      )
