-- ===== src/Channel.antt =====
-- The channel: src/channel/mod.rs. `wakers` is `change_waker_list`, `flag_gen` is
-- `channel_flag_gen`; what a call guards by a lock is one step.
pub mod Sockets
pub mod Nat
pub mod Clones
pub mod Flags
pub mod Registry
pub mod Leak
pub mod Race
pub mod Sending
pub mod Detect
use p2p_channel.Base.{
  ℕ, zero, suc, ◌+◌, ◌%◌, ◌≡◌, Bool, true, false, not, Option, none, some, List, [], ◌∷◌, ◌++◌,
  is_empty, nat_beq, if◌then◌else◌, get_elem?, Result, ok, err, new_error, other, Eq,
}
use p2p_channel.Base.Int.{ℤ}
use p2p_channel.Net.{SocketAddr}
use p2p_channel.Route.{RouteKey, Status, default_token_index, change_token_index}
use p2p_channel.RouteTable.{Store, Tables, update_write_time}
use p2p_channel.Os.{Os, World, WorldOf, Io, continue, ◌>>=◌}
use p2p_channel.Reactor.{Reactor}
use p2p_channel.Sender.{is_status_close, send_all}
use p2p_channel.Punch.{NatType}

module _ {O : Os} (R : Reactor O) where
  -- `Channel`, without what it shares with its clones.
  pub record Channel : Type 0 where
    pub channel_flag : ℕ
    pub src_default_udp : O.Socket
    pub default_udp : O.Socket
    pub udp_list : List O.Socket
    pub poll : R.Poll
    pub size : ℕ

  -- What the clones share beside the world: the next flag and the wakers with their flags.
  pub record Group : Type 0 where
    pub flag_gen : ℕ
    pub wakers : List (ℕ × R.Waker)

  unfoldable pub deregister_all : R.Poll → List O.Socket → WorldOf O → WorldOf O
  deregister_all poll [] w = w
  deregister_all poll (udp ∷ udps) w = deregister_all poll udps (R.deregister poll udp w).1

  -- A new socket that does not block.
  unfoldable pub bind_one : Io O O.Socket
  bind_one = R.bind_any >>= λ udp. R.set_nonblocking udp >>= λ done w. (ok udp, w)

  -- A list with one more socket, or the list and the error.
  abbrev pub pushed :
      List O.Socket
      → Result O.Socket × WorldOf O
      → (List O.Socket → WorldOf O → Result (Unit {0}) × List O.Socket × WorldOf O)
      → Result (Unit {0}) × List O.Socket × WorldOf O
  pushed list (ok udp, w) next = next (list ++ udp ∷ []) w
  pushed list (err x, w) next = (err x, list, w)

  -- `size` new sockets, pushed to the list up to the first error.
  unfoldable pub bind_each :
      ℕ → List O.Socket → WorldOf O → Result (Unit {0}) × List O.Socket × WorldOf O
  bind_each zero list w = (ok tt, list, w)
  bind_each (suc n) list w = pushed list (bind_one w) (bind_each n)

  -- A copy of a shared socket for the own poll; the result of `register` is ignored.
  unfoldable pub clone_one : R.Poll → ℕ → O.Socket → Io O O.Socket
  clone_one poll token udp = R.try_clone udp >>= λ copy w.
      (ok (R.from_std copy), (R.register poll (R.from_std copy) token w).1)

  unfoldable pub clone_each :
      R.Poll
      → ℕ
      → List O.Socket
      → List O.Socket
      → WorldOf O
      → Result (Unit {0}) × List O.Socket × WorldOf O
  clone_each poll token [] udp_list w = (ok tt, udp_list, w)
  clone_each poll token (udp ∷ udps) udp_list w =
      pushed udp_list (clone_one poll token udp w) (clone_each poll (token + 1) udps)

  -- The end of the write lock on `share_info`: the list is what the holder has made of it.
  abbrev pub unlock : List O.Socket → WorldOf O → WorldOf O
  unlock list w = record w { share_info = list }

  abbrev pub bound_then_clone :
      R.Poll
      → Result (Unit {0}) × List O.Socket × WorldOf O
      → Result (Unit {0}) × List O.Socket × WorldOf O
  bound_then_clone poll (err x, list, w) = (err x, [], unlock list w)
  bound_then_clone poll (ok done, list, w) =
      let (result, udp_list, w') = clone_each poll 0 list [] w in (result, udp_list, unlock list w')

  abbrev pub change_to :
      Status
      → List O.Socket
      → R.Poll
      → ℕ
      → WorldOf O
      → Result (Unit {0}) × List O.Socket × WorldOf O
  change_to Status.cone udp_list poll size w =
      (ok tt, [], unlock [] (deregister_all poll udp_list w))
  change_to Status.symmetric udp_list poll size w =
      let w' = deregister_all poll udp_list w in
      let list = w.share_info in
      bound_then_clone poll (if is_empty list then bind_each size list w' else (ok tt, list, w'))
  change_to Status.close udp_list poll size w = (err (new_error other "channel close"), udp_list, w)

  -- `change`: the result, `udp_list` and the world.
  unfoldable pub change :
      List O.Socket → R.Poll → ℕ → WorldOf O → Result (Unit {0}) × List O.Socket × WorldOf O
  change udp_list poll size w = change_to w.status udp_list poll size w

  unfoldable pub wake_all : List (ℕ × R.Waker) → Io O (Unit {0})
  wake_all [] w = (ok tt, w)
  wake_all ((flag, waker) ∷ wakers) w =
      let rest = wake_all wakers in (R.wake waker >>= λ done. rest) w

  -- What `set_nat_type` does in a status: set the other one and wake, nothing, or fail.
  abbrev pub set_from : Status → NatType → List (ℕ × R.Waker) → Io O (Unit {0})
  set_from Status.cone NatType.symmetric wakers w =
      wake_all wakers (record w { status = Status.symmetric })
  set_from Status.cone NatType.cone wakers w = (ok tt, w)
  set_from Status.symmetric NatType.cone wakers w =
      wake_all wakers (record w { status = Status.cone })
  set_from Status.symmetric NatType.symmetric wakers w = (ok tt, w)
  set_from Status.close nat wakers w = (err (new_error other "closed"), w)

  -- `set_nat_type`.
  unfoldable pub set_nat_type : NatType → Group → Io O (Unit {0})
  set_nat_type nat g w = set_from w.status nat g.wakers w

  abbrev pub nat_of : Status → Result NatType
  nat_of Status.cone = ok NatType.cone
  nat_of Status.symmetric = ok NatType.symmetric
  nat_of Status.close = err (new_error other "closed")

  -- `nat_type`.
  unfoldable pub nat_type : WorldOf O → Result NatType
  nat_type w = nat_of w.status

  -- `close`, but for the parker, which is with the tables.
  unfoldable pub close : Group → Io O (Unit {0})
  close g w = wake_all g.wakers (record w { status = Status.close })

  -- `send_to_addr`.
  unfoldable pub send_to_addr : Channel → List ℕ → SocketAddr → Io O ℕ
  send_to_addr c buf addr w =
      if is_status_close w.status
      then (err (new_error other "closed"), w)
      else send_all O c.src_default_udp buf addr w

  -- The socket of a route key: the default one, or the own copy with its index.
  unfoldable pub send_by_index : Channel → List ℕ → RouteKey → Io O ℕ
  send_by_index c buf key w =
      if nat_beq key.index default_token_index
      then send_all O c.src_default_udp buf key.addr w
      else elim (get_elem? c.udp_list key.index) [
        | some udp ↦ send_all O udp buf key.addr w
        | none ↦ (err (new_error other "not fount"), w)
      ]

  -- A new channel over a copy of the default socket, and the group with its waker.
  abbrev pub clone_parts : O.Socket → Io O (O.Socket × O.Socket × R.Poll × R.Waker)
  clone_parts default = do
    src ← R.try_clone default
    copy ← R.try_clone src
    poll ← R.poll_new
    waker ← R.waker_new poll change_token_index
    registered ← R.register poll (R.from_std copy) default_token_index
    λ w. (ok (src, R.from_std copy, poll, waker), w)

  abbrev pub built :
      ℕ
      → ℕ
      → O.Socket × O.Socket × R.Poll × R.Waker
      → Result (Unit {0}) × List O.Socket × WorldOf O
      → Result Channel × WorldOf O
  built flag size parts (err x, udp_list, w) = (err x, w)
  built flag size (src, default, poll, waker) (ok done, udp_list, w) = (
    ok (record {
      channel_flag = flag;
      src_default_udp = src;
      default_udp = default;
      udp_list = udp_list;
      poll = poll;
      size = size;
    }),
    w,
  )

  abbrev pub with_parts :
      ℕ
      → ℕ
      → Group
      → Result (O.Socket × O.Socket × R.Poll × R.Waker) × WorldOf O
      → Result Channel × Group × WorldOf O
  with_parts flag size g (err x, w) = (err x, g, w)
  with_parts flag size g (ok parts, w) =
      let (made, w') = built flag size parts (change [] parts.2 size w) in
      (made, record g { wakers = g.wakers ++ (flag, parts.3) ∷ [] }, w')

  -- `try_clone`. The flag is taken first, and the waker stays in the list if `change` fails.
  unfoldable pub try_clone : Channel → Group → WorldOf O → Result Channel × Group × WorldOf O
  unfolding change
  try_clone c g w =
      with_parts g.flag_gen c.size (record g { flag_gen = (g.flag_gen + 1) % 18446744073709551616 })
        (clone_parts c.src_default_udp w)

  -- `retain(|(flag, _)| *flag != channel_flag)`.
  unfoldable pub retain_wakers : ℕ → List (ℕ × R.Waker) → List (ℕ × R.Waker)
  retain_wakers flag [] = []
  retain_wakers flag ((f, waker) ∷ wakers) =
      let rest = retain_wakers flag wakers in if nat_beq f flag then rest else (f, waker) ∷ rest

  -- `drop`.
  unfoldable pub drop : Channel → Group → Group
  unfolding retain_wakers
  drop c g = record g { wakers = retain_wakers c.channel_flag g.wakers }
