-- ===== src/Boot/Copies.antt =====
-- The clones of a sender, src/channel/sender.rs, and of a punch, src/punch/mod.rs. What they share
-- with the first one, the cells, the tables and the queues, is not part of them here.
use p2p_channel.Base.{ℕ, ◌<◌, ◌≡◌, refl, none, List, length, arith, Result, ok, err, Eq}
use mathlib.Core.Path.{subst}
use p2p_channel.Os.{Os, WorldOf, Io, continue, ◌>>=◌}
use p2p_channel.Reactor.{Reactor}
use p2p_channel.Sender.{Sender}
use p2p_channel.Ports.{IsShuffle}
use p2p_channel.Punch.{Punch}
use p2p_channel.Punch.Safety.{IsValid}

module _ {O : Os} (R : Reactor O) where
  -- `Sender::try_clone`.
  unfoldable pub try_clone_sender : Sender O → Io O (Sender O)
  try_clone_sender s =
      R.try_clone s.src_default_udp >>= λ udp w. (ok (record { src_default_udp = udp }), w)

  module _ {ID : Type 0} ⦃e : Eq ID⦄ where
    abbrev pub copy_of : List ℕ → Sender O → Punch O ID
    copy_of ports s = record { sender = s; port_vec = ports; port_index = λ id. none }

    -- `Punch::try_clone`.
    unfoldable pub try_clone_punch : (List ℕ → List ℕ) → Punch O ID → Io O (Punch O ID)
    unfolding try_clone_sender
    try_clone_punch shuffle p =
        try_clone_sender p.sender >>= λ s w. (ok (copy_of (shuffle p.port_vec) s), w)

    -- The clone of a punch has the ports in another order, and starts at the first of them for
    -- each peer, wherever the first one is: its windows are in range if there is a port at all.
    pub try_clone_punch-IsValid :
        (shuffle : List ℕ → List ℕ) (p q : Punch O ID) (w w' : WorldOf O)
        → IsShuffle shuffle
        → 0 < length p.port_vec
        → try_clone_punch shuffle p w ≡ (ok q, w')
        → (q.port_vec ≡ shuffle p.port_vec) × IsValid O q
    unfolding try_clone_punch
    try_clone_punch-IsValid shuffle p q w w' sh some_port h = go (try_clone_sender p.sender w) h
      where
        Copied : Punch O ID → Type 0
        Copied q = (q.port_vec ≡ shuffle p.port_vec) × IsValid O q

        go :
            (o : Result (Sender O) × WorldOf O)
            → continue o (λ s v. (ok (copy_of (shuffle p.port_vec) s), v)) ≡ (ok q, w')
            → Copied q
        go (err x, v) e = absurd cc
        go (ok s, v) e =
            let same : copy_of (shuffle p.port_vec) s ≡ q = cc in
            subst Copied same (refl, λ id. omega (arith, sh.same_length p.port_vec, some_port))
